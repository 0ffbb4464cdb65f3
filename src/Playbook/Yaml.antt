-- ===== src/Playbook/Yaml.antt =====
-- The editor of playbooks as YAML, frontend/components/dashboard/playbook-yaml-editor.tsx. The package
-- js-yaml is two arguments, `dump` and `load`; what the browser's `String` and `Number` make of arrays,
-- objects and dates, and the text of a number, are arguments as well.
pub mod Laws
mod Tests
use prefixd.Base.{
  ℕ, Bool, true, false, not, ◌&&◌, ◌||◌, Option, none, some, List, [], ◌∷◌, ◌++◌, map,
  if◌then◌else◌, or_else,
}
use prefixd.Base.Text.{Text, codes, same, truthy}
use prefixd.Base.Http.{Result, ok, err, ◌>>=◌}
use prefixd.Base.Numbers.{Number, nan, finite, is_falsy}
use prefixd.Playbook.{Step, Match, ConfigPlaybook, validate_playbooks}

-- The values that `yaml.load` gives back; `other` is one that is neither a scalar nor an array or a
-- plain object, such as a date.
mutual
  pub data Value : Type 0 where
    undefined : Value
    null : Value
    boolean : Bool → Value
    number : Number → Value
    string : Text → Value
    array : Values → Value
    object : Fields → Value
    other : Text → Value

  pub data Values : Type 0 where
    nil : Values
    cons : Value → Values → Values

  pub data Fields : Type 0 where
    end : Fields
    field : Text → Value → Fields → Fields

abbrev pub values : {A : Type 0} → (A → Value) → List A → Values
values f [] = nil
values f (a ∷ l) = cons (f a) (values f l)

-- The browser's part.
pub record Browser : Type 0 where
  pub number_text : Number → Text
  pub number_of : Text → Number
  pub compound_text : Value → Result Text
  pub compound_number : Value → Result Number
  -- The message of a TypeError.
  pub type_error : Text

-- `if (s.field != null) step.field = s.field`.
abbrev pub field_if : Text → Option Number → Fields → Fields
field_if name none rest = rest
field_if name (some n) rest = field name (number n) rest

unfoldable pub step_value : Step → Value
step_value s = object (
    field (codes "action") (string s.action) (
      field_if (codes "rate_bps") s.rate_bps (
        field (codes "ttl_seconds") (number s.ttl_seconds) (
          field_if (codes "require_confidence_at_least") s.require_confidence_at_least
            (field_if (codes "require_persistence_seconds") s.require_persistence_seconds end)))))

unfoldable pub match_value : Match → Value
match_value m = object (
    field (codes "vector") (string m.vector) (
      if or_else m.require_top_ports false
      then field (codes "require_top_ports") (boolean true) end
      else end))

unfoldable pub playbook_value : ConfigPlaybook → Value
unfolding step_value match_value
playbook_value p = object (
    field (codes "name") (string p.name) (
      field (codes "match") (match_value p.match_rule)
        (field (codes "steps") (array (values step_value p.steps)) end)))

-- The object that `playbooksToYaml` dumps.
unfoldable pub document : List ConfigPlaybook → Value
unfolding playbook_value
document playbooks =
    object (field (codes "playbooks") (array (values playbook_value playbooks)) end)

abbrev pub is_nullish : Value → Bool
is_nullish undefined = true
is_nullish null = true
is_nullish _ = false

-- `v ?? fallback`.
abbrev pub given_or : Value → Value → Value
given_or v fallback = if is_nullish v then fallback else v

abbrev pub is_truthy : Value → Bool
is_truthy undefined = false
is_truthy null = false
is_truthy (boolean b) = b
is_truthy (number n) = not (is_falsy n)
is_truthy (string s) = truthy s
is_truthy _ = true

abbrev pub is_true : Value → Bool
is_true (boolean b) = b
is_true _ = false

abbrev pub lookup : Text → Fields → Value
lookup name end = undefined
lookup name (field n v rest) = if same n name then v else lookup name rest

-- `v?.name`. None of the names that are read here means anything else on a value that is no object.
abbrev pub get_if : Text → Value → Value
get_if name (object fields) = lookup name fields
get_if name _ = undefined

-- `parseError` alone, or `validationErrors`.
abbrev pub errors_of : Result (List ConfigPlaybook) → List Text
errors_of (ok playbooks) = validate_playbooks playbooks
errors_of (err message) = message ∷ []

-- `parsed`, where `null` is `none`.
abbrev pub parsed_of : Result (List ConfigPlaybook) → Option (List ConfigPlaybook)
parsed_of (ok playbooks) = some playbooks
parsed_of (err message) = none

abbrev pub is_empty : List Text → Bool
is_empty [] = true
is_empty (x ∷ l) = false

module _ (b : Browser) where
  -- `v.name`, which throws on `null` and `undefined`.
  abbrev pub get : Text → Value → Result Value
  get name v = if is_nullish v then err b.type_error else ok (get_if name v)

  -- `String(v)`.
  abbrev pub string_of : Value → Result Text
  string_of undefined = ok (codes "undefined")
  string_of null = ok (codes "null")
  string_of (boolean true) = ok (codes "true")
  string_of (boolean false) = ok (codes "false")
  string_of (number n) = ok (b.number_text n)
  string_of (string s) = ok s
  string_of v = b.compound_text v

  -- `Number(v)`.
  abbrev pub number_of : Value → Result Number
  number_of undefined = ok nan
  number_of null = ok (finite false 0 0)
  number_of (boolean true) = ok (finite false 1 0)
  number_of (boolean false) = ok (finite false 0 0)
  number_of (number n) = ok n
  number_of (string s) = ok (b.number_of s)
  number_of v = b.compound_number v

  -- `v != null ? Number(v) : undefined`.
  abbrev pub number_if : Value → Result (Option Number)
  number_if v = if is_nullish v then ok none else number_of v >>= λ n. ok (some n)

  unfoldable pub step_of : Value → Result Step
  step_of s =
      (get (codes "action") s >>= λ v. string_of (given_or v (string (codes "police"))))
      >>= λ action. number_if (get_if (codes "rate_bps") s) >>= λ rate.
          number_of (given_or (get_if (codes "ttl_seconds") s) (number (finite false 0 0)))
          >>= λ ttl. number_if (get_if (codes "require_confidence_at_least") s) >>= λ confidence.
              number_if (get_if (codes "require_persistence_seconds") s) >>= λ persistence.
              ok (record {
                action = action;
                rate_bps = rate;
                ttl_seconds = ttl;
                require_confidence_at_least = confidence;
                require_persistence_seconds = persistence;
              })

  unfoldable pub steps_of : Values → Result (List Step)
  unfolding step_of
  steps_of nil = ok []
  steps_of (cons v l) = step_of v >>= λ s. steps_of l >>= λ rest. ok (s ∷ rest)

  -- `(pb.steps || []).map(…)`, which throws on a truthy value that is no array.
  abbrev pub all_steps_of : Value → Result (List Step)
  all_steps_of (array l) = steps_of l
  all_steps_of v = if is_truthy v then err b.type_error else ok []

  unfoldable pub playbook_of : Value → Result ConfigPlaybook
  unfolding steps_of
  playbook_of pb = get (codes "match") pb >>= λ rule.
      string_of (given_or (get_if (codes "name") pb) (string [])) >>= λ name.
      string_of (given_or (get_if (codes "vector") rule) (string (codes "unknown"))) >>= λ vector.
      all_steps_of (get_if (codes "steps") pb) >>= λ steps. ok (record {
        name = name;
        match_rule = record {
          vector = vector;
          require_top_ports = some (is_true (get_if (codes "require_top_ports") rule));
        };
        steps = steps;
      })

  unfoldable pub playbooks_of : Values → Result (List ConfigPlaybook)
  unfolding playbook_of
  playbooks_of nil = ok []
  playbooks_of (cons v l) = playbook_of v >>= λ p. playbooks_of l >>= λ rest. ok (p ∷ rest)

  -- The `catch` of `parseYaml`.
  abbrev pub caught : {A : Type 0} → Result A → Result A
  caught (ok a) = ok a
  caught (err message) = err (codes "YAML parse error: " ++ message)

  -- The list under `playbooks` of what was loaded.
  abbrev pub playbooks_under : Value → Result (List ConfigPlaybook)
  playbooks_under (array l) = caught (playbooks_of l)
  playbooks_under _ = err (codes "YAML must contain a top-level 'playbooks' array")

module _ (b : Browser) (dump : Value → Text) (load : Text → Result Value) where
  abbrev pub playbooks_to_yaml : List ConfigPlaybook → Text
  playbooks_to_yaml playbooks = dump (document playbooks)

  -- `playbooks` is `ok`, and `error` is `err`.
  unfoldable pub parse_yaml : Text → Result (List ConfigPlaybook)
  unfolding playbooks_of
  parse_yaml text = caught b (load text) >>= λ v. playbooks_under b (get_if (codes "playbooks") v)

  abbrev pub has_changes : List ConfigPlaybook → Text → Bool
  has_changes playbooks text = not (same text (playbooks_to_yaml playbooks))

  unfoldable pub all_errors : Text → List Text
  unfolding parse_yaml
  all_errors text = errors_of (parse_yaml text)

  unfoldable pub apply_is_enabled : List ConfigPlaybook → Text → (saving : Bool) → Bool
  unfolding all_errors
  apply_is_enabled playbooks text saving =
      has_changes playbooks text && is_empty (all_errors text) && not saving

  -- What `handleSave` gives to `onSave`.
  unfoldable pub handle_save : Text → Option (List ConfigPlaybook)
  unfolding parse_yaml
  handle_save text = parsed_of (parse_yaml text)
