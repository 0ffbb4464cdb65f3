-- ===== src/Api/Query.antt =====
-- The query strings that frontend/lib/api.ts builds with URLSearchParams, and a reader of them.
-- The percent-encoding of the browser is an argument.
use prefixd.Base.{
  All-append, ℕ, true, false, Option, none, some, List, [], ◌∷◌, ◌++◌, map, if◌then◌else◌, ◌==◌,
  All, ◌≡◌, refl, ap, ◌∙◌,
}
use prefixd.Base.Text.{Text, truthy}
use mathlib.Core.List.{append-nil}
use prefixd.Base.Split.{split, join, IsFree, split-append, split_free, split-join}

-- A search parameter: its name and its value.
abbrev pub Entry : Type 0
Entry = Text × Text

-- `if (value) searchParams.set(name, value)`.
unfoldable pub entry_if : Text → Option Text → List Entry → List Entry
entry_if name none rest = rest
entry_if name (some value) rest = if truthy value then (name, value) ∷ rest else rest

module _ (form_encode : Text → Text) where
  abbrev pub pair : Entry → Text
  pair (name, value) = form_encode name ++ b'=' ∷ form_encode value

  -- `searchParams.toString()`.
  unfoldable pub to_string : List Entry → Text
  unfolding join
  to_string entries = join b'&' (map pair entries)

  -- `${path}${query ? `?${query}` : ""}`.
  unfoldable pub with_query : Text → List Entry → Text
  unfolding to_string
  with_query path entries =
      let query = to_string entries in path ++ (if truthy query then b'?' ∷ query else [])

module _ (form_decode : Text → Text) where
  -- The parameters of a query: a pair of names and values between each two ampersands.
  unfoldable pub read_pair : List Text → Entry
  read_pair [] = ([], [])
  read_pair (name ∷ []) = (form_decode name, [])
  read_pair (name ∷ value ∷ l) = (form_decode name, form_decode value)

  unfoldable pub read_entries : List Text → List Entry
  unfolding read_pair split
  read_entries [] = []
  read_entries (s ∷ l) = read_pair (split b'=' s) ∷ read_entries l

  -- The parts of an address between its question marks.
  unfoldable pub read_parts : List Text → List Entry
  unfolding read_entries split
  read_parts [] = []
  read_parts (path ∷ []) = []
  read_parts (path ∷ query ∷ more) = read_entries (split b'&' query)

  unfoldable pub read_query : Text → List Entry
  unfolding read_parts split
  read_query url = read_parts (split b'?' url)

-- What a reader relies on: the encoding has no separators, and it is undone.
pub record IsEncoding (form_encode form_decode : Text → Text) : Type 0 where
  pub undone : (t : Text) → form_decode (form_encode t) ≡ t
  pub no_ampersand : (t : Text) → IsFree b'&' (form_encode t)
  pub no_equals : (t : Text) → IsFree b'=' (form_encode t)
  pub no_question : (t : Text) → IsFree b'?' (form_encode t)

module _ (form_encode form_decode : Text → Text) (e : IsEncoding form_encode form_decode) where
  read_one : (entry : Entry) → read_pair form_decode (split b'=' (pair form_encode entry)) ≡ entry
  unfolding read_pair
  read_one (name, value) =
      rw
        (
          split-append b'=' (form_encode name) (form_encode value) (e.no_equals name),
          split_free b'=' (form_encode value) (e.no_equals value),
          e.undone name,
          e.undone value,
        )
        refl

  read_each :
      (entries : List Entry) → read_entries form_decode (map (pair form_encode) entries) ≡ entries
  unfolding read_entries
  read_each [] = refl
  read_each (entry ∷ l) = rw (read_one entry, read_each l) refl

  pair-IsFree :
      (sep : ℕ) (entry : Entry)
      → (b'=' == sep) ≡ false
      → ((t : Text) → IsFree sep (form_encode t))
      → IsFree sep (pair form_encode entry)
  pair-IsFree sep (name, value) other free =
      All-append (λ c. (c == sep) ≡ false) (form_encode name) (b'=' ∷ form_encode value) (free name)
        (other, free value)

  pairs-IsFree : (entries : List Entry) → All (λ t. IsFree b'&' t) (map (pair form_encode) entries)
  pairs-IsFree [] = tt
  pairs-IsFree (entry ∷ l) = (pair-IsFree b'&' entry refl e.no_ampersand, pairs-IsFree l)

  to_string-IsFree : (entries : List Entry) → IsFree b'?' (to_string form_encode entries)
  unfolding to_string join
  to_string-IsFree [] = tt
  to_string-IsFree (x ∷ []) = pair-IsFree b'?' x refl e.no_question
  to_string-IsFree (x ∷ y ∷ l) =
      All-append (λ c. (c == b'?') ≡ false) (pair form_encode x)
        (b'&' ∷ to_string form_encode (y ∷ l)) (pair-IsFree b'?' x refl e.no_question)
        (refl, to_string-IsFree (y ∷ l))

  truthy_append : (s t : Text) (c : ℕ) → truthy (s ++ c ∷ t) ≡ true
  truthy_append [] t c = refl
  truthy_append (d ∷ s) t c = refl

  to_string_some : (x : Entry) (l : List Entry) → truthy (to_string form_encode (x ∷ l)) ≡ true
  unfolding to_string join
  to_string_some x [] = truthy_append (form_encode x.0) (form_encode x.1) b'='
  to_string_some x (y ∷ l) = truthy_append (pair form_encode x) (to_string form_encode (y ∷ l)) b'&'

  entries_back :
      (x : Entry) (l : List Entry)
      → read_entries form_decode (split b'&' (to_string form_encode (x ∷ l))) ≡ x ∷ l
  unfolding to_string
  entries_back x l =
      ap (read_entries form_decode)
        (split-join b'&' (pair form_encode x) (map (pair form_encode) l) (pairs-IsFree (x ∷ l)))
      ∙ read_each (x ∷ l)

  with_query_some :
      (path : Text) (x : Entry) (l : List Entry)
      → with_query form_encode path (x ∷ l) ≡ path ++ b'?' ∷ to_string form_encode (x ∷ l)
  unfolding with_query
  with_query_some path x l = rw (to_string_some x l) refl

  with_query_none : (path : Text) → with_query form_encode path [] ≡ path
  unfolding with_query
  with_query_none path = append-nil path

  -- A reader of the address gets back the parameters, in their order, if the path has no question
  -- mark and the encoding has no separators and is undone by the decoding.
  pub read_query-with_query :
      (path : Text) (entries : List Entry)
      → IsFree b'?' path
      → read_query form_decode (with_query form_encode path entries) ≡ entries
  unfolding read_query read_parts
  read_query-with_query path [] free =
      ap (read_query form_decode) (with_query_none path)
      ∙ ap (read_parts form_decode) (split_free b'?' path free)
  read_query-with_query path (x ∷ l) free =
      let query = to_string form_encode (x ∷ l) in
      ap (read_query form_decode) (with_query_some path x l)
      ∙ ap (read_parts form_decode) (
          split-append b'?' path query free
          ∙ ap (λ t. path ∷ t) (split_free b'?' query (to_string-IsFree (x ∷ l))))
      ∙ entries_back x l
