-- ===== src/Api/Endpoints/Laws.antt =====
-- What the daemon reads from the addresses of frontend/lib/api.ts.
use prefixd.Base.{ℕ, Option, none, some, List, [], ◌∷◌, if◌then◌else◌, arith, ◌≡◌, refl}
use prefixd.Base.Text.{Text, codes, same, truthy}
use prefixd.Base.Decimal.{truthy-to_decimal}
use prefixd.Base.Split.{IsFree-all, join, IsFree}
use prefixd.Api.Query.{Entry, entry_if, with_query, read_query, IsEncoding, read_query-with_query}
use prefixd.Api.Params.{shown, status_entry, MitigationParams, mitigation_entries}
use prefixd.Api.Endpoints.{get_mitigations}

-- The first value of a parameter.
abbrev pub value_of : Text → List Entry → Option Text
value_of name [] = none
value_of name ((n, v) ∷ l) = if same n name then some v else value_of name l

-- A value that is given and not empty.
abbrev pub present : Option Text → Option Text
present none = none
present (some v) = if truthy v then some v else none

abbrev first_of : Option Text → Option Text → Option Text
first_of none o = o
first_of (some v) o = some v

value_of-entry_if :
    (name n : Text) (v : Option Text) (rest : List Entry)
    → value_of name (entry_if n v rest)
      ≡ (if same n name then first_of (present v) (value_of name rest) else value_of name rest)
unfolding entry_if
value_of-entry_if name n none rest = ground arith
value_of-entry_if name n (some v) rest = ground arith

first_of-none : (o : Option Text) → first_of o none ≡ o
first_of-none none = refl
first_of-none (some v) = refl

-- The states that are asked for, joined by commas.
abbrev pub joined : Option (List Text) → Option Text
joined none = none
joined (some []) = none
joined (some (s ∷ l)) = some (join b',' (s ∷ l))

present-shown : (o : Option ℕ) → present (shown o) ≡ shown o
present-shown none = refl
present-shown (some n) = ground (arith, truthy-to_decimal n)

value_of-status_entry :
    (name : Text) (v : Option (List Text)) (rest : List Entry)
    → value_of name (status_entry v rest) ≡ (
        if same (codes "status") name
        then first_of (joined v) (value_of name rest)
        else value_of name rest)
unfolding status_entry
value_of-status_entry name none rest = ground arith
value_of-status_entry name (some []) rest = ground arith
value_of-status_entry name (some (s ∷ l)) rest = ground arith

ruleset value_laws = (value_of-entry_if, value_of-status_entry, first_of-none, present-shown)

mitigation_values :
    (p : MitigationParams)
    → let entries = mitigation_entries p in
      (value_of (codes "status") entries ≡ joined p.status)
      × (value_of (codes "customer_id") entries ≡ present p.customer_id)
      × (value_of (codes "pop") entries ≡ present p.pop)
      × (value_of (codes "limit") entries ≡ shown p.limit)
      × (value_of (codes "offset") entries ≡ shown p.offset)
unfolding mitigation_entries
mitigation_values p =
    (simp value_laws, simp value_laws, simp value_laws, simp value_laws, simp value_laws)

abbrev path : Text
path = codes "/api/prefixd/v1/mitigations"

path-IsFree : IsFree b'?' path
path-IsFree = IsFree-all b'?' path refl

module _ (form_encode form_decode : Text → Text) (e : IsEncoding form_encode form_decode) where
  mitigations_back :
      (p : MitigationParams)
      → read_query form_decode (get_mitigations form_encode (some p)).url ≡ mitigation_entries p
  unfolding get_mitigations with_query
  mitigations_back p =
      read_query-with_query form_encode form_decode e path (mitigation_entries p) path-IsFree

  -- The daemon reads from the address of `getMitigations` the states, joined by commas, the customer
  -- and the point of presence where they are given and not empty, and the limit and the offset where
  -- they are given and not 0, if the encoding has no separators and is undone by the decoding.
  pub get_mitigations_lem :
      (p : MitigationParams)
      → let back = read_query form_decode (get_mitigations form_encode (some p)).url in
        (value_of (codes "status") back ≡ joined p.status)
        × (value_of (codes "customer_id") back ≡ present p.customer_id)
        × (value_of (codes "pop") back ≡ present p.pop)
        × (value_of (codes "limit") back ≡ shown p.limit)
        × (value_of (codes "offset") back ≡ shown p.offset)
  get_mitigations_lem p = rw (mitigations_back p) (mitigation_values p)
