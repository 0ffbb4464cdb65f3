-- ===== src/Overview.antt =====
-- The overview, frontend/app/(dashboard)/page.tsx: its numbers; and the state of the system,
-- frontend/components/dashboard/bgp-session-status.tsx.
mod Tests
use prefixd.Base.{
  ℕ, suc, ◌+◌, ◌≤◌, Bool, true, false, Option, none, some, List, [], ◌∷◌, ◌++◌, All, All-keep,
  if◌then◌else◌, ltb, keep, length, length-keep-le, or_else, arith, ◌≡◌, ◌⊎◌, inl, inr, refl,
  Bool-cases,
}
use prefixd.Base.Text.{Text, codes, same}
use prefixd.Base.Decimal.{to_decimal}
use prefixd.Table.Mitigations.{Mitigation}
use prefixd.Remaining.{is_active}

-- `none` is the data that has not arrived.
unfoldable pub active_mitigations : Option (List Mitigation) → List Mitigation
active_mitigations mitigations = keep is_active (or_else mitigations [])

unfoldable pub actions : Text → List Mitigation → List Mitigation
actions kind mitigations = keep (λ m. same m.action_type kind) mitigations

abbrev pub police_actions : Option (List Mitigation) → ℕ
police_actions mitigations = length (actions (codes "police") (active_mitigations mitigations))

abbrev pub discard_actions : Option (List Mitigation) → ℕ
discard_actions mitigations = length (actions (codes "discard") (active_mitigations mitigations))

-- The number under "Active Mitigations", by that of the statistics.
unfoldable pub active_shown : (total_active : Option ℕ) → Option (List Mitigation) → ℕ
unfolding active_mitigations
active_shown total_active mitigations =
    or_else total_active (length (active_mitigations mitigations))

-- The fields of the health request that the state of the system reads.
pub record HealthDetail : Type 0 where
  pub bgp_session_up : Option Bool
  pub database : Text
  pub active_mitigations : ℕ

abbrev pub is_up : Option HealthDetail → Bool
is_up none = false
is_up (some h) = or_else h.bgp_session_up false

unfoldable pub bgp_text : Option HealthDetail → (has_error : Bool) → Text
bgp_text health has_error =
    if is_up health then codes "UP" else if has_error then codes "ERROR" else codes "DOWN"

-- The texts of the other marks: the database, the mitigations and the points of presence.
unfoldable pub other_texts : Option HealthDetail → (pops : Option ℕ) → List Text
unfolding to_decimal
other_texts health pops =
    elim health [
      | none ↦ []
      | some h ↦
          (if same h.database (codes "connected") then codes "OK" else codes "ERR")
          ∷ (to_decimal h.active_mitigations ++ codes " active")
          ∷ []
    ]
    ++ elim pops [
      | none ↦ []
      | some n ↦ if ltb 1 n then (to_decimal n ++ codes " POPs") ∷ [] else []
    ]

split_actions :
    (l : List Mitigation)
    → All (λ m. (m.action_type ≡ codes "police") ⊎ (m.action_type ≡ codes "discard")) l
    → length (actions (codes "police") l) + length (actions (codes "discard") l) ≡ length l
unfolding actions
split_actions [] h = refl
split_actions (m ∷ l) h = elim h.0 [
  | inl e ↦ rw e (omega (arith, split_actions l h.1))
  | inr e ↦ rw e (omega (arith, split_actions l h.1))
]

-- Where every mitigation polices or discards, the two numbers of actions together are the number of the
-- active mitigations in the list; so, as the list is asked for with at most fifty, they are at most
-- fifty, while the number under "Active Mitigations" is whatever the statistics say.
pub actions_lem :
    (l : List Mitigation) (total_active : ℕ)
    → All (λ m. (m.action_type ≡ codes "police") ⊎ (m.action_type ≡ codes "discard")) l
    → length l ≤ 50
    → (police_actions (some l) + discard_actions (some l) ≡ active_shown none (some l))
      × (police_actions (some l) + discard_actions (some l) ≤ 50)
      × (active_shown (some total_active) (some l) ≡ total_active)
unfolding active_mitigations active_shown
actions_lem l total_active kinds few =
    let whole = split_actions (keep is_active l) (
      All-keep (λ m. (m.action_type ≡ codes "police") ⊎ (m.action_type ≡ codes "discard")) is_active
        l kinds) in
    (whole, omega (arith, whole, few, length-keep-le is_active l), refl)
