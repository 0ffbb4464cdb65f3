-- ===== src/Api/Debounce.antt =====
-- The debounced event of frontend/lib/api.ts (`dispatchAuthExpired`): the times of a session's 401
-- answers against the times at which "prefixd:auth-expired" is dispatched.
use prefixd.Base.{
  ℕ, ◌+◌, ◌≤◌, ◌<◌, Option, none, some, List, [], ◌∷◌, if◌then◌else◌, leb, In, arith, ◌⊎◌, refl,
  inl, inr, Bool-cases,
}
use prefixd.Api.{clear_due, dispatch_auth_expired}

-- The times of the dispatched events, when answers with status 401 arrive at these times.
unfoldable pub announcements : Option ℕ → List ℕ → List ℕ
unfolding clear_due dispatch_auth_expired
announcements timer [] = []
announcements timer (t ∷ ts) =
    let (next, announced) = dispatch_auth_expired t (clear_due t timer) in
    let rest = announcements next ts in if announced then t ∷ rest else rest

-- Each time is at least two seconds after the one before it.
abbrev pub IsSpaced : ℕ → List ℕ → Type 0
IsSpaced from [] = Unit
IsSpaced from (t ∷ ts) = (from ≤ t) × IsSpaced (t + 2000) ts

abbrev pub IsOrdered : ℕ → List ℕ → Type 0
IsOrdered from [] = Unit
IsOrdered from (t ∷ ts) = (from ≤ t) × IsOrdered t ts

-- An event was dispatched at the time or in the two seconds before it.
abbrev pub IsCovered : ℕ → List ℕ → Type 0
IsCovered t events = (a : ℕ) × In a events × (a ≤ t) × (t < a + 2000)

abbrev due_of : Option ℕ → ℕ
due_of none = 0
due_of (some due) = due

announcements-IsSpaced :
    (timer : Option ℕ) (ts : List ℕ) → IsSpaced (due_of timer) (announcements timer ts)
unfolding announcements clear_due dispatch_auth_expired
announcements-IsSpaced timer [] = tt
announcements-IsSpaced none (t ∷ ts) = (omega arith, announcements-IsSpaced (some (t + 2000)) ts)
announcements-IsSpaced (some due) (t ∷ ts) = elim (Bool-cases (leb due t)) [
  | inl e ↦ rw e (ground arith, announcements-IsSpaced (some (t + 2000)) ts)
  | inr e ↦ rw e (announcements-IsSpaced (some due) ts)
]

ordered_from : (from : ℕ) (ts : List ℕ) → IsOrdered from ts → (t : ℕ) → In t ts → from ≤ t
ordered_from from [] h t m = absurd m
ordered_from from (s ∷ ts) h t (inl e) = ground arith
ordered_from from (s ∷ ts) h t (inr m) = omega (arith, h.0, ordered_from s ts h.1 t m)

abbrev IsKept : ℕ → List ℕ → ℕ → Type 0
IsKept last events t = (t < last + 2000) ⊎ IsCovered t events

kept_cons : (last a t : ℕ) (events : List ℕ) → a ≤ t → IsKept a events t → IsCovered t (a ∷ events)
kept_cons last a t events le (inl lt) = (a, inl refl, le, lt)
kept_cons last a t events le (inr (b, m, before, after)) = (b, inr m, before, after)

covered_from :
    (last : ℕ) (ts : List ℕ)
    → IsOrdered last ts
    → (t : ℕ) → In t ts
    → IsKept last (announcements (some (last + 2000)) ts) t
unfolding announcements clear_due dispatch_auth_expired
covered_from last [] h t m = absurd m
covered_from last (s ∷ ts) h t m = elim (Bool-cases (leb (last + 2000) s)) [
  | inl e ↦ rw e (
      inr (elim m [
        | inl here ↦ (s, inl refl, omega (arith, here), omega (arith, here))
        | inr there ↦
            kept_cons last s t (announcements (some (s + 2000)) ts) (ordered_from s ts h.1 t there)
              (covered_from s ts h.1 t there)
      ]))
  | inr e ↦ rw e (elim m [
    | inl here ↦ inl (ground arith)
    | inr there ↦ covered_from last ts (relax ts h.1) t there
  ])
]
  where
    relax : (l : List ℕ) → IsOrdered s l → IsOrdered last l
    relax [] k = tt
    relax (x ∷ l) k = (omega (arith, h.0, k.0), k.1)

-- When answers with status 401 arrive at any times in order, the "prefixd:auth-expired" events are at
-- least two seconds apart, and each of the answers has an event at its time or in the two seconds
-- before it.
pub announcements_lem :
    (ts : List ℕ)
    → IsOrdered 0 ts
    → IsSpaced 0 (announcements none ts) × ((t : ℕ) → In t ts → IsCovered t (announcements none ts))
unfolding announcements clear_due dispatch_auth_expired
announcements_lem [] h = (tt, λ t m. absurd m)
announcements_lem (s ∷ ts) h = (
  announcements-IsSpaced none (s ∷ ts),
  λ t m. elim m [
    | inl here ↦ (s, inl refl, omega (arith, here), omega (arith, here))
    | inr there ↦
        kept_cons 0 s t (announcements (some (s + 2000)) ts) (ordered_from s ts h.1 t there)
          (covered_from s ts h.1 t there)
  ],
)
