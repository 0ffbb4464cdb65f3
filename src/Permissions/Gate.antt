-- ===== src/Permissions/Gate.antt =====
-- The gate around every page: frontend/components/require-auth.tsx.
use prefixd.Base.{true, false, some, ◌≡◌, arith, ◌↔◌, ◌⊎◌, Option-cases, inl, inr}
use prefixd.Session.{Operator, Auth, is_authenticated}
use prefixd.Permissions.{
  Health, use_permissions, require_auth, redirects, children, nothing, spinner,
}
use prefixd.Permissions.Laws.{AuthOff, AuthOff-of_disabled, disabled_of_AuthOff}

-- The session of the provider and the health request are both over.
abbrev pub BothOver : Auth → Health → Type 0
BothOver a h = (a.is_loading ≡ false) × (h.is_loading ≡ false)

abbrev pub IsSignedIn : Auth → Type 0
IsSignedIn a = (o : Operator) × (a.operator ≡ some o)

gate_lem :
    (a : Auth) (h : Health)
    → ((require_auth a h ≡ spinner) ↔ ((a.is_loading ≡ true) ⊎ (h.is_loading ≡ true)))
      × ((require_auth a h ≡ children) ↔ (
          BothOver a h
          × (((use_permissions a h).auth_disabled ≡ true) ⊎ (is_authenticated a ≡ true))))
      × ((redirects a h ≡ true) ↔ (require_auth a h ≡ nothing))
unfolding require_auth redirects use_permissions
gate_lem a h = (ground arith, ground arith, ground arith)

is_authenticated-IsSignedIn : (a : Auth) → (is_authenticated a ≡ true) ↔ IsSignedIn a
is_authenticated-IsSignedIn a = elim (Option-cases a.operator) [
  | inl missing ↦ ((λ e. absurd (ground arith)), λ (o, got). absurd (ground arith))
  | inr (o, got) ↦ ((λ e. (o, got)), λ h. ground arith)
]

-- The spinner is shown exactly while the session or the health request is loading. The page is
-- rendered exactly where both are over and the health request answered that there is no
-- authentication, or an operator is signed in. The effect pushes "/login" exactly where nothing is
-- rendered.
pub require_auth_lem :
    (a : Auth) (h : Health)
    → ((require_auth a h ≡ spinner) ↔ ((a.is_loading ≡ true) ⊎ (h.is_loading ≡ true)))
      × ((require_auth a h ≡ children) ↔ (BothOver a h × (AuthOff a h ⊎ IsSignedIn a)))
      × ((redirects a h ≡ true) ↔ (require_auth a h ≡ nothing))
require_auth_lem a h =
    let (waits, shows, leaves) = gate_lem a h in
    (
      waits,
      (
        λ e.
            let (over, who) = shows.0 e in
            (
              over,
              elim who [
                | inl off ↦ inl (AuthOff-of_disabled a h off)
                | inr known ↦ inr ((is_authenticated-IsSignedIn a).0 known)
              ],
            ),
        λ (over, who). shows.1 (
          over,
          elim who [
            | inl off ↦ inl (disabled_of_AuthOff a h off)
            | inr known ↦ inr ((is_authenticated-IsSignedIn a).1 known)
          ],
        ),
      ),
      leaves,
    )
