-- ===== src/Permissions/Laws.antt =====
-- Which permissions are granted to whom (frontend/hooks/use-permissions.ts).
use prefixd.Base.{
  Bool, true, false, ◌||◌, some, [], ◌∷◌, ◌≡◌, ◌⊎◌, ◌↔◌, arith, refl, inl, inr, Option-cases,
}
use prefixd.Base.Text.{codes, same_iff}
use prefixd.Base.Http.{Fetched, rejected, responded}
use prefixd.Session.{
  OperatorRole, admin, operator, viewer, Operator, Auth, mounted, initial, run, step,
  get_current_user,
}
use prefixd.Session.Laws.{Grants}
use prefixd.Permissions.{PublicHealthResponse, Health, use_permissions, role_of, is_role}

-- The backend was heard to run without authentication, and both requests have resolved.
abbrev pub AuthOff : Auth → Health → Type 0
AuthOff a h =
    (a.is_loading ≡ false)
    × (h.is_loading ≡ false)
    × (r : PublicHealthResponse) × (h.data_received ≡ some r)
    × (r.auth_mode ≡ codes "none")

-- Some operator of this role is signed in.
abbrev pub SignedInAs : OperatorRole → Auth → Type 0
SignedInAs r a = (o : Operator) × (a.operator ≡ some o) × (o.role ≡ r)

pub AuthOff-of_disabled :
    (a : Auth) (h : Health) → (use_permissions a h).auth_disabled ≡ true → AuthOff a h
unfolding use_permissions
AuthOff-of_disabled a h e = elim (Option-cases h.data_received) [
  | inl missing ↦ absurd (ground arith)
  | inr (r, got) ↦
      (ground arith, ground arith, r, got, ground (arith, same_iff r.auth_mode (codes "none")))
]

pub disabled_of_AuthOff :
    (a : Auth) (h : Health) → AuthOff a h → (use_permissions a h).auth_disabled ≡ true
unfolding use_permissions
disabled_of_AuthOff a h (la, lh, r, got, mode) = ground (arith, same_iff r.auth_mode (codes "none"))

is_role-SignedInAs :
    (r : OperatorRole) (a : Auth) → is_role r (role_of a.operator) ≡ true → SignedInAs r a
is_role-SignedInAs r a e = elim (Option-cases a.operator) [
  | inl missing ↦ absurd (ground arith)
  | inr (o, got) ↦ (o, got, same_role r o.role (rw got at e))
]
  where
    same_role : (r s : OperatorRole) → is_role r (some s) ≡ true → s ≡ r
    same_role admin admin e = refl
    same_role admin operator e = cc
    same_role admin viewer e = cc
    same_role operator admin e = cc
    same_role operator operator e = refl
    same_role operator viewer e = cc
    same_role viewer admin e = cc
    same_role viewer operator e = cc
    same_role viewer viewer e = refl

SignedInAs-is_role :
    (r : OperatorRole) (a : Auth) → SignedInAs r a → is_role r (role_of a.operator) ≡ true
SignedInAs-is_role r a (o, got, role) = rw (got, role) (is_role_self r)
  where
    is_role_self : (r : OperatorRole) → is_role r (some r) ≡ true
    is_role_self admin = refl
    is_role_self operator = refl
    is_role_self viewer = refl

or_cases : (b c : Bool) → (b || c) ≡ true → (b ≡ true) ⊎ (c ≡ true)
or_cases b c e = ground arith

is_admin_iff :
    (a : Auth) (h : Health)
    → ((use_permissions a h).is_admin ≡ true) ↔ (AuthOff a h ⊎ SignedInAs admin a)
unfolding use_permissions
is_admin_iff a h = (to, from)
  where
    to : (use_permissions a h).is_admin ≡ true → AuthOff a h ⊎ SignedInAs admin a
    to e = elim (or_cases (use_permissions a h).auth_disabled _ e) [
      | inl off ↦ inl (AuthOff-of_disabled a h off)
      | inr role ↦ inr (is_role-SignedInAs admin a role)
    ]

    from : AuthOff a h ⊎ SignedInAs admin a → (use_permissions a h).is_admin ≡ true
    from (inl off) = ground (arith, disabled_of_AuthOff a h off)
    from (inr s) = ground (arith, SignedInAs-is_role admin a s)

unsettled_iff :
    (a : Auth) (h : Health)
    → let p = use_permissions a h in
      ((p.settled ≡ false) × (p.is_admin ≡ true))
      ↔ (((a.is_loading ≡ true) ⊎ (h.is_loading ≡ true)) × SignedInAs admin a)
unfolding use_permissions
unsettled_iff a h = (
  λ (waiting, granted). (
    ground arith,
    elim ((is_admin_iff a h).0 granted) [
      | inl off ↦ absurd (ground (arith, off.0, off.1))
      | inr s ↦ s
    ],
  ),
  λ (waiting, s). (ground arith, (is_admin_iff a h).1 (inr s)),
)

-- Every administrative permission is `isAdmin`, and it is granted exactly where the backend was
-- heard to run without authentication, or an administrator is signed in. That does not wait until
-- the permissions are settled: while the session or the health request is still loading, it is
-- granted exactly where an administrator is signed in.
pub admin_permissions_iff :
    (a : Auth) (h : Health)
    → let p = use_permissions a h in
      ((p.is_admin ≡ true) ↔ (AuthOff a h ⊎ SignedInAs admin a))
      × (p.can_manage_safelist ≡ p.is_admin)
      × (p.can_manage_users ≡ p.is_admin)
      × (p.can_reload_config ≡ p.is_admin)
      × (p.can_edit_playbooks ≡ p.is_admin)
      × (p.can_edit_alerting ≡ p.is_admin)
      × (((p.settled ≡ false) × (p.is_admin ≡ true))
          ↔ (((a.is_loading ≡ true) ⊎ (h.is_loading ≡ true)) × SignedInAs admin a))
unfolding use_permissions
admin_permissions_iff a h = (is_admin_iff a h, refl, refl, refl, refl, refl, unsettled_iff a h)

-- `canWithdraw` is granted exactly where the backend was heard to run without authentication, or
-- an administrator or an operator is signed in; a viewer alone is never granted it.
pub can_withdraw_iff :
    (a : Auth) (h : Health)
    → ((use_permissions a h).can_withdraw ≡ true)
      ↔ (AuthOff a h ⊎ (SignedInAs admin a ⊎ SignedInAs operator a))
unfolding use_permissions
can_withdraw_iff a h = (to, from)
  where
    to :
        (use_permissions a h).can_withdraw ≡ true
        → AuthOff a h ⊎ (SignedInAs admin a ⊎ SignedInAs operator a)
    to e = elim (or_cases (use_permissions a h).is_admin _ e) [
      | inl adm ↦ elim ((is_admin_iff a h).0 adm) [ inl off ↦ inl off | inr s ↦ inr (inl s) ]
      | inr ope ↦ inr (inr (is_role-SignedInAs operator a ope))
    ]

    from :
        AuthOff a h ⊎ (SignedInAs admin a ⊎ SignedInAs operator a)
        → (use_permissions a h).can_withdraw ≡ true
    from (inl off) = ground (arith, disabled_of_AuthOff a h off)
    from (inr (inl s)) = ground (arith, SignedInAs-is_role admin a s)
    from (inr (inr s)) = ground (arith, SignedInAs-is_role operator a s)

-- The permissions are not denied until they are settled: while the health request is still loading,
-- an administrator whom the first refresh of the provider names is granted every administrative
-- permission, although `settled` is false.
pub unsettled_admin :
    (u : Operator) (r : Fetched Operator) (h : Health)
    → Grants u r
    → u.role ≡ admin
    → h.is_loading ≡ true
    → let p = use_permissions (run initial (mounted r ∷ [])) h in
      (p.settled ≡ false)
      × (p.is_admin ≡ true)
      × (p.can_manage_users ≡ true)
      × (p.can_withdraw ≡ true)
      × (p.can_edit_playbooks ≡ true)
unfolding use_permissions run step get_current_user
unsettled_admin u (rejected e) h g role loading = absurd g
unsettled_admin u (responded res) h g role loading =
    rw (g.0, g.1, role, loading) (refl, refl, refl, refl, refl)
