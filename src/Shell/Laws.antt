-- ===== src/Shell/Laws.antt =====
-- What the sidebar leads to, what signing out does, and what the connection's label promises.
use prefixd.Base.{
  ◌⊎◌, Bool, true, false, not, none, some, List, [], ◌∷◌, all, ◌&&◌, ◌++◌, map, if◌then◌else◌, keep,
  length, ◌≤◌, Bool-cases, inl, inr, arith, ◌≡◌, refl, ap, ◌∙◌,
}
use prefixd.Base.Text.{Text, codes, same, same_iff}
use prefixd.Base.Http.{Fetched, rejected, responded}
use prefixd.Session.{Auth, step}
use prefixd.Permissions.{Health, use_permissions}
use prefixd.Login.{leaves}
use prefixd.Palette.{pages}
use prefixd.Shell.{NavItem, items_for, visible_nav_items, is_active, handle_logout, menu_is_shown}

-- No two items have the same address.
abbrev are_apart : List NavItem → Bool
are_apart [] = true
are_apart (i ∷ l) = all (λ j. not (same i.href j.href)) l && are_apart l

none_active :
    (href : Text) (l : List NavItem)
    → all (λ j. not (same href j.href)) l ≡ true
    → keep (is_active href) l ≡ []
none_active href [] h = refl
none_active href (j ∷ l) h = ground (arith, none_active href l)

one_active :
    (pathname : Text) (l : List NavItem)
    → are_apart l ≡ true
    → length (keep (is_active pathname) l) ≤ 1
one_active pathname [] h = ground arith
one_active pathname (i ∷ l) h = elim (Bool-cases (same pathname i.href)) [
  | inl e ↦
      let is_href : pathname ≡ i.href = (same_iff pathname i.href).0 e in
      let alone : keep (is_active pathname) l ≡ [] =
        ap (λ t. keep (is_active t) l) is_href ∙ none_active i.href l (ground arith) in
      rw (e, alone) (ground arith)
  | inr e ↦ rw e (one_active pathname l (ground arith))
]

abbrev pub named_items : List NavItem → List (Text × Text)
named_items l = map (λ i. (i.label, i.href)) l

abbrev pub named_pages : List (Text × Text)
named_pages = map (λ p. (p.label, p.href)) pages

abbrev pub admin_page : (is_admin : Bool) → List (Text × Text)
admin_page is_admin = if is_admin then (codes "Admin", codes "/admin") ∷ [] else []

by_role :
    (is_admin : Bool) (pathname : Text)
    → (named_items (items_for is_admin) ≡ named_pages ++ admin_page is_admin)
      × (length (keep (is_active pathname) (items_for is_admin)) ≤ 1)
by_role true pathname = (refl, one_active pathname (items_for true) refl)
by_role false pathname = (refl, one_active pathname (items_for false) refl)

-- The sidebar leads, in their order, to the pages of the command palette under the same labels, and to
-- the administration after them exactly for those who may administer; and whatever the address is, at
-- most one item is marked as the current one.
pub visible_nav_items_lem :
    (a : Auth) (h : Health) (pathname : Text)
    → (named_items (visible_nav_items a h)
        ≡ named_pages ++ admin_page (use_permissions a h).is_admin)
      × (length (keep (is_active pathname) (visible_nav_items a h)) ≤ 1)
unfolding visible_nav_items
visible_nav_items_lem a h pathname = by_role (use_permissions a h).is_admin pathname

-- Signing out, whatever the daemon answers: the operator is gone, the menu as well, and "/login" is
-- pushed, which stays exactly where the backend is not heard to run without authentication, once the
-- requests have resolved. Where no answer comes, nothing changes, nothing is pushed, and the error is
-- thrown.
pub handle_logout_lem :
    (r : Fetched (Unit {0})) (a : Auth) (h : Health)
    → let (after, pushed, thrown) = handle_logout r a in
      ((message : Text) × (r ≡ rejected message)
        × (after ≡ a)
        × (pushed ≡ [])
        × (thrown ≡ some message))
      ⊎ ((after.operator ≡ none)
          × (menu_is_shown after ≡ false)
          × (pushed ≡ codes "/login" ∷ [])
          × (thrown ≡ none)
          × (leaves after h ≡ (use_permissions after h).auth_disabled))
unfolding handle_logout step leaves use_permissions
handle_logout_lem (rejected message) a h = inl (message, refl, refl, refl, refl)
handle_logout_lem (responded res) a h = inr (refl, refl, refl, refl, ground arith)
