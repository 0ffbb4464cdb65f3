-- ===== src/Shell/Tests.antt =====
-- The sidebar of an administrator, and signing out.
use prefixd.Base.{
  arith, ℕ, List, suc, All, false, none, some, [], ◌∷◌, ◌++◌, map, keep, length, ◌≤◌, ◌≡◌, ◌⊎◌,
  refl,
}
use prefixd.Base.Text.{Text, codes}
use prefixd.Base.Http.{rejected, responded, ok}
use prefixd.Session.{Auth, admin}
use prefixd.Permissions.{Health, use_permissions}
use prefixd.Login.{leaves}
use prefixd.Shell.{
  visible_nav_items, nav_items, is_active, handle_logout, menu_is_shown, badge, boundary_shows,
  children, try_again, caught, pops_shown,
}
use prefixd.Table.{text_includes}
use prefixd.Shell.Retry.{delays, on_error_retry, IsDelay, delays_lem}
use prefixd.Shell.Laws.{
  visible_nav_items_lem, handle_logout_lem, named_items, named_pages, admin_page,
}

abbrev signed_in : Auth
signed_in = record {
  operator = some (record { id = codes "1"; username = codes "ada"; role = admin });
  is_loading = false;
}

abbrev healthy : Health
healthy = record {
  data_received =
      some (record { status = codes "ok"; version = codes "1"; auth_mode = codes "credentials" });
  is_loading = false;
}

visible_nav_items_lem_example :
    (named_items (visible_nav_items signed_in healthy)
      ≡ named_pages ++ admin_page (use_permissions signed_in healthy).is_admin)
    × (length (keep (is_active (codes "/admin")) (visible_nav_items signed_in healthy)) ≤ 1)
visible_nav_items_lem_example = visible_nav_items_lem signed_in healthy (codes "/admin")

handle_logout_lem_test :
    let r = responded (record { status = 500; json = ok tt; text = [] }) in
    let (after, pushed, thrown) = handle_logout r signed_in in
    ((message : Text) × (r ≡ rejected message)
      × (after ≡ signed_in)
      × (pushed ≡ [])
      × (thrown ≡ some message))
    ⊎ ((after.operator ≡ none)
        × (menu_is_shown after ≡ false)
        × (pushed ≡ codes "/login" ∷ [])
        × (thrown ≡ none)
        × (leaves after healthy ≡ (use_permissions after healthy).auth_disabled))
handle_logout_lem_test =
    handle_logout_lem (responded (record { status = 500; json = ok tt; text = [] })) signed_in
      healthy

many :
    map (badge (some 120)) nav_items
    ≡ none ∷ some (codes "99+") ∷ none ∷ none ∷ none ∷ none ∷ none ∷ none ∷ []
unfolding badge
many = refl

again : boundary_shows false (try_again (caught (codes "x") none)) ≡ children
unfolding boundary_shows
again = refl

one_pop : pops_shown (λ t. t) none (some (codes "FRA")) ≡ codes "FRA" ∷ []
unfolding pops_shown
one_pop = refl

abbrev timed_out : Text
timed_out = codes "API error 504: timeout"

abbrev four_errors : List Text
four_errors = timed_out ∷ timed_out ∷ timed_out ∷ timed_out ∷ []

abbrev retries : List ℕ
retries = delays (λ n. suc n) 0 four_errors

delays_lem_example :
    (length retries ≤ 2)
    × All (IsDelay (λ n. suc n)) retries
    × ((n : ℕ)
        → delays (λ m. suc m) n ((codes "API error 401: " ++ codes "expired") ∷ four_errors) ≡ [])
delays_lem_example = delays_lem (λ n. suc n) four_errors (codes "expired") (λ m. omega arith)

two_retries : retries ≡ 10000 ∷ 20000 ∷ []
unfolding delays on_error_retry text_includes
two_retries = refl

-- The number 401 in another answer counts as well.
no_retry : delays (λ n. suc n) 0 (codes "API error 500: request 84017" ∷ timed_out ∷ []) ≡ []
unfolding delays on_error_retry text_includes
no_retry = refl
