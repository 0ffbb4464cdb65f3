-- ===== src/Table/Settling.antt =====
-- The page on which a table with the two effects settles.
use prefixd.Base.{ℕ, ◌≤◌, ◌<◌, Bool, true, false, List, [], ◌∷◌, length, arith, ◌≡◌, ◌≢◌, refl}
use prefixd.Table.{total_pages, page_of, after_render}
use prefixd.Table.Pages.{page_of_nonempty}

settled_page :
    (changed : Bool) (total page : ℕ)
    → 1 ≤ page
    → 1 ≤ total
    → let settled = after_render false total (after_render changed total page) in
      (after_render false total settled ≡ settled)
      × (1 ≤ settled)
      × (settled ≤ total)
      × (total < page → settled ≡ total)
unfolding after_render
settled_page true total page positive some_pages = ground arith
settled_page false total page positive some_pages = ground arith

has_pages : {A : Type 0} (rows : List A) → rows ≢ [] → 1 ≤ total_pages (length rows)
unfolding total_pages
has_pages [] some_rows = absurd (some_rows refl)
has_pages (x ∷ l) some_rows = omega arith

-- After the effects of two renderings the page stays as it is, and where there are rows it shows some;
-- a changed search whose rows do not reach the old page ends on the last page and not on the first.
pub after_render_lem :
    {A : Type 0} (rows : List A) (changed : Bool) (page : ℕ)
    → 1 ≤ page
    → rows ≢ []
    → let total = total_pages (length rows) in
      let settled = after_render false total (after_render changed total page) in
      (after_render false total settled ≡ settled)
      × (page_of settled rows ≢ [])
      × (total < page → settled ≡ total)
after_render_lem rows changed page positive some_rows =
    let (stays, first, last, beyond) =
      settled_page changed (total_pages (length rows)) page positive (has_pages rows some_rows) in
    (stays, (page_of_nonempty _ rows first).1 last, beyond)
