-- ===== src/Table.antt =====
-- What the three tables of the dashboard share (frontend/components/dashboard/events-content-live.tsx,
-- mitigations-content-live.tsx and audit-log-content-live.tsx): filtering, sorting with a comparison,
-- and pages of twenty rows. A comparison is given by its sign; `Array.prototype.sort` is a stable sort.
pub mod Pages
pub mod Sorting
pub mod Newest
pub mod Rows
pub mod Settling
pub mod Events
pub mod Mitigations
pub mod Audit
pub mod Withdrawal
pub mod Export
pub mod Choices
mod Tests
use prefixd.Base.{
  ℕ, suc, ◌+◌, ◌-◌, ◌*◌, ◌/◌, ◌&&◌, Bool, true, false, List, [], ◌∷◌, if◌then◌else◌, ltb, leb, take,
  drop, length,
}
use prefixd.Base.Text.{Text, has_prefix}

-- The sign of a comparison.
pub data Sign : Type 0 where
  negative : Sign
  level : Sign
  positive : Sign

abbrev pub opposite : Sign → Sign
opposite negative = positive
opposite level = level
opposite positive = negative

abbrev pub is_negative : Sign → Bool
is_negative negative = true
is_negative _ = false

-- The sign of `a - b`.
abbrev pub sign_of : ℕ → ℕ → Sign
sign_of a b = if ltb a b then negative else if ltb b a then positive else level

pub data SortDirection : Type 0 where
  asc : SortDirection
  desc : SortDirection

-- `sortDirection === "asc" ? comparison : -comparison`.
abbrev pub directed : SortDirection → Sign → Sign
directed asc s = s
directed desc s = opposite s

abbrev pub toggled : SortDirection → SortDirection
toggled asc = desc
toggled desc = asc

-- `text.includes(part)`.
unfoldable pub text_includes : Text → Text → Bool
text_includes [] part = has_prefix part []
text_includes (c ∷ s) part =
    let rest = text_includes s part in if has_prefix part (c ∷ s) then true else rest

abbrev pub items_per_page : ℕ
items_per_page = 20

-- `Math.ceil(length / itemsPerPage)`.
unfoldable pub total_pages : ℕ → ℕ
total_pages n = (n + 19) / items_per_page

-- The two effects of a table after a rendering: the first one runs where a filter or the search has changed, and
-- both read the page of that rendering; of the pages that they set, the last one stays.
unfoldable pub after_render : Bool → ℕ → ℕ → ℕ
after_render changed total current_page =
    let reset = if changed then 1 else current_page in
    if ltb 0 total && ltb total current_page then total else reset

module _ {A : Type 0} where
  unfoldable pub insert : (A → A → Sign) → A → List A → List A
  insert compare x [] = x ∷ []
  insert compare x (y ∷ l) =
      let rest = insert compare x l in if is_negative (compare y x) then y ∷ rest else x ∷ y ∷ l

  -- `list.sort(compare)`.
  unfoldable pub sort : (A → A → Sign) → List A → List A
  unfolding insert
  sort compare [] = []
  sort compare (x ∷ l) = insert compare x (sort compare l)

  -- `list.slice((currentPage - 1) * itemsPerPage, currentPage * itemsPerPage)`.
  unfoldable pub page_of : ℕ → List A → List A
  page_of current_page l = take items_per_page (drop ((current_page - 1) * items_per_page) l)
