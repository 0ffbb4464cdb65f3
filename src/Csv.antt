-- ===== src/Csv.antt =====
-- The CSV export of frontend/lib/csv.ts. The text that `downloadCsv` hands to `Blob` is `to_csv`; the
-- download itself is left to the browser.
pub mod Reader
pub mod Fields
pub mod RoundTrip
mod Tests
use prefixd.Base.{ℕ, Bool, true, false, ◌||◌, List, [], ◌∷◌, ◌++◌, map, if◌then◌else◌, ◌==◌, any}
use prefixd.Base.Split.{join}
use prefixd.Base.Text.{Text}

abbrev is_blank : ℕ → Bool
is_blank c = c == 9 || c == 13 || c == 10 || c == b' '

abbrev is_trigger : ℕ → Bool
is_trigger c = c == b'=' || c == b'+' || c == b'-' || c == b'@'

-- `CSV_FORMULA_RE.test(s)`.
unfoldable pub is_formula : Text → Bool
is_formula [] = false
is_formula (c ∷ s) = if is_blank c then is_formula s else is_trigger c

-- `s.replace(/"/g, '""')`.
unfoldable pub double_quotes : Text → Text
double_quotes [] = []
double_quotes (c ∷ s) =
    let rest = double_quotes s in if c == b'"' then b'"' ∷ b'"' ∷ rest else c ∷ rest

-- The field with the apostrophe in front, where it needs one.
unfoldable pub make_safe : Text → Text
make_safe field = if is_formula field then 39 ∷ field else field

abbrev pub is_special : ℕ → Bool
is_special c = c == b',' || c == b'"' || c == 10

unfoldable pub quote : Text → Text
unfolding double_quotes
quote safe = if any is_special safe then b'"' ∷ (double_quotes safe ++ b'"' ∷ []) else safe

unfoldable pub escape_csv_field : Text → Text
unfolding quote make_safe
escape_csv_field [] = []
escape_csv_field (c ∷ s) = quote (make_safe (c ∷ s))

unfoldable pub line : List Text → Text
unfolding escape_csv_field join
line row = join b',' (map escape_csv_field row)

unfoldable pub to_csv : List Text → List (List Text) → Text
unfolding line join
to_csv headers rows = join 10 (line headers ∷ map line rows)
