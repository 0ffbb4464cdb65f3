-- ===== src/Csv/RoundTrip.antt =====
-- What a reader gets from the export of frontend/lib/csv.ts.
use prefixd.Base.{
  Bool, true, false, List, [], ◌∷◌, ◌++◌, map, if◌then◌else◌, All, ◌≡◌, ◌≢◌, inl, inr, refl, sym,
  ap, ◌∙◌, Bool-cases,
}
use mathlib.Core.List.{append_assoc, append-nil}
use prefixd.Base.Text.{Text}
use prefixd.Base.Split.{join}
use prefixd.Csv.{is_formula, make_safe, escape_csv_field, line, to_csv}
use prefixd.Csv.Fields.{
  Ends, Fits, Fits-all, read-end_field, read-end_row, move_comma, move_feed, plain-ne-quoted,
  read-field,
}
use prefixd.Csv.Reader.{begin, plain, read_from, read}

-- What follows a row: nothing, or a line feed.
abbrev EndsRow : Text → Type 0
EndsRow [] = Unit
EndsRow (c ∷ s) = c ≡ 10

EndsRow-Ends : (rest : Text) → EndsRow rest → Ends rest
EndsRow-Ends [] e = tt
EndsRow-Ends (c ∷ s) e = inr e

module _ (return_ends : Bool) where
  abbrev row_done : List Text → Text → List (List Text)
  row_done r [] = r ∷ []
  row_done r (c ∷ s) = r ∷ read_from return_ends begin [] [] s

  last_field :
      (cur : Text) (row : List Text) (rest : Text)
      → EndsRow rest
      → read_from return_ends plain cur row rest ≡ row_done (row ++ cur ∷ []) rest
  last_field cur row [] e = unfold read_from in refl
  last_field cur row (c ∷ s) e =
      read-end_row return_ends plain c cur row s (move_feed return_ends plain c plain-ne-quoted e)

  read-line :
      (f : Text) (fs row : List Text) (rest : Text)
      → All (Fits return_ends) (f ∷ fs)
      → EndsRow rest
      → read_from return_ends begin [] row (line (f ∷ fs) ++ rest)
        ≡ row_done (row ++ map make_safe (f ∷ fs)) rest
  unfolding line
  read-line f [] row rest fit e =
      read-field return_ends f row rest fit.0 (EndsRow-Ends rest e)
      ∙ last_field (make_safe f) row rest e
  read-line f (g ∷ fs) row rest fit e =
      ap (read_from return_ends begin [] row)
        (append_assoc (escape_csv_field f) (b',' ∷ line (g ∷ fs)) rest)
      ∙ read-field return_ends f row (b',' ∷ (line (g ∷ fs) ++ rest)) fit.0 (inl refl)
      ∙ read-end_field return_ends plain b',' (make_safe f) row _
          (move_comma return_ends plain b',' plain-ne-quoted refl)
      ∙ read-line g fs (row ++ make_safe f ∷ []) rest fit.1 e
      ∙ ap (λ r. row_done r rest) (append_assoc row (make_safe f ∷ []) (map make_safe (g ∷ fs)))

  read-lines :
      (l : List Text) (ls : List (List Text))
      → All (λ r. r ≢ []) (l ∷ ls)
      → All (All (Fits return_ends)) (l ∷ ls)
      → read_from return_ends begin [] [] (join 10 (map line (l ∷ ls)))
        ≡ map (map make_safe) (l ∷ ls)
  unfolding join
  read-lines [] ls h fit = absurd (h.0 refl)
  read-lines (f ∷ fs) [] h fit =
      ap (read_from return_ends begin [] []) (sym (append-nil (line (f ∷ fs))))
      ∙ read-line f fs [] [] fit.0 tt
  read-lines (f ∷ fs) (l ∷ ls) h fit =
      read-line f fs [] (10 ∷ join 10 (map line (l ∷ ls))) fit.0 refl
      ∙ ap (◌∷◌ (map make_safe (f ∷ fs))) (read-lines l ls h.1 fit.1)

  -- Round trip: a reader gets back every cell of the headers and of the rows in its place, with the
  -- apostrophe where one was put in front, whatever commas, quotes and line feeds the cells hold, if no
  -- row is without cells; a reader that ends rows at returns as well, if a cell with a return in it also
  -- holds a comma, a quote or a line feed.
  pub read-to_csv :
      (headers : List Text) (rows : List (List Text))
      → All (λ r. r ≢ []) (headers ∷ rows)
      → All (All (Fits return_ends)) (headers ∷ rows)
      → read return_ends (to_csv headers rows) ≡ map (map make_safe) (headers ∷ rows)
  unfolding read to_csv
  read-to_csv headers rows h fit = read-lines headers rows h fit

make_safe-formula : (f : Text) → is_formula (make_safe f) ≡ false
unfolding make_safe is_formula
make_safe-formula f = elim (Bool-cases (is_formula f)) [
  | inl e ↦ ap (λ b. is_formula (if b then 39 ∷ f else f)) e
  | inr e ↦ ap (λ b. is_formula (if b then 39 ∷ f else f)) e ∙ e
]

-- No cell that a reader gets from an export is a formula: none begins, after blanks, with an equals
-- sign, a plus, a minus or an at sign, if no row is without cells; for a reader that ends rows at returns
-- as well, if a cell with a return in it also holds a comma, a quote or a line feed.
pub read-to_csv_inert :
    (return_ends : Bool) (headers : List Text) (rows : List (List Text))
    → All (λ r. r ≢ []) (headers ∷ rows)
    → All (All (Fits return_ends)) (headers ∷ rows)
    → All (All (λ cell. is_formula cell ≡ false)) (read return_ends (to_csv headers rows))
read-to_csv_inert return_ends headers rows h fit =
    rw (read-to_csv return_ends headers rows h fit) (rows_inert (headers ∷ rows))
  where
    cells_inert : (row : List Text) → All (λ cell. is_formula cell ≡ false) (map make_safe row)
    cells_inert [] = tt
    cells_inert (f ∷ fs) = (make_safe-formula f, cells_inert fs)

    rows_inert :
        (l : List (List Text)) → All (All (λ cell. is_formula cell ≡ false)) (map (map make_safe) l)
    rows_inert [] = tt
    rows_inert (r ∷ l) = (cells_inert r, rows_inert l)

-- A cell with a return alone is not quoted: a reader that ends rows at returns splits it, and what
-- follows the return may be a formula.
pub read-to_csv_return :
    read true (to_csv ((b'a' ∷ []) ∷ []) (((b'x' ∷ 13 ∷ b'=' ∷ b'1' ∷ []) ∷ []) ∷ []))
    ≡ ((b'a' ∷ []) ∷ []) ∷ ((b'x' ∷ []) ∷ []) ∷ ((b'=' ∷ b'1' ∷ []) ∷ []) ∷ []
unfolding read to_csv line escape_csv_field is_formula
read-to_csv_return = refl

rows_fit : (rows : List (List Text)) → All (All (Fits false)) rows
rows_fit [] = tt
rows_fit (r ∷ rows) = (cells_fit r, rows_fit rows)
  where
    cells_fit : (l : List Text) → All (Fits false) l
    cells_fit [] = tt
    cells_fit (f ∷ l) = (Fits-all f, cells_fit l)

-- A reader that ends rows at line feeds alone needs nothing of the cells.
pub read-to_csv_feeds :
    (headers : List Text) (rows : List (List Text))
    → All (λ r. r ≢ []) (headers ∷ rows)
    → read false (to_csv headers rows) ≡ map (map make_safe) (headers ∷ rows)
read-to_csv_feeds headers rows h = read-to_csv false headers rows h (rows_fit (headers ∷ rows))
