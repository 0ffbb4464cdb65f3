-- ===== src/Csv/Reader.antt =====
-- A reader of comma-separated values with quoted fields, against which the export of
-- frontend/lib/csv.ts is judged. It is a specification: the dashboard has no reader. Readers differ in
-- what ends a row outside quotes: a line feed alone, or a carriage return as well, which is an argument.
use prefixd.Base.{ℕ, Bool, ◌&&◌, ◌||◌, List, [], ◌∷◌, ◌++◌, if◌then◌else◌, ◌==◌}
use prefixd.Base.Text.{Text}

-- Where in a field the reader stands.
pub data Mode : Type 0 where
  begin plain quoted after_quote : Mode

-- What one unit does: it goes on in the field, adding a text, or ends the field, or the row.
pub data Move : Type 0 where
  push : Mode → Text → Move
  end_field end_row : Move

module _ (return_ends : Bool) where
  unquoted : ℕ → Move
  unquoted c =
      if c == b','
      then end_field
      else if c == 10 || (return_ends && c == 13)
      then end_row
      else push plain (c ∷ [])

  unfoldable pub move : Mode → ℕ → Move
  unfolding unquoted
  move begin c = if c == b'"' then push quoted [] else unquoted c
  move plain c = unquoted c
  move quoted c = if c == b'"' then push after_quote [] else push quoted (c ∷ [])
  move after_quote c = if c == b'"' then push quoted (c ∷ []) else unquoted c

  -- The rows, from a field read so far and the fields of the row before it.
  unfoldable pub read_from : Mode → Text → List Text → Text → List (List Text)
  unfolding move
  read_from m cur row [] = (row ++ cur ∷ []) ∷ []
  read_from m cur row (c ∷ s) = elim (move m c) [
    | push m' d ↦ read_from m' (cur ++ d) row s
    | end_field ↦ read_from begin [] (row ++ cur ∷ []) s
    | end_row ↦ (row ++ cur ∷ []) ∷ read_from begin [] [] s
  ]

  unfoldable pub read : Text → List (List Text)
  unfolding read_from
  read s = read_from begin [] [] s
