-- ===== src/Csv/Tests.antt =====
-- The export on the cases of frontend/__tests__/csv.test.ts.
use prefixd.Base.{true, false, inl, inr, List, [], ◌∷◌, map, All, ◌≡◌, refl}
use prefixd.Base.Text.{Text, codes}
use prefixd.Csv.{is_formula, make_safe, escape_csv_field, to_csv}
use prefixd.Csv.Reader.{read}
use prefixd.Csv.RoundTrip.{read-to_csv, read-to_csv_inert}

three_lines :
    to_csv
      (codes "id" ∷ codes "name" ∷ [])
      ((codes "1" ∷ codes "hello, world" ∷ []) ∷ ([] ∷ codes "ok" ∷ []) ∷ [])
    ≡ codes "id,name\n1,\"hello, world\"\n,ok"
unfolding to_csv is_formula
three_lines = refl

formula_cell : escape_csv_field (codes "=CMD(\"calc\")") ≡ codes "\"'=CMD(\"\"calc\"\")\""
unfolding escape_csv_field is_formula
formula_cell = refl

abbrev header_row : List Text
header_row = codes "ip" ∷ []

abbrev one_row : List (List Text)
one_row = (codes "+1,2\r=3" ∷ []) ∷ []

-- A cell with a return, which is quoted for its comma, and a reader that ends rows at returns.
read-to_csv_example :
    read true (to_csv header_row one_row) ≡ map (map make_safe) (header_row ∷ one_row)
read-to_csv_example =
    read-to_csv true header_row one_row ((λ e. cc), ((λ e. cc), tt))
      ((inl refl, tt), ((inr refl, tt), tt))

read-to_csv_inert_example :
    All (All (λ cell. is_formula cell ≡ false)) (read true (to_csv header_row one_row))
read-to_csv_inert_example =
    read-to_csv_inert true header_row one_row ((λ e. cc), ((λ e. cc), tt))
      ((inl refl, tt), ((inr refl, tt), tt))
