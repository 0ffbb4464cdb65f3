-- ===== src/Csv/Fields.antt =====
-- What a reader gets from one escaped field of frontend/lib/csv.ts.
use prefixd.Base.{
  ℕ, Bool, ◌&&◌, ◌||◌, false, true, List, [], ◌∷◌, ◌++◌, if◌then◌else◌, ◌==◌, any, arith, ◌≡◌, ◌≢◌,
  ◌⊎◌, inl, inr, refl, sym, ap, ◌∙◌, Bool-cases, ==_iff,
}
use mathlib.Core.List.{append_assoc, append-nil}
use prefixd.Base.Text.{Text}
use prefixd.Csv.{is_formula, double_quotes, make_safe, is_special, quote, escape_csv_field}
use prefixd.Csv.Reader.{
  Mode, begin, plain, quoted, after_quote, push, end_field, end_row, move, read_from,
}

-- A return that ends rows.
abbrev pub ends : Bool → ℕ → Bool
ends return_ends c = return_ends && c == 13

-- A comma, a quote or a line feed.
abbrev pub separates : ℕ → Bool
separates c = c == b',' || c == b'"' || c == 10

-- What a reader needs of a cell: it holds no return that ends rows, or it holds a comma, a quote or a
-- line feed as well, for which it is quoted.
abbrev pub Fits : Bool → Text → Type 0
Fits return_ends cell = (any (ends return_ends) cell ≡ false) ⊎ (any separates cell ≡ true)

-- For a reader that ends rows at line feeds alone every cell is fit.
pub Fits-all : (cell : Text) → Fits false cell
Fits-all cell = inl (none_of cell)
  where
    none_of : (t : Text) → any (ends false) t ≡ false
    none_of [] = refl
    none_of (c ∷ t) = none_of t

-- What may follow a field: nothing, a comma or a line feed.
abbrev pub Ends : Text → Type 0
Ends [] = Unit
Ends (c ∷ s) = (c ≡ b',') ⊎ (c ≡ 10)

pub plain-ne-quoted : plain ≢ quoted
plain-ne-quoted = λ e. cc

module _ (return_ends : Bool) where
  read-push :
      (m m' : Mode) (c : ℕ) (d cur : Text) (row : List Text) (s : Text)
      → move return_ends m c ≡ push m' d
      → read_from return_ends m cur row (c ∷ s) ≡ read_from return_ends m' (cur ++ d) row s
  unfolding read_from
  read-push m m' c d cur row s h = rw (h, read_from)

  pub read-end_field :
      (m : Mode) (c : ℕ) (cur : Text) (row : List Text) (s : Text)
      → move return_ends m c ≡ end_field
      → read_from return_ends m cur row (c ∷ s) ≡ read_from return_ends begin [] (row ++ cur ∷ []) s
  unfolding read_from
  read-end_field m c cur row s h = rw (h, read_from)

  pub read-end_row :
      (m : Mode) (c : ℕ) (cur : Text) (row : List Text) (s : Text)
      → move return_ends m c ≡ end_row
      → read_from return_ends m cur row (c ∷ s)
        ≡ (row ++ cur ∷ []) ∷ read_from return_ends begin [] [] s
  unfolding read_from
  read-end_row m c cur row s h = rw (h, read_from)

  -- A doubled text is read back up to the closing quote.
  read_quoted :
      (s cur : Text) (row : List Text) (rest : Text)
      → read_from return_ends quoted cur row (double_quotes s ++ b'"' ∷ rest)
        ≡ read_from return_ends after_quote (cur ++ s) row rest
  unfolding double_quotes
  read_quoted [] cur row rest =
      read-push quoted after_quote b'"' [] cur row rest (unfold move in refl)
  read_quoted (c ∷ s) cur row rest = elim (Bool-cases (c == b'"')) [
    | inl e ↦
        ap (λ t. read_from return_ends quoted cur row (t ++ b'"' ∷ rest))
          (ap (λ b. if b then b'"' ∷ b'"' ∷ double_quotes s else c ∷ double_quotes s) e)
        ∙ read-push quoted after_quote b'"' [] cur row _ (unfold move in refl)
        ∙ read-push after_quote quoted b'"' (b'"' ∷ []) (cur ++ []) row _ (unfold move in refl)
        ∙ read_quoted s ((cur ++ []) ++ b'"' ∷ []) row rest
        ∙ ap (λ t. read_from return_ends after_quote t row rest)
            (simp (append-nil, append_assoc)
              (ap (λ (k : ℕ). cur ++ k ∷ s) (sym ((==_iff c b'"').0 e))))
    | inr e ↦
        ap (λ t. read_from return_ends quoted cur row (t ++ b'"' ∷ rest))
          (ap (λ b. if b then b'"' ∷ b'"' ∷ double_quotes s else c ∷ double_quotes s) e)
        ∙ read-push quoted quoted c (c ∷ []) cur row _ (unfold move in ground arith)
        ∙ read_quoted s (cur ++ c ∷ []) row rest
        ∙ ap (λ t. read_from return_ends after_quote t row rest) (append_assoc cur (c ∷ []) s)
  ]

  -- A text with no separator and no quote is read as it stands.
  read_plain :
      (s cur : Text) (row : List Text) (rest : Text)
      → any is_special s ≡ false
      → any (ends return_ends) s ≡ false
      → read_from return_ends plain cur row (s ++ rest)
        ≡ read_from return_ends plain (cur ++ s) row rest
  read_plain [] cur row rest h k =
      ap (λ t. read_from return_ends plain t row rest) (sym (append-nil cur))
  read_plain (c ∷ s) cur row rest h k =
      read-push plain plain c (c ∷ []) cur row _ (unfold move in ground arith)
      ∙ read_plain s (cur ++ c ∷ []) row rest (ground arith) (ground arith)
      ∙ ap (λ t. read_from return_ends plain t row rest) (append_assoc cur (c ∷ []) s)

  pub move_comma : (m : Mode) (c : ℕ) → m ≢ quoted → c ≡ b',' → move return_ends m c ≡ end_field
  unfolding move
  move_comma begin c h e = ground arith
  move_comma plain c h e = ground arith
  move_comma after_quote c h e = ground arith
  move_comma quoted c h e = absurd (h refl)

  pub move_feed : (m : Mode) (c : ℕ) → m ≢ quoted → c ≡ 10 → move return_ends m c ≡ end_row
  unfolding move
  move_feed begin c h e = ground arith
  move_feed plain c h e = ground arith
  move_feed after_quote c h e = ground arith
  move_feed quoted c h e = absurd (h refl)

  -- Where the field ends, each mode but `quoted` gives the same rows.
  same_end :
      (m : Mode) (cur : Text) (row : List Text) (rest : Text)
      → m ≢ quoted
      → Ends rest
      → read_from return_ends m cur row rest ≡ read_from return_ends plain cur row rest
  same_end m cur row [] h e = unfold read_from in refl
  same_end m cur row (c ∷ s) h (inl comma) =
      read-end_field m c cur row s (move_comma m c h comma)
      ∙ sym (read-end_field plain c cur row s (move_comma plain c plain-ne-quoted comma))
  same_end m cur row (c ∷ s) h (inr feed) =
      read-end_row m c cur row s (move_feed m c h feed)
      ∙ sym (read-end_row plain c cur row s (move_feed plain c plain-ne-quoted feed))

  read_unquoted :
      (t : Text) (row : List Text) (rest : Text)
      → any is_special t ≡ false
      → any (ends return_ends) t ≡ false
      → Ends rest
      → read_from return_ends begin [] row (t ++ rest) ≡ read_from return_ends plain t row rest
  read_unquoted [] row rest h k e = same_end begin [] row rest (λ p. cc) e
  read_unquoted (c ∷ s) row rest h k e =
      read-push begin plain c (c ∷ []) [] row _ (unfold move in ground arith)
      ∙ read_plain s (c ∷ []) row rest (ground arith) (ground arith)

  read-quote :
      (t : Text) (row : List Text) (rest : Text)
      → Fits return_ends t
      → Ends rest
      → read_from return_ends begin [] row (quote t ++ rest)
        ≡ read_from return_ends plain t row rest
  unfolding quote
  read-quote t row rest fit e = elim (Bool-cases (any is_special t)) [
    | inl special ↦
        ap
          (λ b.
            read_from return_ends begin [] row
              ((if b then b'"' ∷ (double_quotes t ++ b'"' ∷ []) else t) ++ rest))
          special
        ∙ ap (λ u. read_from return_ends begin [] row (b'"' ∷ u))
            (append_assoc (double_quotes t) (b'"' ∷ []) rest)
        ∙ read-push begin quoted b'"' [] [] row _ (unfold move in refl)
        ∙ read_quoted t [] row rest
        ∙ same_end after_quote t row rest (λ p. cc) e
    | inr ordinary ↦
        ap
          (λ b.
            read_from return_ends begin [] row
              ((if b then b'"' ∷ (double_quotes t ++ b'"' ∷ []) else t) ++ rest))
          ordinary
        ∙ read_unquoted t row rest ordinary (elim fit [ inl h ↦ h | inr h ↦ absurd (ground arith) ])
            e
  ]

  escape-quote : (f : Text) → escape_csv_field f ≡ quote (make_safe f)
  unfolding escape_csv_field is_formula
  escape-quote [] = refl
  escape-quote (c ∷ s) = refl

  make_safe-Fits : (f : Text) → Fits return_ends f → Fits return_ends (make_safe f)
  unfolding make_safe
  make_safe-Fits f fit = elim (Bool-cases (is_formula f)) [
    | inl e ↦ rw e (elim fit [ inl h ↦ inl (ground arith) | inr h ↦ inr (ground arith) ])
    | inr e ↦ rw e fit
  ]

  pub read-field :
      (f : Text) (row : List Text) (rest : Text)
      → Fits return_ends f
      → Ends rest
      → read_from return_ends begin [] row (escape_csv_field f ++ rest)
        ≡ read_from return_ends plain (make_safe f) row rest
  read-field f row rest fit e =
      ap (λ t. read_from return_ends begin [] row (t ++ rest)) (escape-quote f)
      ∙ read-quote (make_safe f) row rest (make_safe-Fits f fit) e
