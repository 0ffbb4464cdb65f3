-- ===== src/Table/Choices.antt =====
-- The choices of the filters: the customers and the points of presence of
-- frontend/components/dashboard/mitigations-content-live.tsx, the sources and the vectors of
-- frontend/components/dashboard/events-content-live.tsx.
use prefixd.Base.{
  subst, ◌∙◌, true, Option, none, some, List, [], ◌∷◌, map, if◌then◌else◌, ltb, keep, any, or_else,
  In, arith, ◌≡◌, ◌↔◌, ◌⊎◌, refl, sym, ap, Bool-cases, inl, inr,
}
use prefixd.Base.Text.{Text, codes, same, same_iff, truthy}
use prefixd.Table.{Sign, negative, level, positive, sort}
use prefixd.Table.Sorting.{In-sort}
use prefixd.Table.Rows.{keep_iff}
use prefixd.Table.Mitigations.{Mitigation}
use prefixd.Table.Events.{Event}
use prefixd.Table.Audit.{distinct}

-- The order of `list.sort()`, by code units.
unfoldable pub compare_texts : Text → Text → Sign
compare_texts [] [] = level
compare_texts [] (d ∷ t) = negative
compare_texts (c ∷ s) [] = positive
compare_texts (c ∷ s) (d ∷ t) =
    let rest = compare_texts s t in if ltb c d then negative else if ltb d c then positive else rest

-- The texts that are not empty, each once, sorted.
unfoldable pub choices : List Text → List Text
unfolding distinct sort compare_texts
choices l = sort compare_texts (distinct [] (keep truthy l))

unfoldable pub customers : Option (List Mitigation) → List Text
unfolding choices
customers none = []
customers (some mitigations) = choices (map (λ m. or_else m.customer_id []) mitigations)

unfoldable pub pops : Option (List Mitigation) → List Text
unfolding choices
pops none = []
pops (some mitigations) = choices (map (λ m. m.pop) mitigations)

unfoldable pub sources : Option (List Event) → List Text
unfolding distinct
sources none = codes "All" ∷ []
sources (some events) = codes "All" ∷ distinct [] (map (λ e. e.source) events)

unfoldable pub vectors : Option (List Event) → List Text
unfolding distinct
vectors none = codes "All" ∷ []
vectors (some events) = codes "All" ∷ distinct [] (map (λ e. e.vector) events)

seen_iff : (x : Text) (seen : List Text) → (any (λ y. same y x) seen ≡ true) ↔ In x seen
seen_iff x [] = ((λ e. absurd (ground arith)), λ m. absurd m)
seen_iff x (y ∷ l) = ground (arith, same_iff y x, seen_iff x l)

In-distinct :
    (seen : List Text) (x : Text) (l : List Text)
    → (In x (distinct seen l) ⊎ In x seen) ↔ (In x l ⊎ In x seen)
unfolding distinct
In-distinct seen x [] = ((λ m. m), λ m. m)
In-distinct seen x (y ∷ l) = elim (Bool-cases (any (λ z. same z y) seen)) [
  | inl old ↦ rw old (ground (arith, In-distinct (y ∷ seen) x l, at old))
  | inr fresh ↦ rw fresh (ground (arith, In-distinct (y ∷ seen) x l))
]
  where
    at : any (λ z. same z y) seen ≡ true → x ≡ y → In x seen
    at old e = subst (λ t. In t seen) (sym e) ((seen_iff y seen).0 old)

-- The choices are exactly the texts of the list that are not empty.
choices_iff : (l : List Text) (x : Text) → In x (choices l) ↔ (In x l × (truthy x ≡ true))
unfolding choices
choices_iff l x = ground (
  arith,
  In-sort compare_texts x (distinct [] (keep truthy l)),
  In-distinct [] x (keep truthy l),
  keep_iff truthy x l,
)

In-map :
    {A : Type 0} (f : A → Text) (x : Text) (l : List A)
    → In x (map f l) ↔ ((a : A) × In a l × (x ≡ f a))
In-map f x [] = ((λ m. absurd m), λ h. absurd h.1)
In-map f x (a ∷ l) = (
  λ m. elim m [
    | inl e ↦ (a, inl refl, e)
    | inr there ↦ let (b, at, e) = (In-map f x l).0 there in (b, inr at, e)
  ],
  λ (b, at, e). elim at [
    | inl same_one ↦ inl (e ∙ ap f same_one)
    | inr there ↦ inr ((In-map f x l).1 (b, there, e))
  ],
)

-- The points of presence to choose from are exactly those of the mitigations, but for an empty one;
-- so each choice leaves a row of the unfiltered data.
pub pops_iff :
    (mitigations : List Mitigation) (pop : Text)
    → In pop (pops (some mitigations))
      ↔ (((m : Mitigation) × In m mitigations × (pop ≡ m.pop)) × (truthy pop ≡ true))
unfolding pops
pops_iff mitigations pop =
    let chosen = choices_iff (map (λ m. m.pop) mitigations) pop in
    let mapped = In-map (λ m. m.pop) pop mitigations in
    (
      λ m. let (at, some_text) = chosen.0 m in (mapped.0 at, some_text),
      λ h. chosen.1 (mapped.1 h.0, h.1),
    )
