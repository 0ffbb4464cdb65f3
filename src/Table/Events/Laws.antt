-- ===== src/Table/Events/Laws.antt =====
-- What the table of events shows.
use prefixd.Base.{
  ◌∷◌, ℕ, suc, ◌*◌, ◌≤◌, ◌<◌, min, true, Option, none, some, List, [], length, or_else,
  Option-cases, inl, inr, All, All-map, In, arith, ◌≡◌, ◌≢◌, ◌↔◌, ◌⊎◌, refl, sym, subst,
}
use prefixd.Base.Text.{Text, codes, same_iff}
use prefixd.Table.{
  Sign, positive, sign_of, SortDirection, asc, desc, directed, text_includes, total_pages, page_of,
}
use native.Mathlib.Nat.{le_of_mul-le-mul_right, mul-le-mul_right}
use prefixd.Table.Sorting.{
  IsConsistent, IsSorted, sign_of-IsConsistent, directed-IsConsistent, along,
}
use prefixd.Table.Rows.{rows_lem}
use prefixd.Table.Pages.{page_of_nonempty, page_of_beyond}
use prefixd.Table.Events.{
  Fraction, Event, SortField, timestamp, by_source, by_victim_ip, by_vector, by_bps, by_confidence,
  EventTable, set_search_query, shows, confidence_of, fraction_sign, comparison, compare_events,
  filtered_events, paginated_events, pages, next_page,
}

-- Fractions x / a, y / b and z / c.
cross : (x y z a b c : ℕ) → 0 < b → x * b ≤ y * a → y * c ≤ z * b → x * c ≤ z * a
cross x y z a b c pos h k = le_of_mul-le-mul_right both pos
  where
    left : x * c * b ≤ y * c * a
    left = omega (arith, mul-le-mul_right c h)

    both : x * c * b ≤ z * a * b
    both = omega (arith, left, mul-le-mul_right a k)

sign_le : (a b : ℕ) → (sign_of a b ≢ positive) ↔ (a ≤ b)
sign_le a b = ((λ h. ground arith), λ le e. absurd (ground arith))

fraction_sign-IsConsistent : IsConsistent fraction_sign
fraction_sign-IsConsistent = record {
  swapped = λ x y. ground arith;
  chained = λ x y z h k.
      let dx : ℕ = suc x.denominator_less_one in
      let dy : ℕ = suc y.denominator_less_one in
      let dz : ℕ = suc z.denominator_less_one in
      (sign_le (x.numerator * dz) (z.numerator * dx)).1 (
        cross x.numerator y.numerator z.numerator dx dy dz (omega arith)
          ((sign_le (x.numerator * dy) (y.numerator * dx)).0 h)
          ((sign_le (y.numerator * dz) (z.numerator * dy)).0 k));
}

-- A confidence, 0 where it is missing.
abbrev pub given : Option Fraction → Fraction
given none = record { numerator = 0; denominator_less_one = 0 }
given (some f) = f

-- What an order of the rows by a field says of two events, the first one above the second.
module _ (locale_compare : Text → Text → Sign) (time_of : Text → ℕ) where
  abbrev pub IsAtMost : SortField → Event → Event → Type 0
  IsAtMost timestamp a b = time_of a.event_timestamp ≤ time_of b.event_timestamp
  IsAtMost by_source a b = locale_compare a.source b.source ≢ positive
  IsAtMost by_victim_ip a b = locale_compare a.victim_ip b.victim_ip ≢ positive
  IsAtMost by_vector a b = locale_compare a.vector b.vector ≢ positive
  IsAtMost by_bps a b = or_else a.bps 0 ≤ or_else b.bps 0
  IsAtMost by_confidence a b =
      (given a.confidence).numerator * suc (given b.confidence).denominator_less_one
      ≤ (given b.confidence).numerator * suc (given a.confidence).denominator_less_one

  abbrev pub IsAbove : SortField → SortDirection → Event → Event → Type 0
  IsAbove field asc a b = IsAtMost field a b
  IsAbove field desc a b = IsAtMost field b a

-- Every row stands above the later ones.
abbrev pub IsOrdered : (Event → Event → Type 0) → List Event → Type 0
IsOrdered R [] = Unit
IsOrdered R (x ∷ l) = All (R x) l × IsOrdered R l

-- What the filters ask of an event.
abbrev pub IsWanted : EventTable → Event → Type 0
IsWanted s e =
    ((s.source_filter ≡ codes "All") ⊎ (e.source ≡ s.source_filter))
    × ((s.vector_filter ≡ codes "All") ⊎ (e.vector ≡ s.vector_filter))
    × ((s.search_query ≡ []) ⊎ (text_includes e.victim_ip s.search_query ≡ true))

shows_iff : (s : EventTable) (e : Event) → (shows s e ≡ true) ↔ IsWanted s e
unfolding shows
shows_iff s e = ground (
  arith,
  same_iff s.source_filter (codes "All"),
  same_iff e.source s.source_filter,
  same_iff s.vector_filter (codes "All"),
  same_iff e.vector s.vector_filter,
)

module _ (locale_compare : Text → Text → Sign) (time_of : Text → ℕ) where
  comparison-IsConsistent :
      IsConsistent locale_compare
      → (field : SortField) → IsConsistent (comparison locale_compare time_of field)
  unfolding comparison
  comparison-IsConsistent c timestamp =
      along (λ e. time_of e.event_timestamp) sign_of sign_of-IsConsistent
  comparison-IsConsistent c by_source = along (λ e. e.source) locale_compare c
  comparison-IsConsistent c by_victim_ip = along (λ e. e.victim_ip) locale_compare c
  comparison-IsConsistent c by_vector = along (λ e. e.vector) locale_compare c
  comparison-IsConsistent c by_bps = along (λ e. or_else e.bps 0) sign_of sign_of-IsConsistent
  comparison-IsConsistent c by_confidence =
      along confidence_of fraction_sign fraction_sign-IsConsistent

  compare_events-IsConsistent :
      IsConsistent locale_compare
      → (s : EventTable) → IsConsistent (compare_events locale_compare time_of s)
  unfolding compare_events
  compare_events-IsConsistent c s =
      directed-IsConsistent s.sort_direction (comparison locale_compare time_of s.sort_field)
        (comparison-IsConsistent c s.sort_field)

  given_lem : (e : Event) → confidence_of e ≡ given e.confidence
  given_lem e = elim (Option-cases e.confidence) [
    | inl missing ↦ rw missing refl
    | inr (f, there) ↦ rw there refl
  ]

  at_most :
      (field : SortField) (a b : Event)
      → comparison locale_compare time_of field a b ≢ positive
      → IsAtMost locale_compare time_of field a b
  unfolding comparison
  at_most timestamp a b h = (sign_le (time_of a.event_timestamp) (time_of b.event_timestamp)).0 h
  at_most by_source a b h = h
  at_most by_victim_ip a b h = h
  at_most by_vector a b h = h
  at_most by_bps a b h = (sign_le (or_else a.bps 0) (or_else b.bps 0)).0 h
  at_most by_confidence a b h =
      rw (sym (given_lem a), sym (given_lem b))
        ((sign_le ((confidence_of a).numerator * suc (confidence_of b).denominator_less_one)
            ((confidence_of b).numerator * suc (confidence_of a).denominator_less_one)).0
          h)

  above :
      IsConsistent locale_compare
      → (field : SortField) (d : SortDirection) (a b : Event)
      → directed d (comparison locale_compare time_of field a b) ≢ positive
      → IsAbove locale_compare time_of field d a b
  above c field asc a b h = at_most field a b h
  above c field desc a b h =
      at_most field b a
        (subst (λ v. v ≢ positive) (sym ((comparison-IsConsistent c field).swapped a b)) h)

  ordered :
      (s : EventTable) (l : List Event)
      → IsConsistent locale_compare
      → IsSorted (compare_events locale_compare time_of s) l
      → IsOrdered (IsAbove locale_compare time_of s.sort_field s.sort_direction) l
  unfolding compare_events
  ordered s [] c h = tt
  ordered s (x ∷ l) c h = (
    All-map (λ y. compare_events locale_compare time_of s x y ≢ positive)
        (IsAbove locale_compare time_of s.sort_field s.sort_direction x) l
        (λ y. above c s.sort_field s.sort_direction x y) h.0,
    ordered s l c h.1,
  )

  -- The rows of the table are exactly the events that the filters ask for, and each stands above the
  -- later ones as the chosen field and direction say: times, rates and confidences do not fall, or do
  -- not rise, from a row to a later one, where a missing rate or confidence is 0, and of two texts
  -- `localeCompare` does not put the upper one after the lower one, or before it; if `localeCompare`
  -- turns its sign when its arguments are swapped and is transitive.
  pub filtered_events_lem :
      (events : List Event) (s : EventTable)
      → IsConsistent locale_compare
      → IsOrdered
          (IsAbove locale_compare time_of s.sort_field s.sort_direction)
          (filtered_events locale_compare time_of (some events) s)
        × ((e : Event)
            → In e (filtered_events locale_compare time_of (some events) s)
              ↔ (In e events × IsWanted s e))
  unfolding filtered_events
  filtered_events_lem events s c =
      let (sorted, same_rows) =
        rows_lem (compare_events locale_compare time_of s) (compare_events-IsConsistent c s)
          (shows s) events in
      (
        ordered s (filtered_events locale_compare time_of (some events) s) c sorted,
        λ e. ground (arith, same_rows e, shows_iff s e),
      )

  same_rows_on :
      (events : Option (List Event)) (s : EventTable) (p : ℕ)
      → filtered_events locale_compare time_of events (record s { current_page = p })
        ≡ filtered_events locale_compare time_of events s
  unfolding filtered_events shows compare_events
  same_rows_on none s p = refl
  same_rows_on (some events) s p = refl

  -- A search does not turn the page: where fewer pages are left than the current page, no row is shown
  -- although events were found, and the button for the next page leads to the last page, which has
  -- rows.
  pub stale_page :
      (events : Option (List Event)) (s : EventTable) (query : Text)
      → let after = set_search_query query s in
        pages locale_compare time_of events after < s.current_page
        → 1 ≤ pages locale_compare time_of events after
        → (paginated_events locale_compare time_of events after ≡ [])
          × (paginated_events locale_compare time_of events
                (next_page locale_compare time_of events after)
              ≢ [])
  unfolding paginated_events pages next_page
  stale_page events s query beyond found =
      let after = set_search_query query s in
      let rows = filtered_events locale_compare time_of events after in
      let last : ℕ = min (total_pages (length rows)) (suc s.current_page) in
      (
        page_of_beyond s.current_page rows beyond,
        subst (λ l. page_of last l ≢ []) (sym (same_rows_on events after last))
            ((page_of_nonempty last rows (omega (arith, beyond, found))).1 (omega (arith, beyond))),
      )
