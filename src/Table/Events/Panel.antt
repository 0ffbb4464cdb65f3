-- ===== src/Table/Events/Panel.antt =====
-- The rest of frontend/components/dashboard/events-content-live.tsx: the selected event, the line below
-- the table, and the export. The text of a confidence is the browser's and is an argument.
use prefixd.Base.{
  false, ℕ, ◌+◌, ◌-◌, ◌*◌, ◌≤◌, ◌<◌, min, Bool, true, Option, none, some, List, [], ◌∷◌, map,
  if◌then◌else◌, ltb, or_else, In, arith, ◌≡◌, ◌≢◌, refl, sym, ap, Bool-cases, inl, inr, ◌∙◌,
}
use prefixd.Base.Text.{Text, codes, same, same_iff, truthy}
use prefixd.Base.Decimal.{to_decimal}
use prefixd.Csv.{make_safe, to_csv}
use prefixd.Csv.Reader.{read}
use prefixd.Csv.RoundTrip.{read-to_csv_feeds}
use prefixd.Detail.{find}
use prefixd.Table.{items_per_page, total_pages}
use prefixd.Table.Export.{rows-some}
use prefixd.Table.Events.{Event, Fraction}

-- `selectedId`, which starts as the `id` of the address and follows the clicks; `none` is null.
abbrev pub Selection : Type 0
Selection = Option Text

abbrev pub close : Selection
close = none

-- What the panel shows, where it is open: an event, or nothing where the id is not among the events.
pub data PanelShown : Type 0 where
  closed nothing : PanelShown
  panel : Event → PanelShown

abbrev pub panel_of : Option Event → PanelShown
panel_of none = nothing
panel_of (some e) = panel e

unfoldable pub shown_panel : Option (List Event) → Selection → PanelShown
shown_panel events none = closed
shown_panel events (some id) =
    if truthy id then panel_of (find (λ e. same e.event_id id) (or_else events [])) else closed

-- The numbers of "Showing … to … of …".
unfoldable pub showing : (current_page filtered : ℕ) → ℕ × ℕ × ℕ
showing current_page filtered = (
  if ltb 0 filtered then (current_page - 1) * items_per_page + 1 else 0,
  min (current_page * items_per_page) filtered,
  filtered,
)

abbrev pub event_headers : List Text
event_headers =
    codes "event_id"
    ∷ codes "event_timestamp"
    ∷ codes "ingested_at"
    ∷ codes "source"
    ∷ codes "victim_ip"
    ∷ codes "vector"
    ∷ codes "bps"
    ∷ codes "pps"
    ∷ codes "confidence"
    ∷ []

-- `String(value ?? "")`.
abbrev pub text_or_empty : {A : Type 0} → (A → Text) → Option A → Text
text_or_empty f none = []
text_or_empty f (some a) = f a

module _ (number_text : Fraction → Text) where
  abbrev pub event_row : Event → List Text
  event_row e =
      e.event_id
      ∷ e.event_timestamp
      ∷ e.ingested_at
      ∷ e.source
      ∷ e.victim_ip
      ∷ e.vector
      ∷ text_or_empty to_decimal e.bps
      ∷ text_or_empty to_decimal e.pps
      ∷ text_or_empty number_text e.confidence
      ∷ []

  unfoldable pub export_events : List Event → Text
  unfolding to_csv
  export_events events = to_csv event_headers (map event_row events)

  -- A CSV reader that ends rows at line feeds alone gets from the export the headers and, for each event in its order, the cells of its row
  -- in their places, with the apostrophe where one was put in front.
  pub read-export_events :
      (events : List Event)
      → read false (export_events events)
        ≡ map (map make_safe) (event_headers ∷ map event_row events)
  unfolding export_events
  read-export_events events =
      read-to_csv_feeds event_headers (map event_row events)
        ((λ e. ground arith), rows-some event_row events (λ m e. ground arith))

-- On a page of the table that has rows, the line counts from the first one of them to the last one: as
-- many as the page has, at most twenty, and the pages before it are full.
pub showing_lem :
    (current_page filtered : ℕ)
    → 0 < current_page
    → current_page ≤ total_pages filtered
    → let (first, last, all) = showing current_page filtered in
      (first ≤ last) × (last ≤ all) × (last < first + 20) × (first ≡ (current_page - 1) * 20 + 1)
unfolding showing total_pages
showing_lem current_page filtered positive within = ground arith

found_listed :
    {A : Type 0} (p : A → Bool) (l : List A) (a : A) → find p l ≡ some a → In a l × (p a ≡ true)
found_listed p [] a e = absurd (ground arith)
found_listed p (x ∷ l) a e = elim (Bool-cases (p x)) [
  | inl passes ↦ let is_x : x ≡ a = ground arith in (inl (sym is_x), ap p (sym is_x) ∙ passes)
  | inr fails ↦ let (later, passes) = found_listed p l a (ground arith) in (inr later, passes)
]

listed_found :
    {A : Type 0} (p : A → Bool) (l : List A) (a : A)
    → In a l
    → p a ≡ true
    → (b : A) × (find p l ≡ some b) × (p b ≡ true)
listed_found p [] a h passes = absurd h
listed_found p (x ∷ l) a h passes = elim (Bool-cases (p x)) [
  | inl first ↦ (x, rw first refl, first)
  | inr fails ↦ elim h [
    | inl e ↦ absurd (ground (arith, ap p e))
    | inr later ↦
        let (b, found, good) = listed_found p l a later passes in (b, rw fails found, good)
  ]
]

panel_found : (o : Option Event) (e : Event) → panel_of o ≡ panel e → o ≡ some e
panel_found none e h = absurd (ground arith)
panel_found (some f) e h = ground arith

-- The panel shows an event only where its id is selected and the event is loaded; it shows one for every
-- id of a loaded event that is not empty, whatever the filters and the page of the table are.
pub shown_panel_lem :
    (events : List Event) (id : Text)
    → ((e : Event)
        → shown_panel (some events) (some id) ≡ panel e
        → In e events × (e.event_id ≡ id))
      × ((e : Event)
          → In e events
          → e.event_id ≡ id
          → id ≢ []
          → (f : Event) × (shown_panel (some events) (some id) ≡ panel f) × (f.event_id ≡ id))
unfolding shown_panel
shown_panel_lem events [] = (λ e h. absurd (ground arith), λ e h is_id filled. absurd (filled refl))
shown_panel_lem events (c ∷ t) =
    let id : Text = c ∷ t in
    let has_id : Event → Bool = λ e. same e.event_id id in
    (
      λ e h.
          let (listed, passes) =
            found_listed has_id events e (panel_found (find has_id events) e h) in
          (listed, (same_iff e.event_id id).0 passes),
      λ e listed is_id filled.
          let (f, found, passes) =
            listed_found has_id events e listed ((same_iff e.event_id id).1 is_id) in
          (f, ap panel_of found, (same_iff f.event_id id).0 passes),
    )
