-- ===== src/Palette/Laws.antt =====
-- What the command palette finds and where it leads.
use prefixd.Base.{
  ℕ, zero, suc, ◌+◌, ◌≤◌, ◌<◌, leb, true, false, some, Bool-cases, ◌∙◌, List, [], ◌∷◌,
  if◌then◌else◌, keep, take, length, length-take, In, arith, ◌≡◌, refl, ap, inl, inr,
}
use prefixd.Base.Text.{Text, codes, same, same_iff}
use prefixd.Shortcuts as Shortcuts
use prefixd.Shortcuts.{navigation, initial, run, is_typing, has_command}
use prefixd.Shortcuts.Prefix as Prefix
use prefixd.Shortcuts.Prefix.{meaning, after_key, counting, described, run-described}
use prefixd.Table.Mitigations.{Mitigation}
use prefixd.Table.Rows.{keep_iff}
use prefixd.Palette.{
  PageItem, pages, finds_mitigation, filtered_mitigations, view_active, view_escalated,
  mitigations_page,
}

-- The address of the first entry that shows the key, as what the keys after g do.
abbrev pub hinted : Text → List PageItem → List Shortcuts.Action
hinted key [] = []
hinted key (i ∷ l) = if same key i.key then Shortcuts.push i.href ∷ [] else hinted key l

-- The switch over the second key leads where the entry with that key leads.
navigation-hinted : (key : Text) → navigation key ≡ hinted key pages
unfolding navigation
navigation-hinted key = ground (
  arith,
  same_iff key (codes "a"),
  same_iff key (codes "i"),
  same_iff key (codes "c"),
  same_iff key (codes "h"),
)

-- What a key does after g: the two shortcuts of one key act as ever, any other key leads where the
-- palette says.
abbrev pub after_g : Text → List Shortcuts.Action
after_g key =
    if same key (codes "?")
    then Shortcuts.on_toggle_help ∷ []
    else if same key (codes "n")
    then Shortcuts.push (codes "/mitigations?mitigate=true") ∷ []
    else hinted key pages

-- A key that is pressed outside the fields, without a command key.
abbrev pub IsPlain : Shortcuts.KeyEvent → Type 0
IsPlain e = (is_typing e ≡ false) × (has_command e ≡ false)

g-prefix : (g : Shortcuts.KeyEvent) → IsPlain g → g.key ≡ codes "g" → meaning g ≡ Prefix.prefix
unfolding meaning
g-prefix g plain e = rw (plain.0, plain.1, e) refl

second_key :
    (t now : ℕ) (e : Shortcuts.KeyEvent) → IsPlain e → (after_key now e (some t)).1 ≡ after_g e.key
unfolding after_key meaning
second_key t now e plain =
    rw (plain.0, plain.1)
      (elim (Bool-cases (same e.key (codes "?"))) [
        | inl help ↦ rw help refl
        | inr other ↦ elim (Bool-cases (same e.key (codes "n"))) [
          | inl report ↦ rw (other, report) refl
          | inr third ↦ elim (Bool-cases (same e.key (codes "g"))) [
            | inl again ↦ rw ((same_iff e.key (codes "g")).0 again) refl
            | inr fourth ↦ rw (other, third, fourth) (navigation-hinted e.key)
          ]
        ]
      ])

-- The keys that the palette shows are those of the keyboard: less than a second after g, a key leads
-- where the entry of the palette with that key leads, and a key that no entry shows leads nowhere,
-- except for ? and n, which act at once as they do without g; both keys pressed outside the fields,
-- without a command key, from the initial state.
pub run-hinted :
    (t now : ℕ) (g e : Shortcuts.KeyEvent)
    → IsPlain g
    → g.key ≡ codes "g"
    → IsPlain e
    → now < t + 1000
    → run initial ((t, g) ∷ (now, e) ∷ []) ≡ [] ∷ after_g e.key ∷ []
unfolding described counting after_key
run-hinted t now g e plain is_g plain_e soon =
    run-described ((t, g) ∷ (now, e) ∷ [])
    ∙ rw (g-prefix g plain is_g, late) (ap (λ l. [] ∷ l ∷ []) (second_key t now e plain_e))
  where
    late : leb (t + 1000) now ≡ false
    late = ground (arith, soon)

In-take : {A : Type 0} (n : ℕ) (x : A) (l : List A) → In x (take n l) → In x l
In-take zero x l m = absurd m
In-take (suc n) x [] m = absurd m
In-take (suc n) x (y ∷ l) (inl e) = inl e
In-take (suc n) x (y ∷ l) (inr m) = inr (In-take n x l m)

take_all : {A : Type 0} (n : ℕ) (l : List A) → length l ≤ n → take n l ≡ l
take_all zero [] h = refl
take_all zero (x ∷ l) h = absurd (omega (arith, h))
take_all (suc n) [] h = refl
take_all (suc n) (x ∷ l) h = ap (◌∷◌ x) (take_all n l (omega (arith, h)))

-- At most five mitigations are shown, each a mitigation that the search finds; where it finds at most
-- five, they are all of them, in their order.
pub filtered_mitigations_lem :
    (to_lower_case : Text → Text) (search : Text) (l : List Mitigation)
    → let shown = filtered_mitigations to_lower_case (some l) search in
      let found = keep (finds_mitigation to_lower_case search) l in
      (length shown ≤ 5)
      × ((m : Mitigation) → In m shown → In m l × (finds_mitigation to_lower_case search m ≡ true))
      × (length found ≤ 5 → shown ≡ found)
unfolding filtered_mitigations
filtered_mitigations_lem to_lower_case search l =
    let found = keep (finds_mitigation to_lower_case search) l in
    (
      omega (arith, length-take 5 found),
      λ m at. (keep_iff (finds_mitigation to_lower_case search) m l).0 (In-take 5 m found at),
      λ few. take_all 5 found few,
    )

-- The quick actions for a status mount the same page of mitigations as the bare address: its table
-- shows the active and the escalated ones either way.
pub status_ignored :
    (mitigations_page view_active ≡ mitigations_page [])
    × (mitigations_page view_escalated ≡ mitigations_page [])
    × ((mitigations_page []).0.status_filters ≡ codes "active" ∷ codes "escalated" ∷ [])
unfolding mitigations_page
status_ignored = (refl, refl, refl)
