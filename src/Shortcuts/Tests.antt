-- ===== src/Shortcuts/Tests.antt =====
-- Keys on the page and in a field.
use prefixd.Base.{ℕ, false, none, List, [], ◌∷◌, arith, ◌≡◌, refl}
use prefixd.Base.Text.{Text, codes}
use prefixd.Shortcuts.{
  KeyEvent, push, initial, handle_key_down, fire_due, run, rerun_effect, navigation,
}
use prefixd.Shortcuts.Prefix.{run-described, described, Meaning, meaning, state}
use prefixd.Shortcuts.Rerender.{stale_prefix}

abbrev plain : Text → KeyEvent
plain k = record {
  tag_name = codes "BODY";
  is_content_editable = false;
  meta_key = false;
  ctrl_key = false;
  key = k;
}

abbrev keys : List (ℕ × KeyEvent)
keys =
    (0, plain (codes "g"))
    ∷ (900, plain (codes "m"))
    ∷ (2000, plain (codes "g"))
    ∷ (3000, plain (codes "m"))
    ∷ []

in_time : run initial keys ≡ [] ∷ (push (codes "/mitigations") ∷ []) ∷ [] ∷ [] ∷ []
unfolding run
in_time = refl

run-described_example : run initial keys ≡ described none keys
run-described_example = run-described keys

meaning_of_g : meaning (plain (codes "g")) ≡ Meaning.prefix
unfolding meaning
meaning_of_g = refl

meaning_of_m : meaning (plain (codes "m")) ≡ Meaning.second
unfolding meaning
meaning_of_m = refl

stale_prefix_test :
    let w = (handle_key_down 0 (plain (codes "g")) (state 0 none)).0 in
    ((handle_key_down 60000 (plain (codes "m")) (fire_due 60000 (rerun_effect w))).1
      ≡ navigation (codes "m"))
    × ((handle_key_down 60000 (plain (codes "m")) (fire_due 60000 w)).1 ≡ [])
stale_prefix_test =
    stale_prefix 0 60000 0 (plain (codes "g")) (plain (codes "m")) none meaning_of_g meaning_of_m
      (omega arith)
