-- ===== src/Alerting/Tests.antt =====
-- The settings of the alerts on small drafts.
use prefixd.Base.{true, false, List, [], ◌∷◌, zero, ◌<◌, none, some, length, arith, ◌≡◌, ◌≢◌, refl}
use prefixd.Base.Text.{Text, codes}
use prefixd.Base.Decimal.{to_decimal}
use prefixd.Api.Types.{slack, discord, teams, AlertingDestination, AlertingConfig}
use prefixd.Alerting.{
  DraftDestination, Panel, initial, empty_dest, add_dest, remove_dest, update_dest, current_draft,
  init_draft, handle_save, is_editing, save_ended, discard_draft,
}
use prefixd.Alerting.Form.{save_is_enabled, shown_events, result_at}
use prefixd.Alerting.Life.{
  World, with_panel, saving_of, opened, Reach, here, next, starts, adds, saves, IsSound,
  Reach-IsSound,
}
use prefixd.Alerting.Editing.{edited, edited_lem}

-- Two destinations, the form of the second one open.
abbrev two : Panel
two = add_dest to_decimal discord (add_dest to_decimal slack initial)

abbrev replaced : DraftDestination
replaced = empty_dest (codes "9") teams

two_open : two.editing_index ≡ some 1
unfolding add_dest
two_open = refl

two_long : 1 < length (current_draft two)
unfolding add_dest
two_long = omega arith

edited_lem_example :
    (edited (add_dest to_decimal slack two) ≡ some (empty_dest (to_decimal two.next_id) slack))
    × (edited (remove_dest 1 two) ≡ none)
    × (zero ≢ 1 → edited (remove_dest 0 two) ≡ edited two)
    × (edited (update_dest 1 replaced two) ≡ some replaced)
    × (zero ≢ 1 → edited (update_dest 0 replaced two) ≡ edited two)
edited_lem_example = edited_lem to_decimal slack 0 1 replaced two two_open two_long

abbrev config : AlertingConfig
config = record { destinations = []; events = [] }

-- Texts that tell how many destinations and events there are.
abbrev count_destinations : List AlertingDestination → Text
count_destinations l = length l ∷ []

abbrev count_events : List Text → Text
count_events l = length l ∷ []

abbrev editing : World
editing = with_panel (init_draft to_decimal (some config) initial) (opened config)

abbrev added : World
added = with_panel (add_dest to_decimal slack editing.panel) editing

abbrev asked : World
asked = saving_of added (handle_save added.panel)

is_draft : is_editing editing.panel ≡ true
unfolding init_draft
is_draft = refl

can_save : save_is_enabled count_destinations count_events (some config) added.panel ≡ true
unfolding save_is_enabled init_draft add_dest empty_dest
can_save = refl

one_save_asked : asked.under_way ≡ 1
unfolding handle_save init_draft add_dest empty_dest
one_save_asked = refl

asked-Reach : Reach to_decimal count_destinations count_events (opened config) asked
asked-Reach = next (next (next here (starts refl)) (adds slack is_draft)) (saves can_save)

Reach-IsSound_example : IsSound asked × (shown_events asked.data_received asked.panel ≢ none)
Reach-IsSound_example = Reach-IsSound to_decimal count_destinations count_events config asked-Reach

-- The second of two destinations gets the result of the first one.
abbrev tested_panel : Panel
tested_panel = record two {
  test_results = some (
      record { destination = codes "a"; is_ok = true; error = none }
      ∷ record { destination = codes "b"; is_ok = false; error = none }
      ∷ []);
}

ok_for_b :
    result_at (save_ended none (remove_dest 0 tested_panel)).0 0
    ≡ some (record { destination = codes "a"; is_ok = true; error = none })
unfolding result_at save_ended discard_draft remove_dest
ok_for_b = refl
