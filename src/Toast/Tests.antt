-- ===== src/Toast/Tests.antt =====
-- Runs of the toast store of frontend/hooks/use-toast.ts on concrete calls.
use prefixd.Base.{true, ℕ, false, none, some, [], ◌∷◌, map, All, arith, ◌≡◌, refl}
use prefixd.Base.Text.{codes}
use prefixd.Base.Decimal.{to_decimal}
use prefixd.Toast.{
  update, Toast, Props, Store, dismiss_toast, gen_id, has, dispatch, toast, dismiss,
}
use prefixd.Toast.Invariant.{Inv, Reach, initial, Reach-initial-Inv, toasts, updates, here, next}
use prefixd.Toast.Removal.{run_due, run_due_lem, dismissed_removed, is_meant}

abbrev hello : Props
hello = record { title = some (codes "hello"); description = none }

abbrev shown_once : Store
shown_once = (toast 5 initial hello).0

abbrev shown_twice : Store
shown_twice = (toast 6 shown_once hello).0

newest_only : map (λ (t : Toast). t.id) shown_twice.memory_state.toasts ≡ codes "2" ∷ []
unfolding toast to_decimal
newest_only = refl

dismissed_is_queued : (dismiss 7 shown_twice (codes "2")).toast_timeouts ≡ (codes "2", 1000007) ∷ []
unfolding toast dismiss to_decimal has
dismissed_is_queued = refl

-- The empty id closes nothing, and queues every toast.
empty_id_queues : (dismiss 7 shown_twice []).toast_timeouts ≡ (codes "2", 1000007) ∷ []
unfolding toast dismiss to_decimal has
empty_id_queues = refl

shown_twice-Reach : Reach initial false shown_twice
shown_twice-Reach = next (next here (toasts 5 hello)) (toasts 6 hello)

Reach-initial-Inv_example : Inv false shown_twice
Reach-initial-Inv_example = Reach-initial-Inv shown_twice-Reach

-- An `update` that closes the toast.
abbrev shut : Store
shut =
    update 7 shown_twice (codes "2")
      (record { id = none; title = none; description = none; is_open = some (some false) })

shut-Reach : Reach initial true shut
shut-Reach = next shown_twice-Reach (
    updates 7 (codes "2")
      (record { id = none; title = none; description = none; is_open = some (some false) }))

abbrev waiting : Store
waiting = (dispatch 7 shown_twice (dismiss_toast (some (codes "2")))).0

waiting_timeouts : waiting.toast_timeouts ≡ (codes "2", 1000007) ∷ []
unfolding toast dispatch to_decimal has
waiting_timeouts = refl

run_due_lem_example : (run_due 1000007 waiting.toast_timeouts waiting).toast_timeouts ≡ []
unfolding toast dispatch to_decimal has
run_due_lem_example = (run_due_lem 1000007 waiting (omega arith, tt)).1

dismissed_removed_example :
    let fired = run_due 1000007 waiting.toast_timeouts waiting in
    All (λ t. is_meant (some (codes "2")) t ≡ false) fired.memory_state.toasts
    × (fired.toast_timeouts ≡ [])
unfolding toast
dismissed_removed_example =
    dismissed_removed 7 1000007 shown_twice (some (codes "2")) tt (omega arith)

abbrev last_count : ℕ
last_count = 9007199254740990

last_id : (gen_id last_count).1 ≡ codes "0"
unfolding gen_id to_decimal
last_id = refl
