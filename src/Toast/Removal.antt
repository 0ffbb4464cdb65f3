-- ===== src/Toast/Removal.antt =====
-- When a dismissed toast of frontend/hooks/use-toast.ts disappears: the timeouts that fall due.
use prefixd.Base.{
  ℕ, ◌+◌, ◌≤◌, Bool, true, false, ◌||◌, ◌&&◌, not, Option, none, some, List, [], ◌∷◌, map, keep,
  All, All-append, All-map, arith, leb, if◌then◌else◌, Bool-cases, ◌≡◌, refl, sym, ap, ◌∙◌, inl,
  inr, keep-keep, keep-ext,
}
use prefixd.Base.Text.{Text, same, same_iff, same_refl, truthy}
use prefixd.Toast.{
  Timeouts, Toast, dismiss_toast, Store, has, delete, is_id, is_undefined, close, queue_dismissed,
  queue_all, add_to_remove_queue, dispatch, on_timeout, toast_remove_delay,
}
use prefixd.Toast.Queue.{has-delete, has-add, queue_all-All}

-- The timer phase of the event loop at time `now`: the callbacks of the listed timeouts that are
-- due, in order.
unfoldable pub run_due : ℕ → Timeouts → Store → Store
run_due now [] s = s
run_due now ((id, due) ∷ ts) s = run_due now ts (if leb due now then on_timeout now s id else s)

abbrev pub AllDue : ℕ → Timeouts → Type 0
AllDue now ts = All (λ e. e.1 ≤ now) ts

toasts-on_timeout :
    (now : ℕ) (s : Store) (id : Text)
    → (on_timeout now s id).memory_state.toasts
      ≡ keep (λ t. not (same t.id id)) s.memory_state.toasts
unfolding on_timeout
toasts-on_timeout now s id = refl

timeouts-on_timeout :
    (now : ℕ) (s : Store) (id : Text)
    → (on_timeout now s id).toast_timeouts ≡ delete id s.toast_timeouts
unfolding on_timeout
timeouts-on_timeout now s id = refl

due_test : (due now : ℕ) → due ≤ now → leb due now ≡ true
due_test due now h = ground arith

run_due-cons :
    (now : ℕ) (id : Text) (due : ℕ) (ts : Timeouts) (s : Store)
    → due ≤ now
    → run_due now ((id, due) ∷ ts) s ≡ run_due now ts (on_timeout now s id)
unfolding run_due
run_due-cons now id due ts s h =
    ap (λ b. run_due now ts (if b then on_timeout now s id else s)) (due_test due now h)

toasts-run_due :
    (now : ℕ) (ts : Timeouts) (s : Store)
    → AllDue now ts
    → (run_due now ts s).memory_state.toasts ≡ keep (λ t. not (has t.id ts)) s.memory_state.toasts
unfolding run_due has
toasts-run_due now [] s d = sym (keep_true s.memory_state.toasts)
  where
    keep_true : (l : List Toast) → keep (λ t. true) l ≡ l
    keep_true [] = refl
    keep_true (t ∷ l) = ap (◌∷◌ t) (keep_true l)
toasts-run_due now ((id, due) ∷ ts) s d =
    ap (λ (r : Store). r.memory_state.toasts) (run_due-cons now id due ts s d.0)
    ∙ (toasts-run_due now ts (on_timeout now s id) d.1
        ∙ ap (keep (λ t. not (has t.id ts))) (toasts-on_timeout now s id)
        ∙ keep-keep (λ (t : Toast). not (has t.id ts)) (λ t. not (same t.id id)) _
        ∙ keep-ext _ _ s.memory_state.toasts
            (λ t. ground (arith, same_iff t.id id, same_iff id t.id)))

has-run_due :
    (now : ℕ) (k : Text) (ts : Timeouts) (s : Store)
    → AllDue now ts
    → has k (run_due now ts s).toast_timeouts ≡ (has k s.toast_timeouts && not (has k ts))
unfolding run_due has
has-run_due now k [] s d = ground arith
has-run_due now k ((id, due) ∷ ts) s d =
    ap (λ (r : Store). has k r.toast_timeouts) (run_due-cons now id due ts s d.0)
    ∙ (has-run_due now k ts (on_timeout now s id) d.1
        ∙ ap (λ l. has k l && not (has k ts)) (timeouts-on_timeout now s id)
        ∙ ap (λ b. b && not (has k ts)) (has-delete k id s.toast_timeouts)
        ∙ ground arith)

empty_of_has : (ts : Timeouts) → ((k : Text) → has k ts ≡ false) → ts ≡ []
unfolding has
empty_of_has [] h = refl
empty_of_has ((k, d) ∷ ts) h = absurd (ground (arith, h k, same_refl k))

-- Once every pending timeout is due, firing them removes exactly the toasts that were queued,
-- keeps the others in order, and leaves nothing pending.
pub run_due_lem :
    (now : ℕ) (s : Store)
    → AllDue now s.toast_timeouts
    → ((run_due now s.toast_timeouts s).memory_state.toasts
        ≡ keep (λ t. not (has t.id s.toast_timeouts)) s.memory_state.toasts)
      × ((run_due now s.toast_timeouts s).toast_timeouts ≡ [])
run_due_lem now s d = (
  toasts-run_due now s.toast_timeouts s d,
  empty_of_has _ (λ k. ground (arith, has-run_due now k s.toast_timeouts s d)),
)

AllDue-add :
    (now : ℕ) (id : Text) (ts : Timeouts)
    → AllDue (now + toast_remove_delay) ts
    → AllDue (now + toast_remove_delay) (add_to_remove_queue now id ts)
unfolding add_to_remove_queue
AllDue-add now id ts d = elim (Bool-cases (has id ts)) [
  | inl e ↦ rw e d
  | inr e ↦ rw e (All-append _ ts _ d (omega arith, tt))
]

AllDue-queue_all :
    (now : ℕ) (toasts : List Toast) (ts : Timeouts)
    → AllDue (now + toast_remove_delay) ts
    → AllDue (now + toast_remove_delay) (queue_all now toasts ts)
unfolding queue_all
AllDue-queue_all now [] ts d = d
AllDue-queue_all now (t ∷ rest) ts d =
    AllDue-queue_all now rest (add_to_remove_queue now t.id ts) (AllDue-add now t.id ts d)

AllDue-dismissed :
    (now : ℕ) (id : Option Text) (toasts : List Toast) (ts : Timeouts)
    → AllDue (now + toast_remove_delay) ts
    → AllDue (now + toast_remove_delay) (queue_dismissed now id toasts ts)
unfolding queue_dismissed
AllDue-dismissed now none toasts ts d = AllDue-queue_all now toasts ts d
AllDue-dismissed now (some id) toasts ts d = elim (Bool-cases (truthy id)) [
  | inl e ↦ rw e (AllDue-add now id ts d)
  | inr e ↦ rw e (AllDue-queue_all now toasts ts d)
]

-- Whether `DISMISS_TOAST` with this id speaks of the toast.
abbrev pub is_meant : Option Text → Toast → Bool
is_meant none t = true
is_meant (some id) t = same t.id id

meant_gone :
    (now : ℕ) (id : Option Text) (toasts l : List Toast) (ts : Timeouts)
    → All (λ t. has t.id (queue_all now toasts ts) ≡ true) l
    → All
        (λ t. is_meant id t ≡ false)
        (keep
          (λ t. not (has t.id (queue_dismissed now id toasts ts)))
          (map (λ t. if is_id t id || is_undefined id then close t else t) l))
unfolding is_id close queue_dismissed
meant_gone now id toasts [] ts h = tt
meant_gone now none toasts (t ∷ l) ts h = rw h.0 (meant_gone now none toasts l ts h.1)
meant_gone now (some id) toasts (t ∷ l) ts h = ground (
  arith,
  h.0,
  meant_gone now (some id) toasts l ts h.1,
  has-add now t.id id ts,
  same_iff id t.id,
  same_iff t.id id,
)

-- A dismissed toast goes: with no timeout set later than `now`, once the removal delay has passed
-- and the timeouts have fired, no toast that `DISMISS_TOAST` spoke of is left, whether one id, no
-- id or the empty id was given, and no timeout is pending.
pub dismissed_removed :
    (now later : ℕ) (s : Store) (id : Option Text)
    → AllDue (now + toast_remove_delay) s.toast_timeouts
    → now + toast_remove_delay ≤ later
    → let dismissed = (dispatch now s (dismiss_toast id)).0 in
      let fired = run_due later dismissed.toast_timeouts dismissed in
      All (λ t. is_meant id t ≡ false) fired.memory_state.toasts × (fired.toast_timeouts ≡ [])
unfolding dispatch
dismissed_removed now later s id d h =
    let dismissed = (dispatch now s (dismiss_toast id)).0 in
    let due =
      All-map (λ e. e.1 ≤ now + toast_remove_delay) (λ e. e.1 ≤ later) dismissed.toast_timeouts
        (λ e p. omega arith) (AllDue-dismissed now id s.memory_state.toasts s.toast_timeouts d) in
    let (left, none_pending) = run_due_lem later dismissed due in
    (
      rw left (
          meant_gone now id s.memory_state.toasts s.memory_state.toasts s.toast_timeouts
            (queue_all-All now s.memory_state.toasts s.toast_timeouts)),
      none_pending,
    )
