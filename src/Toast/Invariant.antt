-- ===== src/Toast/Invariant.antt =====
-- What holds of the toast store of frontend/hooks/use-toast.ts between two calls.
use prefixd.Base.{
  ℕ, zero, suc, ◌≤◌, Bool, true, false, ◌||◌, not, Option, none, some, ◌⊎◌, List, [], ◌∷◌, map,
  take, keep, length, All, arith, if◌then◌else◌, Bool-cases, ◌≡◌, refl, inl, inr, length-take,
  length-map, length-keep-le,
}
use prefixd.Base.Text.{Text, same, same_iff}
use prefixd.Toast.{
  Timeouts, Toast, Patch, dismiss_toast, Store, Props, has, delete, is_id, is_undefined, close,
  spread, queue_dismissed, queue_all, dispatch, toast, update, dismiss, on_open_change, on_timeout,
  subscribe, unsubscribe, toast_limit,
}
use prefixd.Toast.Queue.{
  Distinct, has-add, has-delete, has-queue_all, queue_all-All, Distinct-delete,
  Distinct-queue_dismissed,
}

-- A toast that was closed has a pending removal.
abbrev pub IsQueued : Timeouts → Toast → Type 0
IsQueued ts t = t.is_open ≡ some false → has t.id ts ≡ true

-- `by_update` is whether some call of an `update` has set `open` to false.
pub record Inv (by_update : Bool) (s : Store) : Type 0 where
  pub limited : length s.memory_state.toasts ≤ toast_limit
  pub distinct : Distinct s.toast_timeouts
  pub queued : (by_update ≡ true) ⊎ All (IsQueued s.toast_timeouts) s.memory_state.toasts

abbrev pub closes : Patch → Bool
closes p = is_false p.is_open
  where
    is_false : Option (Option Bool) → Bool
    is_false (some (some false)) = true
    is_false _ = false

spread-IsQueued :
    (ts : Timeouts) (id : Text) (p : Patch) (l : List Toast)
    → closes p ≡ false
    → p.id ≡ some id
    → All (IsQueued ts) l
    → All (IsQueued ts) (map (λ t. if is_id t p.id then spread t p else t) l)
unfolding is_id spread
spread-IsQueued ts id p [] e i h = tt
spread-IsQueued ts id p (t ∷ l) e i h =
    (ground (arith, same_iff t.id id), spread-IsQueued ts id p l e i h.1)

closed-IsQueued :
    (now : ℕ) (id : Option Text) (toasts l : List Toast) (ts : Timeouts)
    → All (IsQueued ts) l
    → All (λ t. has t.id (queue_all now toasts ts) ≡ true) l
    → All
        (IsQueued (queue_dismissed now id toasts ts))
        (map (λ t. if is_id t id || is_undefined id then close t else t) l)
unfolding is_id close queue_dismissed
closed-IsQueued now id toasts [] ts h k = tt
closed-IsQueued now none toasts (t ∷ l) ts h k =
    (λ e. k.0, closed-IsQueued now none toasts l ts h.1 k.1)
closed-IsQueued now (some id) toasts (t ∷ l) ts h k = (
  ground (
    arith,
    has-queue_all now t.id toasts ts,
    has-add now t.id id ts,
    same_iff t.id id,
    same_iff id t.id,
  ),
  closed-IsQueued now (some id) toasts l ts h.1 k.1,
)

removed-IsQueued :
    (id : Text) (ts : Timeouts) (l : List Toast)
    → All (IsQueued ts) l
    → All (IsQueued (delete id ts)) (keep (λ t. not (same t.id id)) l)
removed-IsQueued id ts [] h = tt
removed-IsQueued id ts (t ∷ l) h = elim (Bool-cases (same t.id id)) [
  | inl e ↦ rw e (removed-IsQueued id ts l h.1)
  | inr e ↦ rw e (
    (λ o. ground (arith, has-delete t.id id ts, h.0 o, same_iff t.id id, same_iff id t.id)),
    removed-IsQueued id ts l h.1,
  )
]

taken-IsQueued :
    (ts : Timeouts) (n : ℕ) (l : List Toast) → All (IsQueued ts) l → All (IsQueued ts) (take n l)
taken-IsQueued ts zero l h = tt
taken-IsQueued ts (suc n) [] h = tt
taken-IsQueued ts (suc n) (t ∷ l) h = (h.0, taken-IsQueued ts n l h.1)

-- The ways in which the store changes: `toast`, the handles that it returns, `dismiss` of the hook, a
-- timeout that is pending, and mounted or unmounted hooks.
pub data Step (s : Store) : Store → Type 0 where
  toasts : (now : ℕ) (p : Props) → Step s (toast now s p).0
  updates : (now : ℕ) (id : Text) (p : Patch) → Step s (update now s id p)
  dismisses : (now : ℕ) (id : Option Text) → Step s (dispatch now s (dismiss_toast id)).0
  opens_changed : (now : ℕ) (id : Text) (b : Bool) → Step s (on_open_change now s id b)
  times_out : (now : ℕ) (id : Text) → has id s.toast_timeouts ≡ true → Step s (on_timeout now s id)
  subscribes : (l : ℕ) → Step s (subscribe l s)
  unsubscribes : (l : ℕ) → Step s (unsubscribe l s)

-- Whether a change is an `update` that sets `open` to false.
abbrev pub closes_by_update : {s t : Store} → Step s t → Bool
closes_by_update (updates now id p) = closes p
closes_by_update _ = false

weaker : (b : Bool) {P Q : Type 0} → (P → Q) → (b ≡ true) ⊎ P → ((b || false) ≡ true) ⊎ Q
weaker b f (inl e) = inl (ground arith)
weaker b f (inr h) = inr (f h)

toast-Inv :
    (b : Bool) (now : ℕ) (s : Store) (p : Props) → Inv b s → Inv (b || false) (toast now s p).0
unfolding toast
toast-Inv b now s p v = record {
  limited = rw length-take (omega arith);
  distinct = v.distinct;
  queued = inr ((λ e. cc), tt);
}

update-Inv :
    (b : Bool) (now : ℕ) (s : Store) (id : Text) (p : Patch)
    → Inv b s
    → Inv (b || closes p) (update now s id p)
unfolding update
update-Inv b now s id p v = record {
  limited = rw length-map v.limited;
  distinct = v.distinct;
  queued = elim (Bool-cases (closes p)) [
    | inl shut ↦ inl (ground arith)
    | inr stays ↦ elim v.queued [
      | inl before ↦ inl (ground arith)
      | inr h ↦ inr (
          spread-IsQueued s.toast_timeouts id (record p { id = some id }) s.memory_state.toasts
            stays refl h)
    ]
  ];
}

pub dismissed-Inv :
    (b : Bool) (now : ℕ) (s : Store) (id : Option Text)
    → Inv b s
    → Inv (b || false) (dispatch now s (dismiss_toast id)).0
unfolding dispatch
dismissed-Inv b now s id v = record {
  limited = rw length-map v.limited;
  distinct = Distinct-queue_dismissed now id s.memory_state.toasts s.toast_timeouts v.distinct;
  queued =
      weaker b
        (λ h.
          closed-IsQueued now id s.memory_state.toasts s.memory_state.toasts s.toast_timeouts h
            (queue_all-All now s.memory_state.toasts s.toast_timeouts))
        v.queued;
}

pub on_timeout-Inv :
    (b : Bool) (now : ℕ) (s : Store) (id : Text) → Inv b s → Inv (b || false) (on_timeout now s id)
unfolding on_timeout
on_timeout-Inv b now s id v = record {
  limited =
      omega (
        arith,
        v.limited,
        length-keep-le (λ (t : Toast). not (same t.id id)) s.memory_state.toasts,
      );
  distinct = Distinct-delete id s.toast_timeouts v.distinct;
  queued = weaker b (removed-IsQueued id s.toast_timeouts s.memory_state.toasts) v.queued;
}

same-Inv :
    (b : Bool) (s : Store) (l : List ℕ) → Inv b s → Inv (b || false) (record s { listeners = l })
same-Inv b s l v = record {
  limited = v.limited;
  distinct = v.distinct;
  queued = weaker b (λ h. h) v.queued;
}

-- Every call keeps at most one toast, no id queued twice for removal, and every closed toast queued,
-- where no `update` closes one.
pub Step-Inv : (b : Bool) {s t : Store} (st : Step s t) → Inv b s → Inv (b || closes_by_update st) t
unfolding on_open_change dismiss subscribe unsubscribe
Step-Inv b {s} (toasts now p) v = toast-Inv b now s p v
Step-Inv b {s} (updates now id p) v = update-Inv b now s id p v
Step-Inv b {s} (dismisses now id) v = dismissed-Inv b now s id v
Step-Inv b {s} (opens_changed now id true) v = same-Inv b s s.listeners v
Step-Inv b {s} (opens_changed now id false) v = dismissed-Inv b now s (some id) v
Step-Inv b {s} (times_out now id h) v = on_timeout-Inv b now s id v
Step-Inv b {s} (subscribes l) v = same-Inv b s (subscribe l s).listeners v
Step-Inv b {s} (unsubscribes l) v = same-Inv b s (unsubscribe l s).listeners v

-- The stores that calls lead to, with whether one of them was an `update` that sets `open` to false.
pub data Reach (s : Store) : Bool → Store → Type 0 where
  here : Reach s false s
  next :
      {b : Bool} {t u : Store}
      → Reach s b t
      → (st : Step t u) → Reach s (b || closes_by_update st) u

-- The module's initial state, before any call.
abbrev pub initial : Store
initial = record {
  count = 0;
  toast_timeouts = [];
  listeners = [];
  memory_state = record { toasts = [] };
}

Reach-Inv : {s : Store} {b : Bool} {t : Store} → Inv false s → Reach s b t → Inv b t
Reach-Inv v here = v
Reach-Inv v (next {b} r st) = Step-Inv b st (Reach-Inv v r)

-- After any sequence of calls from the initial state at most one toast is shown, no id is queued
-- twice for removal, and every closed toast is queued, unless a call of an `update` has set `open` to
-- false.
pub Reach-initial-Inv : {b : Bool} {t : Store} → Reach initial b t → Inv b t
Reach-initial-Inv r = Reach-Inv (record { limited = omega arith; distinct = tt; queued = inr tt }) r

-- An `update` that sets `open` to false closes the toast and queues nothing, so nothing removes it.
pub update_closes :
    (now : ℕ) (s : Store) (id : Text) (p : Patch)
    → p.is_open ≡ some (some false)
    → ((update now s id p).toast_timeouts ≡ s.toast_timeouts)
      × All (λ t. t.id ≡ id → t.is_open ≡ some false) (update now s id p).memory_state.toasts
unfolding update is_id spread
update_closes now s id p e = (refl, all_closed s.memory_state.toasts)
  where
    all_closed :
        (l : List Toast)
        → All
            (λ t. t.id ≡ id → t.is_open ≡ some false)
            (map (λ t. if is_id t (some id) then spread t (record p { id = some id }) else t) l)
    all_closed [] = tt
    all_closed (t ∷ l) = (λ same_id. ground (arith, same_iff t.id id), all_closed l)
