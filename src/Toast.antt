-- ===== src/Toast.antt =====
-- The toast store of frontend/hooks/use-toast.ts: the reducer, the removal queue, the module's
-- state and its listeners. frontend/components/ui/use-toast.ts is a copy of that file.
-- The module's variables are the fields of `Store`. `setTimeout` is an entry of `toast_timeouts`
-- with the time at which it is due; the clock is an argument. A listener is a number, and a call of
-- it is an entry of the deliveries that `dispatch` returns. Of the display properties of a toast
-- `title`, `description` and `open` are kept.
pub mod Queue
pub mod Invariant
pub mod Removal
pub mod Ids
mod Tests
use prefixd.Base.{
  ℕ, suc, ◌+◌, ◌%◌, Bool, true, false, ◌||◌, not, Option, none, some, List, [], ◌∷◌, ◌++◌, map,
  take, keep, if◌then◌else◌, or_else, ◌≡◌, ◌==◌,
}
use prefixd.Base.Text.{Text, same, truthy}
use prefixd.Base.Decimal.{to_decimal}

abbrev pub toast_limit : ℕ
toast_limit = 1

abbrev pub toast_remove_delay : ℕ
toast_remove_delay = 1000000

-- `Number.MAX_SAFE_INTEGER`.
abbrev pub max_safe_integer : ℕ
max_safe_integer = 9007199254740991

pub record Toast : Type 0 where
  pub id : Text
  pub title : Option Text
  pub description : Option Text
  pub is_open : Option Bool

-- `Partial<ToasterToast>`: `none` is a key that is absent.
pub record Patch : Type 0 where
  pub id : Option Text
  pub title : Option (Option Text)
  pub description : Option (Option Text)
  pub is_open : Option (Option Bool)

pub data Action : Type 0 where
  add_toast : Toast → Action
  update_toast : Patch → Action
  dismiss_toast : Option Text → Action
  remove_toast : Option Text → Action

pub record State : Type 0 where
  pub toasts : List Toast

-- The pending timeouts: the toast's id, and when the timeout is due.
abbrev pub Timeouts : Type 0
Timeouts = List (Text × ℕ)

pub record Store : Type 0 where
  pub count : ℕ
  pub toast_timeouts : Timeouts
  pub listeners : List ℕ
  pub memory_state : State

unfoldable pub gen_id : ℕ → ℕ × Text
gen_id count = let next = (count + 1) % max_safe_integer in (next, to_decimal next)

-- `toastTimeouts.has(id)`.
unfoldable pub has : Text → Timeouts → Bool
has id [] = false
has id ((k, due) ∷ ts) = same k id || has id ts

-- `toastTimeouts.delete(id)`.
unfoldable pub delete : Text → Timeouts → Timeouts
delete id [] = []
delete id ((k, due) ∷ ts) = if same k id then delete id ts else (k, due) ∷ delete id ts

unfoldable pub add_to_remove_queue : ℕ → Text → Timeouts → Timeouts
add_to_remove_queue now id ts = if has id ts then ts else ts ++ (id, now + toast_remove_delay) ∷ []

-- `state.toasts.forEach((toast) => addToRemoveQueue(toast.id))`.
unfoldable pub queue_all : ℕ → List Toast → Timeouts → Timeouts
queue_all now [] ts = ts
queue_all now (t ∷ rest) ts = queue_all now rest (add_to_remove_queue now t.id ts)

-- `{ ...t, ...patch }`.
unfoldable pub spread : Toast → Patch → Toast
spread t p = record {
  id = or_else p.id t.id;
  title = or_else p.title t.title;
  description = or_else p.description t.description;
  is_open = or_else p.is_open t.is_open;
}

-- `t.id === id`, where `id` may be undefined.
unfoldable pub is_id : Toast → Option Text → Bool
is_id t none = false
is_id t (some id) = same t.id id

abbrev pub is_undefined : Option Text → Bool
is_undefined none = true
is_undefined (some id) = false

unfoldable pub close : Toast → Toast
close t = record t { is_open = some false }

-- The side effect of `DISMISS_TOAST`: `if (toastId) … else …`.
unfoldable pub queue_dismissed : ℕ → Option Text → List Toast → Timeouts → Timeouts
unfolding queue_all add_to_remove_queue
queue_dismissed now none toasts ts = queue_all now toasts ts
queue_dismissed now (some id) toasts ts =
    if truthy id then add_to_remove_queue now id ts else queue_all now toasts ts

unfoldable pub reducer : ℕ → State → Action → Timeouts → State × Timeouts
unfolding queue_dismissed is_id close spread
reducer now s (add_toast t) ts = (record s { toasts = take toast_limit (t ∷ s.toasts) }, ts)
reducer now s (update_toast p) ts =
    (record s { toasts = map (λ t. if is_id t p.id then spread t p else t) s.toasts }, ts)
reducer now s (dismiss_toast id) ts = (
  record s { toasts = map (λ t. if is_id t id || is_undefined id then close t else t) s.toasts },
  queue_dismissed now id s.toasts ts,
)
reducer now s (remove_toast none) ts = (record s { toasts = [] }, ts)
reducer now s (remove_toast (some id)) ts =
    (record s { toasts = keep (λ t. not (same t.id id)) s.toasts }, ts)

-- The new store, and the calls of the listeners in order.
unfoldable pub dispatch : ℕ → Store → Action → Store × List (ℕ × State)
unfolding reducer
dispatch now s a =
    let (memory, ts) = reducer now s.memory_state a s.toast_timeouts in
    (record s { memory_state = memory; toast_timeouts = ts }, map (λ l. (l, memory)) s.listeners)

-- The properties that a caller gives to `toast`.
pub record Props : Type 0 where
  pub title : Option Text
  pub description : Option Text

-- `toast(props)`: the new store, and the id under which the returned handles act.
unfoldable pub toast : ℕ → Store → Props → Store × Text
unfolding gen_id dispatch
toast now s p =
    let (next, new_id) = gen_id s.count in
    let shown : Toast = record {
      id = new_id;
      title = p.title;
      description = p.description;
      is_open = some true;
    } in
    ((dispatch now (record s { count = next }) (add_toast shown)).0, new_id)

-- The handles that `toast` returns, and the `onOpenChange` that it installs.
unfoldable pub update : ℕ → Store → Text → Patch → Store
unfolding dispatch
update now s id p = (dispatch now s (update_toast (record p { id = some id }))).0

unfoldable pub dismiss : ℕ → Store → Text → Store
unfolding dispatch
dismiss now s id = (dispatch now s (dismiss_toast (some id))).0

unfoldable pub on_open_change : ℕ → Store → Text → Bool → Store
unfolding dismiss
on_open_change now s id is_open = if not is_open then dismiss now s id else s

-- The callback of the timeout that `addToRemoveQueue` sets.
unfoldable pub on_timeout : ℕ → Store → Text → Store
unfolding dispatch delete
on_timeout now s id =
    (dispatch now (record s { toast_timeouts = delete id s.toast_timeouts })
      (remove_toast (some id))).0

-- The effect of `useToast`, and its cleanup.
unfoldable pub subscribe : ℕ → Store → Store
subscribe l s = record s { listeners = s.listeners ++ l ∷ [] }

-- `listeners.splice(listeners.indexOf(l), 1)`, if it is there.
unfoldable pub remove_first : ℕ → List ℕ → List ℕ
remove_first l [] = []
remove_first l (x ∷ xs) = if x == l then xs else x ∷ remove_first l xs

unfoldable pub unsubscribe : ℕ → Store → Store
unfolding remove_first
unsubscribe l s = record s { listeners = remove_first l s.listeners }
