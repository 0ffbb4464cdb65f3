-- ===== src/Toast/Queue.antt =====
-- The removal queue of frontend/hooks/use-toast.ts: what `addToRemoveQueue` and `delete` do to the
-- keys that are pending.
use prefixd.Base.{
  ℕ, ◌+◌, true, false, ◌||◌, ◌&&◌, not, Option, none, some, List, [], ◌∷◌, ◌++◌, All, arith,
  Bool-cases, ◌≡◌, refl, inl, inr,
}
use prefixd.Base.Text.{Text, same, same_iff, same_refl, truthy}
use prefixd.Toast.{
  Timeouts, Toast, has, delete, add_to_remove_queue, queue_all, queue_dismissed, toast_remove_delay,
}

-- No key is pending twice.
abbrev pub Distinct : Timeouts → Type 0
Distinct [] = Unit
Distinct ((k, due) ∷ ts) = (has k ts ≡ false) × Distinct ts

pub has-append :
    (k id : Text) (due : ℕ) (ts : Timeouts) → has k (ts ++ (id, due) ∷ []) ≡ (has k ts || same id k)
unfolding has
has-append k id due [] = ground arith
has-append k id due ((j, d) ∷ ts) = ground (arith, has-append k id due ts)

pub has-add :
    (now : ℕ) (k id : Text) (ts : Timeouts)
    → has k (add_to_remove_queue now id ts) ≡ (has k ts || same id k)
unfolding add_to_remove_queue
has-add now k id ts = elim (Bool-cases (has id ts)) [
  | inl old ↦ ground (arith, same_iff id k)
  | inr new ↦ rw (new, has-append) refl
]

pub Distinct-append :
    (id : Text) (due : ℕ) (ts : Timeouts)
    → has id ts ≡ false
    → Distinct ts
    → Distinct (ts ++ (id, due) ∷ [])
unfolding has
Distinct-append id due [] h d = (refl, tt)
Distinct-append id due ((j, e) ∷ ts) h d = (
  ground (arith, has-append j id due ts, same_iff id j, same_iff j id),
  Distinct-append id due ts (ground arith) d.1,
)

pub Distinct-add :
    (now : ℕ) (id : Text) (ts : Timeouts) → Distinct ts → Distinct (add_to_remove_queue now id ts)
unfolding add_to_remove_queue
Distinct-add now id ts d = elim (Bool-cases (has id ts)) [
  | inl old ↦ rw old d
  | inr new ↦ rw new (Distinct-append id (now + toast_remove_delay) ts new d)
]

pub Distinct-queue_all :
    (now : ℕ) (toasts : List Toast) (ts : Timeouts)
    → Distinct ts
    → Distinct (queue_all now toasts ts)
unfolding queue_all
Distinct-queue_all now [] ts d = d
Distinct-queue_all now (t ∷ rest) ts d =
    Distinct-queue_all now rest (add_to_remove_queue now t.id ts) (Distinct-add now t.id ts d)

-- What is pending stays pending.
pub has-queue_all :
    (now : ℕ) (k : Text) (toasts : List Toast) (ts : Timeouts)
    → has k ts ≡ true
    → has k (queue_all now toasts ts) ≡ true
unfolding queue_all
has-queue_all now k [] ts h = h
has-queue_all now k (t ∷ rest) ts h =
    has-queue_all now k rest (add_to_remove_queue now t.id ts) (rw (has-add, h) refl)

-- Every toast of the list is pending afterwards.
pub queue_all-All :
    (now : ℕ) (toasts : List Toast) (ts : Timeouts)
    → All (λ t. has t.id (queue_all now toasts ts) ≡ true) toasts
unfolding queue_all
queue_all-All now [] ts = tt
queue_all-All now (t ∷ rest) ts = (
  has-queue_all now t.id rest _ (rw has-add (ground (arith, same_refl t.id))),
  queue_all-All now rest (add_to_remove_queue now t.id ts),
)

pub has-delete :
    (k id : Text) (ts : Timeouts) → has k (delete id ts) ≡ (has k ts && not (same id k))
unfolding has delete
has-delete k id [] = refl
has-delete k id ((j, d) ∷ ts) =
    ground (arith, has-delete k id ts, same_iff j id, same_iff j k, same_iff id k)

pub Distinct-delete : (id : Text) (ts : Timeouts) → Distinct ts → Distinct (delete id ts)
unfolding delete
Distinct-delete id [] d = tt
Distinct-delete id ((j, e) ∷ ts) d = elim (Bool-cases (same j id)) [
  | inl gone ↦ rw gone (Distinct-delete id ts d.1)
  | inr kept ↦ rw kept (ground (arith, has-delete j id ts), Distinct-delete id ts d.1)
]

pub has-queue_dismissed :
    (now : ℕ) (k : Text) (id : Option Text) (toasts : List Toast) (ts : Timeouts)
    → has k ts ≡ true
    → has k (queue_dismissed now id toasts ts) ≡ true
unfolding queue_dismissed
has-queue_dismissed now k none toasts ts h = has-queue_all now k toasts ts h
has-queue_dismissed now k (some id) toasts ts h = elim (Bool-cases (truthy id)) [
  | inl e ↦ rw e (rw (has-add, h) refl)
  | inr e ↦ rw e (has-queue_all now k toasts ts h)
]

pub Distinct-queue_dismissed :
    (now : ℕ) (id : Option Text) (toasts : List Toast) (ts : Timeouts)
    → Distinct ts
    → Distinct (queue_dismissed now id toasts ts)
unfolding queue_dismissed
Distinct-queue_dismissed now none toasts ts d = Distinct-queue_all now toasts ts d
Distinct-queue_dismissed now (some id) toasts ts d = elim (Bool-cases (truthy id)) [
  | inl e ↦ rw e (Distinct-add now id ts d)
  | inr e ↦ rw e (Distinct-queue_all now toasts ts d)
]
