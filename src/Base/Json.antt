-- ===== src/Base/Json.antt =====
-- The values that `JSON.stringify` is given as the body of a request.
use prefixd.Base.Text.{Text}
use prefixd.Base.Numbers.{Number}
use Prim.Native.Nat.{ℕ}
use mathlib.Core.Bool.{Bool, false}
use mathlib.Core.List.{List, [], ◌∷◌}
use mathlib.Core.Option.{Option, none, some}

mutual
  pub data Json : Type 0 where
    null : Json
    boolean : Bool → Json
    number : Number → Json
    string : Text → Json
    array : Items → Json
    object : Fields → Json

  pub data Items : Type 0 where
    nil : Items
    cons : Json → Items → Items

  pub data Fields : Type 0 where
    end : Fields
    field : Text → Json → Fields → Fields

-- A field that is left out where the value is `undefined`.
abbrev pub optional : {A : Type 0} → Text → (A → Json) → Option A → Fields → Fields
optional name f none rest = rest
optional name f (some a) rest = field name (f a) rest

-- `null` where there is no value.
abbrev pub nullable : {A : Type 0} → (A → Json) → Option A → Json
nullable f none = null
nullable f (some a) = f a

abbrev pub items : {A : Type 0} → (A → Json) → List A → Items
items f [] = nil
items f (a ∷ l) = cons (f a) (items f l)

-- A natural number.
abbrev pub natural : ℕ → Json
natural n = number (Number.finite false n 0)
