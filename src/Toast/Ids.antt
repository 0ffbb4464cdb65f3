-- ===== src/Toast/Ids.antt =====
-- The ids of frontend/hooks/use-toast.ts: the counter of `genId` and its wrap.
use Prim.Native.Nat.{ℕ, ◌<◌}
use prefixd.Base.{◌≡◌, arith}
use prefixd.Base.Decimal.{to_decimal_injective}
use prefixd.Toast.{gen_id, max_safe_integer}

-- Two counters below `Number.MAX_SAFE_INTEGER` never generate the same id, also where the counter
-- wraps to 0, and the counter stays below it.
pub gen_id_injective :
    (m n : ℕ)
    → m < max_safe_integer
    → n < max_safe_integer
    → (gen_id m).1 ≡ (gen_id n).1
    → (m ≡ n) × ((gen_id m).0 < max_safe_integer)
unfolding gen_id
gen_id_injective m n hm hn e =
    let same_next = to_decimal_injective _ _ e in (omega (arith, same_next), omega arith)
