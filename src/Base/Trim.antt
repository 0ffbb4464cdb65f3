-- ===== src/Base/Trim.antt =====
-- `trim` of JavaScript's texts.
use prefixd.Base.Tests.{leb, if◌then◌else◌, ◌==◌}
use prefixd.Base.Text.{truthy, Text}
use Prim.Native.Nat.{ℕ}
use mathlib.Core.Bool.{false, true, Bool, ◌&&◌, ◌||◌}
use mathlib.Core.Path.{◌≡◌, refl, ap, ◌∙◌}
use native.Mathlib.Omega.{arith}
use mathlib.Core.List.{◌++◌, [], ◌∷◌, reverse, reverse-cons}

-- The white space that `trim` removes.
abbrev pub is_space : ℕ → Bool
is_space c =
    (leb 9 c && leb c 13)
    || c == 32
    || c == 160
    || c == 5760
    || (leb 8192 c && leb c 8202)
    || c == 8232
    || c == 8233
    || c == 8239
    || c == 8287
    || c == 12288
    || c == 65279

-- The text from its first unit on that is not white space.
unfoldable pub skip_spaces : Text → Text
skip_spaces [] = []
skip_spaces (c ∷ s) = if is_space c then skip_spaces s else c ∷ s

-- `text.trim()`.
unfoldable pub trim : Text → Text
unfolding skip_spaces
trim s = reverse (skip_spaces (reverse (skip_spaces s)))

truthy-snoc : (s : Text) (c : ℕ) → truthy (s ++ (c ∷ [])) ≡ true
truthy-snoc [] c = refl
truthy-snoc (d ∷ s) c = refl

truthy-reverse : (s : Text) → truthy (reverse s) ≡ truthy s
truthy-reverse [] = refl
truthy-reverse (c ∷ s) = ap truthy (reverse-cons c s) ∙ truthy-snoc (reverse s) c

truthy-skip_spaces :
    (s : Text) (c : ℕ) → is_space c ≡ false → truthy (skip_spaces (s ++ (c ∷ []))) ≡ true
unfolding skip_spaces
truthy-skip_spaces [] c solid = rw solid refl
truthy-skip_spaces (d ∷ s) c solid = ground (arith, truthy-skip_spaces s c solid)

-- A text that begins with no white space is not blank.
pub truthy-trim : (c : ℕ) (s : Text) → is_space c ≡ false → truthy (trim (c ∷ s)) ≡ true
unfolding trim skip_spaces
truthy-trim c s solid = rw solid (
    truthy-reverse (skip_spaces (reverse (c ∷ s)))
    ∙ ap (λ t. truthy (skip_spaces t)) (reverse-cons c s)
    ∙ truthy-skip_spaces (reverse s) c solid)
