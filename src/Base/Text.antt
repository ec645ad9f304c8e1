-- ===== src/Base/Text.antt =====
-- Go's `strings.ToLower` and `strings.EqualFold`. Texts are ASCII here: resource IDs, subscription
-- IDs, locations. Of a character outside A to Z nothing is changed.
use Prim.Native.Nat.{ℕ, ◌+◌, ◌≤◌, ◌<◌, compare, Ordering}
use Prim.Native.Char.{Char, char, code, IsScalar}
use Prim.Native.String.{String, [], ◌∷◌}
use mathlib.Core.Path.{◌≡◌, refl}
use mathlib.Core.Bool.{Bool, true}
use mathlib.Core.Logic.{dite}
use native.Mathlib.Decide.{dec_le}
use native.Mathlib.Omega.{arith}
use text.Mathlib.Text.{◌==◌}
use text.Mathlib.TextPositions.{eq_refl}

compare-lt : (a b : ℕ) → a < b → compare a b ≡ Ordering.lt
compare-lt a b h = ground arith

pub lower_IsScalar : (n : ℕ) → n ≤ 90 → IsScalar (n + 32)
lower_IsScalar n q = rw (compare-lt (n + 32) 55296 (omega arith)) tt

lower_char : Char → Char
lower_char c =
    dite (dec_le 65 (code c))
      (λ _.
        dite (dec_le (code c) 90) (λ q. char (code c + 32) (lower_IsScalar (code c) q)) (λ _. c))
      (λ _. c)

unfoldable pub to_lower : String → String
unfolding lower_char dec_le
to_lower [] = []
to_lower (c ∷ s) = lower_char c ∷ to_lower s

unfoldable pub equal_fold : String → String → Bool
equal_fold s t = to_lower s == to_lower t

lower_char_idem : (c : Char) → lower_char (lower_char c) ≡ lower_char c
unfolding lower_char
lower_char_idem c = ground arith

pub to_lower_idem : (s : String) → to_lower (to_lower s) ≡ to_lower s
unfolding to_lower
to_lower_idem [] = refl
to_lower_idem (c ∷ s) = cc (lower_char_idem c, to_lower_idem s)

pub equal_fold-to_lower : (s : String) → equal_fold s (to_lower s) ≡ true
unfolding equal_fold
equal_fold-to_lower s = rw (to_lower_idem s) (eq_refl (to_lower s))

to_lower_test : to_lower "/Subscriptions/A-z[" ≡ "/subscriptions/a-z["
unfolding to_lower
to_lower_test = refl
