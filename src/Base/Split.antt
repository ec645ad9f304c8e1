-- ===== src/Base/Split.antt =====
-- Go's `strings.Split` by one character, and classes of ASCII characters, for the regular expressions
-- of the validators.
use Prim.Native.Nat.{ℕ}
use Prim.Native.Char.{Char, code}
use Prim.Native.String.{String, [], ◌∷◌}
use mathlib.Core.Path.{◌≡◌, refl}
use mathlib.Core.Bool.{Bool, true, false, ◌&&◌}
use mathlib.Core.List.{List, [], ◌∷◌}
use aro_rp.Base.Test.{leb, eqb, if◌then◌else◌}

-- The character with the code, at the head of the first part
abbrev add : Char → List String → List String
add c [] = (c ∷ []) ∷ []
add c (p ∷ ps) = (c ∷ p) ∷ ps

-- split at the characters with the code `sep`
unfoldable pub split : ℕ → String → List String
split sep [] = [] ∷ []
split sep (c ∷ s) = let rest = split sep s in if eqb (code c) sep then [] ∷ rest else add c rest

-- All characters are in the class.
unfoldable pub all_chars : (ℕ → Bool) → String → Bool
all_chars p [] = true
all_chars p (c ∷ s) = p (code c) && all_chars p s

-- The first character and the last one are in the class; there are some.
unfoldable pub first_char : (ℕ → Bool) → String → Bool
first_char p [] = false
first_char p (c ∷ s) = p (code c)

unfoldable pub last_char : (ℕ → Bool) → String → Bool
last_char p [] = false
last_char p (c ∷ []) = p (code c)
last_char p (c ∷ d ∷ s) = last_char p (d ∷ s)

abbrev pub between : ℕ → ℕ → ℕ → Bool
between a b n = leb a n && leb n b

-- [0-9], [a-z], [A-Z]
abbrev pub is_digit : ℕ → Bool
is_digit n = between 48 57 n

abbrev pub is_lower : ℕ → Bool
is_lower n = between 97 122 n

abbrev pub is_upper : ℕ → Bool
is_upper n = between 65 90 n

split_test : split 47 "/a/bc" ≡ "" ∷ "a" ∷ "bc" ∷ []
unfolding split
split_test = refl
