-- ===== src/Backend/Scale.antt =====
-- pkg/backend/openshiftcluster/update.go: how many replicas each worker machine set is to have. The
-- calls of the cluster's API before and after are not modelled.
use aro_rp.Base.{
  ℕ, zero, suc, ◌+◌, ◌-◌, ◌≤◌, ◌<◌, ◌≡◌, refl, sym, ◌∙◌, ap, ◌⊎◌, inl, inr, Bool, true, false,
  Bool-cases, Option-cases, ◌++◌, Option, none, some, List, [], ◌∷◌, length, ltb, arith,
  if◌then◌else◌,
}

-- An element by its index; an index out of range, which Go would panic on, is not met.
abbrev pub at : List ℕ → ℕ → ℕ
at [] i = 0
at (r ∷ rs) zero = r
at (r ∷ rs) (suc i) = at rs i

abbrev pub sum : List ℕ → ℕ
sum [] = 0
sum (r ∷ rs) = r + sum rs

abbrev pub adjust : (ℕ → ℕ) → List ℕ → ℕ → List ℕ
adjust g [] i = []
adjust g (r ∷ rs) zero = g r ∷ rs
adjust g (r ∷ rs) (suc i) = r ∷ adjust g rs i

-- the loop of `find`: `n` indices are left, from `i` on, and `j` is the best so far
unfoldable pub scan : (ℕ → ℕ → Bool) → ℕ → ℕ → ℕ → ℕ
scan f zero i j = j
scan f (suc n) i j = scan f n (suc i) (if f i j then i else j)

-- find, as an index
unfoldable pub find : (ℕ → ℕ → Bool) → List ℕ → ℕ
unfolding scan
find f rs = scan f (length rs) 0 0

abbrev pub largest : List ℕ → ℕ
largest rs = find (λ i j. ltb (at rs j) (at rs i)) rs

abbrev pub smallest : List ℕ → ℕ
smallest rs = find (λ i j. ltb (at rs i) (at rs j)) rs

-- the loop that scales down, `n` times
unfoldable pub shrink : ℕ → List ℕ → List ℕ
unfolding find
shrink zero rs = rs
shrink (suc n) rs = shrink n (adjust (λ r. r - 1) rs (largest rs))

-- the loop that scales up, `n` times
unfoldable pub grow : ℕ → List ℕ → List ℕ
unfolding find
grow zero rs = rs
grow (suc n) rs = grow n (adjust suc rs (smallest rs))

-- The first loop: a machine set without a number of replicas counts as one. The number is set in a
-- copy of the machine set only.
unfoldable pub have : List (Option ℕ) → ℕ
have [] = 0
have (none ∷ ms) = 1 + have ms
have (some r ∷ ms) = r + have ms

-- The replicas as they are read after it; `none` is a panic on a nil pointer.
unfoldable pub replicas : List (Option ℕ) → Option (List ℕ)
replicas [] = some []
replicas (none ∷ ms) = none
replicas (some r ∷ ms) = elim (replicas ms) [ none ↦ none | some rs ↦ some (r ∷ rs) ]

-- What the machine sets are scaled to for `count` workers.
unfoldable pub wanted : ℕ → List (Option ℕ) → Option (List ℕ)
unfolding have replicas shrink grow
wanted count ms = elim (replicas ms) [
  | none ↦ none
  | some rs ↦ some (grow (count - have ms) (shrink (have ms - count) rs))
]

module _ (g : ℕ → ℕ) (f : ℕ → ℕ → Bool) (L : ℕ) where
  scan_bound : (n i j : ℕ) → j < L → i + n ≤ L → scan f n i j < L
  unfolding scan
  scan_bound zero i j h k = h
  scan_bound (suc n) i j h k = elim (Bool-cases (f i j)) [
    | inl e ↦ rw e (scan_bound n (suc i) i (omega arith) (omega arith))
    | inr e ↦ rw e (scan_bound n (suc i) j h (omega arith))
  ]

  -- `f` prefers the larger `g`: the result is a largest one.
  scan_largest :
      ((i j : ℕ) → f i j ≡ true → g j ≤ g i)
      → ((i j : ℕ) → f i j ≡ false → g i ≤ g j)
      → (n i j : ℕ) → ((k : ℕ) → k < i → g k ≤ g j)
      → (k : ℕ) → k < i + n
      → g k ≤ g (scan f n i j)
  unfolding scan
  scan_largest up down zero i j h k lt = h k (omega arith)
  scan_largest up down (suc n) i j h k lt = elim (Bool-cases (f i j)) [
    | inl e ↦
        rw e (scan_largest up down n (suc i) i (λ m l. at_most m l (up i j e)) k (omega arith))
    | inr e ↦ rw e (
        scan_largest up down n (suc i) j
          (λ m l. elim (below m l) [ inl b ↦ h m b | inr same ↦ rw same (down i j e) ]) k
          (omega arith))
  ]
    where
      below : (m : ℕ) → m < suc i → (m < i) ⊎ (m ≡ i)
      below m l = omega arith

      at_most : (m : ℕ) → m < suc i → g j ≤ g i → g m ≤ g i
      at_most m l c = elim (below m l) [
        | inl b ↦ omega (arith, h m b)
        | inr same ↦ rw same (omega arith)
      ]

sum-dec : (rs : List ℕ) (i : ℕ) → 1 ≤ at rs i → suc (sum (adjust (λ r. r - 1) rs i)) ≡ sum rs
sum-dec [] i h = absurd (omega arith)
sum-dec (r ∷ rs) zero h = omega arith
sum-dec (r ∷ rs) (suc i) h = omega (arith, sum-dec rs i h)

sum-inc : (rs : List ℕ) (i : ℕ) → i < length rs → sum (adjust suc rs i) ≡ suc (sum rs)
sum-inc [] i h = absurd (omega arith)
sum-inc (r ∷ rs) zero h = omega arith
sum-inc (r ∷ rs) (suc i) h = omega (arith, sum-inc rs i (omega arith))

length-adjust : (g : ℕ → ℕ) (rs : List ℕ) (i : ℕ) → length (adjust g rs i) ≡ length rs
length-adjust g [] i = refl
length-adjust g (r ∷ rs) zero = refl
length-adjust g (r ∷ rs) (suc i) = ap suc (length-adjust g rs i)

-- Something is left where the sum is not 0.
positive : (rs : List ℕ) → 1 ≤ sum rs → (i : ℕ) × (i < length rs) × (1 ≤ at rs i)
positive [] h = absurd (omega arith)
positive (zero ∷ rs) h = let (i, l, p) = positive rs (omega arith) in (suc i, omega arith, p)
positive (suc r ∷ rs) h = (0, omega arith, omega arith)

ltb-true : (a b : ℕ) → ltb a b ≡ true → a < b
ltb-true a b e = ground arith

ltb-false : (a b : ℕ) → ltb a b ≡ false → b ≤ a
ltb-false a b e = ground arith

largest-positive : (rs : List ℕ) → 1 ≤ sum rs → 1 ≤ at rs (largest rs)
unfolding find
largest-positive rs h =
    let (i, l, p) = positive rs h in
    let top =
      scan_largest (at rs) (λ i j. ltb (at rs j) (at rs i)) (length rs)
        (λ i j e. omega (arith, ltb-true (at rs j) (at rs i) e))
        (λ i j e. ltb-false (at rs j) (at rs i) e) (length rs) 0 0 (λ k l. absurd (omega arith)) i
        (omega arith) in
    omega arith

smallest-bound : (rs : List ℕ) → 1 ≤ length rs → smallest rs < length rs
unfolding find
smallest-bound rs h =
    scan_bound (at rs) (λ i j. ltb (at rs i) (at rs j)) (length rs) (length rs) 0 0 h (omega arith)

sum-shrink :
    (n : ℕ) (rs : List ℕ)
    → n ≤ sum rs
    → (sum (shrink n rs) + n ≡ sum rs) × (length (shrink n rs) ≡ length rs)
unfolding shrink
sum-shrink zero rs h = (omega arith, refl)
sum-shrink (suc n) rs h =
    let less = adjust (λ r. r - 1) rs (largest rs) in
    let one = sum-dec rs (largest rs) (largest-positive rs (omega arith)) in
    let (total, len) = sum-shrink n less (omega (arith, one)) in
    (omega (arith, total, one), len ∙ length-adjust (λ r. r - 1) rs (largest rs))

sum-grow :
    (n : ℕ) (rs : List ℕ)
    → 1 ≤ length rs
    → (sum (grow n rs) ≡ sum rs + n) × (length (grow n rs) ≡ length rs)
unfolding grow
sum-grow zero rs h = (omega arith, refl)
sum-grow (suc n) rs h =
    let more = adjust suc rs (smallest rs) in
    let one = sum-inc rs (smallest rs) (smallest-bound rs h) in
    let len1 = length-adjust suc rs (smallest rs) in
    let (total, len) = sum-grow n more (omega (arith, len1)) in
    (omega (arith, total, one), len ∙ len1)

replicas_cons :
    (r : ℕ) (ms : List (Option ℕ)) (rs : List ℕ)
    → replicas ms ≡ some rs
    → replicas (some r ∷ ms) ≡ some (r ∷ rs)
unfolding replicas
replicas_cons r ms rs e = rw e

replicas-none : (r : ℕ) (ms : List (Option ℕ)) → replicas ms ≡ none → replicas (some r ∷ ms) ≡ none
unfolding replicas
replicas-none r ms e = rw e

replicas-sum :
    (ms : List (Option ℕ)) (rs : List ℕ)
    → replicas ms ≡ some rs
    → (have ms ≡ sum rs) × (length ms ≡ length rs)
unfolding have replicas
replicas-sum [] rs e = ground arith
replicas-sum (none ∷ ms) rs e = cc e
replicas-sum (some r ∷ ms) rs e = elim (Option-cases (replicas ms)) [
  | inl n ↦ cc (sym (replicas-none r ms n) ∙ e)
  | inr (ts, h) ↦
      let (total, len) = replicas-sum ms ts h in
      let same : r ∷ ts ≡ rs = cc (sym (replicas_cons r ms ts h) ∙ e) in
      (omega (arith, total, ap sum same), omega (arith, len, ap length same))
]

scaled_to :
    (count : ℕ) (rs : List ℕ)
    → 1 ≤ length rs
    → (sum (grow (count - sum rs) (shrink (sum rs - count) rs)) ≡ count)
      × (length (grow (count - sum rs) (shrink (sum rs - count) rs)) ≡ length rs)
scaled_to count rs h =
    let (down, len) = sum-shrink (sum rs - count) rs (omega arith) in
    let (up, len1) = sum-grow (count - sum rs) (shrink (sum rs - count) rs) (omega (arith, len)) in
    (omega (arith, down, up), len1 ∙ len)

-- If the two loops of Update end without a panic, every machine set has its number of replicas, and
-- the numbers add up to the number of workers asked for.
pub wanted-sum :
    (count : ℕ) (ms : List (Option ℕ)) (rs : List ℕ)
    → 1 ≤ length ms
    → wanted count ms ≡ some rs
    → (sum rs ≡ count) × (length rs ≡ length ms)
unfolding wanted
wanted-sum count ms rs h e = elim (Option-cases (replicas ms)) [
  | inl n ↦ cc (rw (wanted, n) at e)
  | inr (ts, k) ↦
      let (total, len) = replicas-sum ms ts k in
      let result : some (grow (count - have ms) (shrink (have ms - count) ts)) ≡ some rs =
        rw (wanted, k) at e in
      let same : grow (count - sum ts) (shrink (sum ts - count) ts) ≡ rs =
        cc (rw total at result) in
      let (all, len1) = scaled_to count ts (omega (arith, len)) in
      (sym (ap sum same) ∙ all, omega (arith, len1, len, ap length same))
]

replicas_nil : (before after : List (Option ℕ)) → replicas (before ++ (none ∷ after)) ≡ none
unfolding replicas
replicas_nil [] after = refl
replicas_nil (none ∷ before) after = refl
replicas_nil (some r ∷ before) after =
    replicas-none r (before ++ (none ∷ after)) (replicas_nil before after)

-- A machine set whose number of replicas is nil makes Update panic, although the first loop means
-- to set it to 1.
nil_panics :
    (count : ℕ) (before after : List (Option ℕ)) → wanted count (before ++ (none ∷ after)) ≡ none
unfolding wanted
nil_panics count before after = rw (wanted, replicas_nil before after) refl
