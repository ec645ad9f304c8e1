-- ===== src/Cosmos/Attempts.antt =====
-- What RetryOnPreconditionFailed does with the function that it is given.
use mathlib.Core.Path.{subst}
use aro_rp.Base.{
  ℕ, zero, suc, ◌≡◌, refl, sym, ◌∙◌, ◌≤◌, true, false, arith, ap, Bool-cases, inl, inr,
}
use aro_rp.Api.Error.{Result, ok}
use aro_rp.Action.{World, M, failed_with}
use aro_rp.Cosmos.Retry.{attempts, no_attempt, retry_on_precondition_failed}

module _ {S A : Type 0} (f : M S A) where
  -- `k` attempts of `f` from `w` on fail with 412, each from the world that the last one left, and
  -- the next one, from `w'` on, gives `r` and the world `w''`.
  pub data After : ℕ → World S → World S → Result A → World S → Type 0 where
    now : {w w'' : World S} {r : Result A} → f w ≡ (r, w'') → After 0 w w r w''
    later :
        {k : ℕ} {w w1 w' w'' : World S} {r r' : Result A}
        → f w ≡ (r, w1)
        → failed_with r 412 ≡ true
        → After k w1 w' r' w''
        → After (suc k) w w' r' w''

  attempts_stop :
      (n : ℕ) (last : Result A) (w : World S)
      → failed_with (f w).0 412 ≡ false
      → attempts (suc n) last f w ≡ f w
  unfolding attempts
  attempts_stop n last w h = rw h

  attempts_again :
      (n : ℕ) (last : Result A) (w : World S)
      → failed_with (f w).0 412 ≡ true
      → attempts (suc n) last f w ≡ attempts n (f w).0 f (f w).1
  unfolding attempts
  attempts_again n last w h = rw h

  attempts_none : (last : Result A) (w : World S) → attempts 0 last f w ≡ (last, w)
  unfolding attempts
  attempts_none last w = refl

  -- At most `n` failures with 412 come before the attempt that counts, and if that one fails so too
  -- there were `n`.
  abbrev pub Tried : ℕ → World S → Result A × World S → Type 0
  Tried n w p =
      (k : ℕ) × (w' : World S) × (k ≤ n)
      × After k w w' p.0 p.1
      × (failed_with p.0 412 ≡ true → k ≡ n)

  Tried-later :
      (n : ℕ) (w : World S) (p : Result A × World S)
      → failed_with (f w).0 412 ≡ true
      → Tried n (f w).1 p
      → Tried (suc n) w p
  Tried-later n w p h (k, w', le, a, last) =
      (suc k, w', omega arith, later refl h a, λ e. ap suc (last e))

  attempts-Tried : (n : ℕ) (last : Result A) (w : World S) → Tried n w (attempts (suc n) last f w)
  attempts-Tried zero last w = elim (Bool-cases (failed_with (f w).0 412)) [
    | inl again ↦
        rw (attempts_again zero last w again ∙ attempts_none (f w).0 (f w).1)
          (0, w, omega arith, now refl, λ e. refl)
    | inr stop ↦ rw (attempts_stop zero last w stop) (0, w, omega arith, now refl, λ e. refl)
  ]
  attempts-Tried (suc n) last w = elim (Bool-cases (failed_with (f w).0 412)) [
    | inl again ↦
        rw (attempts_again (suc n) last w again)
          (Tried-later n w _ again (attempts-Tried n (f w).0 (f w).1))
    | inr stop ↦
        rw (attempts_stop (suc n) last w stop) (0, w, omega arith, now refl, λ e. cc (sym stop ∙ e))
  ]

  -- RetryOnPreconditionFailed makes at most five attempts, each from the world that the one before
  -- left, all but the last of them failing with 412; it gives the outcome of the last, which is 412
  -- only if it is the fifth.
  pub retry-Tried : (w : World S) → Tried 4 w (retry_on_precondition_failed f w)
  unfolding retry_on_precondition_failed
  retry-Tried w = attempts-Tried 4 no_attempt w

  -- A function that does not fail with 412 is called once.
  pub retry_once :
      (w : World S) → failed_with (f w).0 412 ≡ false → retry_on_precondition_failed f w ≡ f w
  unfolding retry_on_precondition_failed
  retry_once w h = attempts_stop 4 no_attempt w h

  -- A success is the success of one attempt.
  pub After-ok : {k : ℕ} {w w' w'' : World S} {r : Result A} → After k w w' r w'' → f w' ≡ (r, w'')
  After-ok (now e) = e
  After-ok (later e h a) = After-ok a

  pub retry_ok :
      (w : World S) {a : A} {w'' : World S}
      → retry_on_precondition_failed f w ≡ (ok a, w'')
      → (w' : World S) × (f w' ≡ (ok a, w''))
  retry_ok w e = let (k, w', le, a, last) = retry-Tried w in (w', After-ok a ∙ e)

  -- The attempts before a success
  pub retry_tried :
      (w : World S) {a : A} {w'' : World S}
      → retry_on_precondition_failed f w ≡ (ok a, w'')
      → (k : ℕ) × (w' : World S) × After k w w' (ok a) w''
  retry_tried w e =
      let (k, w', le, a, last) = retry-Tried w in (k, w', subst (λ o. After k w w' o.0 o.1) e a)
