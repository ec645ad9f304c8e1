-- ===== src/Action.antt =====
-- Go code that calls a service and may fail: explicit state passing. The state of all services is
-- one value of a type `S` that the model never looks into. Between two requests of one process the
-- other processes act: `others` is what they do before each request in turn, and nothing once the
-- list is used up. A theorem about every world is a theorem about every interleaving.
use aro_rp.Base.{
  ℕ, List, [], ◌∷◌, Bool, true, false, if◌then◌else◌, ◌≡◌, refl, ◌⊎◌, inl, inr, sym, ◌∙◌,
}
use aro_rp.Api.Error.{Error, Result, ok, err, is_error_status_code}

pub record World (S : Type 0) : Type 0 where
  pub store : S
  pub others : List (S → S)

abbrev pub M : Type 0 → Type 0 → Type 0
M S A = World S → Result A × World S

-- What the next request meets.
abbrev pub advance : {S : Type 0} → List (S → S) → S → World S
advance [] s = record { store = s; others = [] }
advance (m ∷ ms) s = record { store = m s; others = ms }

-- The state that the next request meets
abbrev pub meets : {S : Type 0} → World S → S
meets w = (advance w.others w.store).store

module _ {S A : Type 0} where
  abbrev pub pure : A → M S A
  pure a w = (ok a, w)

  abbrev pub fail : Error → M S A
  fail e w = (err e, w)

  abbrev pub lift : Result A → M S A
  lift r w = (r, w)

  -- Go code that looks at an error instead of returning it.
  abbrev pub attempt : M S A → M S (Result A)
  attempt m w = let (r, w') = m w in (ok r, w')

  -- One request to a service, after what the other processes do before it.
  abbrev pub call : (S → Result A × S) → M S A
  call f w =
      let w' = advance w.others w.store in let (r, s) = f w'.store in (r, record w' { store = s })

module _ {S A B : Type 0} where
  abbrev pub continue : Result A → (A → M S B) → M S B
  continue (ok a) f w = f a w
  continue (err e) f w = (err e, w)

  infixl 5 ◌>>=◌ ◌>>◌
  abbrev pub ◌>>=◌ : M S A → (A → M S B) → M S B
  ◌>>=◌ m f w = let (r, w') = m w in continue r f w'

  abbrev pub ◌>>◌ : M S A → M S B → M S B
  m >> n = m >>= λ _. n

module _ {S A B : Type 0} (m : M S A) (f : A → M S B) (w : World S) where
  bind_from :
      (r : Result A) (w' : World S)
      → m w ≡ (r, w')
      → ((e : Error) × (m w ≡ (err e, w')) × ((m >>= f) w ≡ (err e, w')))
        ⊎ ((a : A) × (m w ≡ (ok a, w')) × ((m >>= f) w ≡ f a w'))
  bind_from (ok a) w' e = inr (a, e, λ i. continue (e i).0 f (e i).1)
  bind_from (err x) w' e = inl (x, e, λ i. continue (e i).0 f (e i).1)

  -- Either the first action fails, or its value and its world go to the second.
  pub bind_cases :
      (w' : World S) × (((e : Error) × (m w ≡ (err e, w')) × ((m >>= f) w ≡ (err e, w')))
        ⊎ ((a : A) × (m w ≡ (ok a, w')) × ((m >>= f) w ≡ f a w')))
  bind_cases = ((m w).1, bind_from (m w).0 (m w).1 refl)

  pub bind_ok :
      {b : B} {w'' : World S}
      → (m >>= f) w ≡ (ok b, w'')
      → (a : A) × (w' : World S) × (m w ≡ (ok a, w')) × (f a w' ≡ (ok b, w''))
  bind_ok h = elim bind_cases.1 [
    | inl (e, failed, same) ↦ cc
    | inr (a, first, same) ↦ (a, bind_cases.0, first, sym same ∙ h)
  ]

  -- An error of the whole is one of its parts.
  pub bind_err :
      {e : Error} {w'' : World S}
      → (m >>= f) w ≡ (err e, w'')
      → (m w ≡ (err e, w''))
        ⊎ ((a : A) × (w' : World S) × (m w ≡ (ok a, w')) × (f a w' ≡ (err e, w'')))
  bind_err h = elim bind_cases.1 [
    | inl (x, failed, same) ↦ inl (cc (sym same ∙ h))
    | inr (a, first, same) ↦ inr (a, bind_cases.0, first, sym same ∙ h)
  ]

module _ {S A : Type 0} where
  -- A guard that fails was not met by an action that succeeds.
  pub guarded_ok :
      (b : Bool) (e : Error) (m : M S A) (w : World S) {a : A} {w' : World S}
      → (if b then fail e else m) w ≡ (ok a, w')
      → (b ≡ false) × (m w ≡ (ok a, w'))
  guarded_ok true e m w h = cc
  guarded_ok false e m w h = (refl, h)

-- The Boolean of `cosmosdb.IsErrorStatusCode(err, status)` for the error of a result.
abbrev pub failed_with {ℓ} : {A : Type ℓ} → Result A → ℕ → Bool
failed_with (ok _) status = false
failed_with (err e) status = is_error_status_code e status

-- Two continuations that agree on what the first action gives
pub bind_cong :
    {S A B : Type 0} (m : M S A) (f g : A → M S B) (w : World S)
    → ((a : A) (w' : World S) → m w ≡ (ok a, w') → f a w' ≡ g a w')
    → (m >>= f) w ≡ (m >>= g) w
bind_cong {S} {A} m f g w h = by_result (m w).0 (m w).1 refl
  where
    by_result : (r : Result A) (w' : World S) → m w ≡ (r, w') → continue r f w' ≡ continue r g w'
    by_result (ok a) w' e = h a w' e
    by_result (err x) w' e = refl
