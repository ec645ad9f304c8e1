-- ===== src/Cosmos/Exchange.antt =====
-- What an answer of the client says of the service: an accepted call rests on one exchange with
-- it, the last thing that the call did. `Q` is anything that the service and the other processes
-- keep; it holds at that exchange if it held before the call.
use mathlib.Core.Path.{subst}
use aro_rp.Base.{
  ℕ, zero, suc, String, ◌≡◌, refl, Option, none, some, List, [], ◌∷◌, arith, if_both, ap, All,
}
use aro_rp.Api.Error.{cosmos, other, ok, err}
use aro_rp.Action.{World, advance}
use aro_rp.Cosmos.Service.{Request, Response, Service, DocumentType}
use aro_rp.Cosmos.Client.{
  Outcome, answer, is_too_many, retry_after, as_result, no_outcome, do_once, do_loop, do_request,
}

-- `Q` holds now and every other process keeps it.
pub record Holds {S : Type 0} (Q : S → Type 0) (w : World S) : Type 0 where
  pub now : Q w.store
  pub others : All (λ (m : S → S). (s : S) → Q s → Q (m s)) w.others

-- Nothing to keep.
pub nothing : {S : Type 0} (w : World S) → Holds (λ _. Unit {0}) w
nothing {S} w = record { now = tt; others = trivial w.others }
  where
    trivial : (ms : List (S → S)) → All (λ (m : S → S). (s : S) → Unit {0} → Unit {0}) ms
    trivial [] = tt
    trivial (m ∷ ms) = (λ s u. u, trivial ms)

advance-Holds :
    {S : Type 0} (Q : S → Type 0) (ms : List (S → S)) (s : S)
    → Q s
    → All (λ (m : S → S). (s : S) → Q s → Q (m s)) ms
    → Holds Q (advance ms s)
advance-Holds Q [] s h k = record { now = h; others = tt }
advance-Holds Q (m ∷ ms) s h (k, ks) = record { now = k s h; others = ks }

-- The other processes act, one after the other.
abbrev pub after : {S : Type 0} → List (S → S) → S → S
after [] s = s
after (m ∷ ms) s = after ms (m s)

pub after-keeps :
    {S : Type 0} (Q : S → Type 0) (ms : List (S → S)) (s : S)
    → All (λ (m : S → S). (s : S) → Q s → Q (m s)) ms
    → Q s
    → Q (after ms s)
after-keeps Q [] s k h = h
after-keeps Q (m ∷ ms) s (k, ks) h = after-keeps Q ms (m s) ks (k s h)

-- The service answered `req` by `r`, and has been in the state `s` since.
pub record Exchange {S D : Type 0} (svc : Service S D) (Q : S → Type 0) (req : Request D)
    (r : Response D) (s : S) : Type 0 where
  pub at : S
  pub held : Q at
  pub sent : svc.send req at ≡ (some r, s)

module _ {S D : Type 0} (doc : DocumentType D) (svc : Service S D) (Q : S → Type 0)
    (keeps : (req : Request D) (s : S) → Q s → Q (svc.send req s).1) where
  answer_ok :
      (req : Request D) (a : Option (Response D))
      → (answer doc svc req a).error ≡ none
      → (r : Response D) × (a ≡ some r)
        × ((answer doc svc req a).response ≡ some r)
        × (r.status_code ≡ req.expected_status_code)
  unfolding answer
  answer_ok req none e = cc
  answer_ok req (some r) e = (r, refl, ground arith, ground arith)

  answer_cosmos :
      (req : Request D) (a : Option (Response D)) (c : ℕ)
      → (answer doc svc req a).error ≡ some (cosmos c)
      → (r : Response D) × (a ≡ some r) × (r.status_code ≡ c)
  unfolding answer
  answer_cosmos req none c e = cc
  answer_cosmos req (some r) c e = (r, refl, ground arith)

  -- An accepted request was answered with the status that it expects.
  abbrev Answered : Request D → Outcome D × World S → Type 0
  Answered req p =
      p.0.error ≡ none
      → (r : Response D) × (p.0.response ≡ some r)
        × (r.status_code ≡ req.expected_status_code)
        × Exchange svc Q req r p.1.store

  -- The status of an error is that of an answer.
  abbrev Refused : Request D → ℕ → Outcome D × World S → Type 0
  Refused req c p =
      p.0.error ≡ some (cosmos c)
      → (r : Response D) × (r.status_code ≡ c) × Exchange svc Q req r p.1.store

  once-Holds : (req : Request D) (w : World S) → Holds Q w → Holds Q (do_once doc svc req w).1
  unfolding do_once
  once-Holds req w h =
      let now = advance-Holds Q w.others w.store h.now h.others in
      record { now = keeps req (advance w.others w.store).store now.now; others = now.others }

  once_ok : (req : Request D) (w : World S) → Holds Q w → Answered req (do_once doc svc req w)
  unfolding do_once
  once_ok req w h e =
      let at = (advance w.others w.store).store in
      let (r, replied, response, status) = answer_ok req (svc.send req at).0 e in
      let now = advance-Holds Q w.others w.store h.now h.others in
      let x : Exchange svc Q req r (svc.send req at).1 = record {
        at = at;
        held = now.now;
        sent = λ i. (replied i, (svc.send req at).1);
      } in
      (r, response, status, x)

  once_cosmos :
      (req : Request D) (c : ℕ) (w : World S) → Holds Q w → Refused req c (do_once doc svc req w)
  unfolding do_once
  once_cosmos req c w h e =
      let at = (advance w.others w.store).store in
      let (r, replied, status) = answer_cosmos req (svc.send req at).0 c e in
      let now = advance-Holds Q w.others w.store h.now h.others in
      let x : Exchange svc Q req r (svc.send req at).1 = record {
        at = at;
        held = now.now;
        sent = λ i. (replied i, (svc.send req at).1);
      } in
      (r, status, x)

  module _ (P : Outcome D × World S → Type 0) (req : Request D)
      (once : (w : World S) → Holds Q w → P (do_once doc svc req w))
      (broken : (r : Option (Response D)) (m : String) (w : World S)
        → P (record { response = r; error = some (other m) }, w)) where
    loop_step :
        (n : ℕ) (last : Outcome D) (w : World S)
        → Holds Q w
        → P (do_loop doc svc n req (do_once doc svc req w).0 (do_once doc svc req w).1)
        → P (do_loop doc svc (suc n) req last w)
    unfolding do_loop
    loop_step n last w h rest =
        let o = (do_once doc svc req w).0 in
        let w' = (do_once doc svc req w).1 in
        if_both P (is_too_many o.error)
          (elim (retry_after o.response)
            as (λ after. P (elim after [
              | none ↦ (record o { error = some (other "x-ms-retry-after-ms is no number") }, w')
              | some ms ↦ do_loop doc svc n req o w'
            ])) [ none ↦ broken o.response _ w' | some ms ↦ rest ])
          (once w h)

    loop_rest :
        (n : ℕ) (last : Outcome D) (w : World S)
        → Holds Q w
        → P (last, w)
        → P (do_loop doc svc n req last w)
    unfolding do_loop
    loop_rest zero last w h p = p
    loop_rest (suc n) last w h p = loop_step n last w h (
        loop_rest n (do_once doc svc req w).0 (do_once doc svc req w).1 (once-Holds req w h)
          (once w h))

    -- What holds of every single attempt, and of a Retry-After that is no number, holds of the loop.
    loop_induction :
        (n : ℕ) (last : Outcome D) (w : World S)
        → Holds Q w
        → P (do_loop doc svc (suc n) req last w)
    loop_induction n last w h = loop_step n last w h (
        loop_rest n (do_once doc svc req w).0 (do_once doc svc req w).1 (once-Holds req w h)
          (once w h))

  as_result_ok :
      (req : Request D) (p : Outcome D × World S) {o : Option (Response D)}
      → Answered req p
      → as_result p.0 ≡ ok o
      → (r : Response D) × (o ≡ some r)
        × (r.status_code ≡ req.expected_status_code)
        × Exchange svc Q req r p.1.store
  as_result_ok req p {o} h e =
      let (r, response, status, x) = h (ground arith) in (r, ground arith, status, x)

  pub do_request_ok :
      (req : Request D) (w : World S) {o : Option (Response D)} {w' : World S}
      → Holds Q w
      → do_request doc svc req w ≡ (ok o, w')
      → (r : Response D) × (o ≡ some r)
        × (r.status_code ≡ req.expected_status_code)
        × Exchange svc Q req r w'.store
  unfolding do_request
  do_request_ok req w h e =
      let (r, found, status, x) =
        as_result_ok req (do_loop doc svc 10 req no_outcome w)
          (loop_induction (Answered req) req (once_ok req) (λ r m v h. cc) 9 no_outcome w h)
          (ap (λ p. p.0) e) in
      (r, found, status, subst (λ (z : World S). Exchange svc Q req r z.store) (ap (λ p. p.1) e) x)

  as_result_cosmos :
      (p : Outcome D × World S) (c : ℕ)
      → as_result p.0 ≡ err (cosmos c)
      → p.0.error ≡ some (cosmos c)
  as_result_cosmos p c e = ground arith

  pub do_request_cosmos :
      (req : Request D) (w : World S) (c : ℕ) {w' : World S}
      → Holds Q w
      → do_request doc svc req w ≡ (err (cosmos c), w')
      → (r : Response D) × (r.status_code ≡ c) × Exchange svc Q req r w'.store
  unfolding do_request
  do_request_cosmos req w c h e =
      let p = do_loop doc svc 10 req no_outcome w in
      let (r, status, x) =
        loop_induction (Refused req c) req (once_cosmos req c) (λ r m v h. cc) 9 no_outcome w h
          (as_result_cosmos p c (ap (λ p. p.0) e)) in
      (r, status, subst (λ (z : World S). Exchange svc Q req r z.store) (ap (λ p. p.1) e) x)
