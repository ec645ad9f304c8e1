-- ===== src/Frontend/Allowed.antt =====
-- The subscription that validateSubscriptionState lets pass.
use aro_rp.Base.{String, ◌≡◌, ◌∙◌, ap, true, Bool-cases, inl, inr, List, arith, any}
use aro_rp.Api.Error.{Error, Result, ok, err, is_error_status_code, new_cloud_error}
use aro_rp.Api.Document.{SubscriptionDocument, SubscriptionState}
use aro_rp.Action.{World, lift, attempt, ◌>>=◌, bind_ok}
use aro_rp.Azure.{Resource, parse_resource_id}
use aro_rp.Database.Subscriptions as Subscriptions
use aro_rp.Frontend.{Config}
use aro_rp.Frontend.Gate.{same_state, allow, or_missing, validate_subscription_state}

allowed_state :
    (states : List SubscriptionState) (d : SubscriptionDocument) {x : SubscriptionDocument}
    → allow states d ≡ ok x
    → any (λ t. same_state x.subscription.state t) states ≡ true
unfolding allow new_cloud_error
allowed_state states d e = ground arith

ok_same : {A : Type 0} {a b : A} → ok a ≡ ok b → a ≡ b
ok_same h = cc h

allowed_same :
    (states : List SubscriptionState) (d : SubscriptionDocument) {x : SubscriptionDocument}
    → allow states d ≡ ok x
    → d ≡ x
unfolding allow
allowed_same states d e = ground arith

present :
    {A : Type 0} (missing : Error) (r : Result A) {a : A} → or_missing missing r ≡ ok a → r ≡ ok a
present missing (ok b) e = e
present missing (err x) e = elim (Bool-cases (is_error_status_code x 404)) [
  | inl gone ↦ cc (rw gone at e)
  | inr other ↦ cc (rw other at e)
]

-- The document of the subscription that the key names, as it was read from the world `w`; the reading
-- left the world `w'`.
pub record IsSubscriptionOf {S : Type 0} (f : Config S) (key : String) (w : World S)
    (x : SubscriptionDocument) (w' : World S) : Type 0 where
  pub resource : Resource
  pub parsed : parse_resource_id f.db.parse key ≡ ok resource
  pub got :
      Subscriptions.get f.db.subscriptions f.db.subscriptions_path f.db.uuid
        resource.subscription_id w
      ≡ (ok x, w')

-- A subscription that passes was read, and is in one of the states allowed.
pub subscription_allowed :
    {S : Type 0} (f : Config S) (key : String) (states : List SubscriptionState) (w : World S)
    {x : SubscriptionDocument} {w' : World S}
    → validate_subscription_state f key states w ≡ (ok x, w')
    → IsSubscriptionOf f key w x w' × (any (λ t. same_state x.subscription.state t) states ≡ true)
unfolding validate_subscription_state
subscription_allowed f key states w {x} {w'} e =
    let missing = new_cloud_error 400 "InvalidSubscriptionState" "" in
    let (r, w1, parsed, e1) =
      bind_ok (lift (parse_resource_id f.db.parse key))
        (λ r.
          attempt (
            Subscriptions.get f.db.subscriptions f.db.subscriptions_path f.db.uuid
              r.subscription_id)
          >>= λ found. lift (or_missing missing found) >>= λ d. lift (allow states d))
        w e in
    let get =
      Subscriptions.get f.db.subscriptions f.db.subscriptions_path f.db.uuid r.subscription_id in
    let (found, w2, asked, e2) =
      bind_ok (attempt get)
        (λ found. lift (or_missing missing found) >>= λ d. lift (allow states d)) w1 e1 in
    let (d, w3, there, e3) =
      bind_ok (lift (or_missing missing found)) (λ d. lift (allow states d)) w2 e2 in
    let answer : (get w1).0 ≡ ok d =
      ok_same (ap (λ o. o.0) asked) ∙ present missing found (ap (λ o. o.0) there) in
    let read : get w1 ≡ (ok d, w') =
      λ i. (answer i, (ap (λ o. o.1) asked ∙ (ap (λ o. o.1) there ∙ ap (λ o. o.1) e3)) i) in
    (
      record {
        resource = r;
        parsed = ap (λ o. o.0) parsed;
        got =
            (λ i. get (ap (λ o. o.1) parsed i))
            ∙ (read ∙ (λ i. (ok (allowed_same states d (ap (λ o. o.0) e3) i), w')));
      },
      allowed_state states d (ap (λ p. p.0) e3),
    )
