-- ===== src/Frontend/Applied.antt =====
-- The steps that an accepted PUT or PATCH of a cluster has gone through.
use aro_rp.Base.{
  String, ◌≡◌, refl, ◌∙◌, ap, Bool, true, false, Option, [], ◌∷◌, arith, ◌||◌, if◌then◌else◌,
}
use aro_rp.Api.Error.{ok}
use aro_rp.Api.Document.{
  OpenShiftClusterDocument, SubscriptionDocument, SubscriptionState, registered, unregistered,
  warned, suspended, deleted,
}
use aro_rp.Api.Document as Document
use aro_rp.Action.{World, M, lift, ◌>>=◌, bind_ok}
use aro_rp.Frontend.{Config, Version, Request, Answer}
use aro_rp.Frontend.Gate.{
  admit, same_state, validate_subscription_state, find_cluster, new_async_operation,
}
use aro_rp.Frontend.Allowed.{IsSubscriptionOf, subscription_allowed}
use aro_rp.Frontend.Put.{store, render, apply, start, is_missing, put_or_patch_once}

is_registered : (s : SubscriptionState) → same_state s registered || false ≡ true → s ≡ registered
is_registered registered e = refl
is_registered unregistered e = cc
is_registered warned e = cc
is_registered suspended e = cc
is_registered deleted e = cc
is_registered (Document.unknown t) e = cc

module _ {S E : Type 0} (f : Config S) (version : Version S E) where
  pub render_status :
      (is_create : Bool) (x : OpenShiftClusterDocument) {a : Answer}
      → render f version is_create x ≡ ok a
      → a.status ≡ (if is_create then 201 else 200)
  unfolding render
  render_status is_create x e = ground arith

  abbrev pub after_change : Request → Bool → OpenShiftClusterDocument → M S Answer
  after_change r is_create d1 = do
    id ← new_async_operation f r d1
    u ← lift (if f.feature_operations then f.parse_url r.referer else ok tt)
    x ← store f version is_create (record d1 { async_operation_id = id })
    lift (render f version is_create x)

  pub after_change_ok :
      (r : Request) (is_create : Bool) (d1 : OpenShiftClusterDocument) (w : World S) {a : Answer}
      {w' : World S}
      → after_change r is_create d1 w ≡ (ok a, w')
      → (id : String) × (w1 : World S) × (x : OpenShiftClusterDocument) × (store f version is_create
            (record d1 { async_operation_id = id })
            w1
          ≡ (ok x, w'))
        × (render f version is_create x ≡ ok a)
  after_change_ok r is_create d1 w {a} {w'} e =
      let (id, w1, _, e1) =
        bind_ok (new_async_operation f r d1)
          (λ id. lift (if f.feature_operations then f.parse_url r.referer else ok tt) >>= λ u.
            store f version is_create (record d1 { async_operation_id = id }) >>= λ x.
            lift (render f version is_create x))
          w e in
      let (u, w2, _, e2) =
        bind_ok (lift (if f.feature_operations then f.parse_url r.referer else ok tt))
          (λ u. store f version is_create (record d1 { async_operation_id = id }) >>= λ x.
            lift (render f version is_create x))
          w1 e1 in
      let (x, w3, e3, e4) =
        bind_ok (store f version is_create (record d1 { async_operation_id = id }))
          (λ x. lift (render f version is_create x)) w2 e2 in
      (id, w2, x, e3 ∙ (λ i. (ok x, (e4 i).1)), ap (λ p. p.0) e4)

  pub after_change_rendered :
      (r : Request) (is_create : Bool) (d1 : OpenShiftClusterDocument) (w : World S) {a : Answer}
      {w' : World S}
      → after_change r is_create d1 w ≡ (ok a, w')
      → (x : OpenShiftClusterDocument) × (render f version is_create x ≡ ok a)
  after_change_rendered r is_create d1 w e =
      let (id, w1, x, stored_as, rendered) = after_change_ok r is_create d1 w e in (x, rendered)

  pub found_applied :
      (r : Request) (w : World S) {a : Answer} {w' : World S}
      → put_or_patch_once f version r w ≡ (ok a, w')
      → (subdoc : SubscriptionDocument) × (found : Option OpenShiftClusterDocument)
        × (d0 : OpenShiftClusterDocument) × (d : OpenShiftClusterDocument) × (w1 : World S)
        × (w2 : World S) × (w3 : World S) × IsSubscriptionOf f r.path w subdoc w3
        × (find_cluster f r.path w3 ≡ (ok found, w1))
        × (subdoc.subscription.state ≡ registered)
        × ((start f version r subdoc found w1).0 ≡ ok d0)
        × (admit d0 ≡ ok d)
        × (apply f version r (is_missing f version found) d w2 ≡ (ok a, w'))
  unfolding put_or_patch_once
  found_applied r w {a} {w'} e =
      let (subdoc, w1, e0, e1) =
        bind_ok (validate_subscription_state f r.path (registered ∷ []))
          (λ subdoc. find_cluster f r.path >>= λ found. start f version r subdoc found >>= λ d0.
            lift (admit d0) >>= λ d. apply f version r (is_missing f version found) d)
          w e in
      let (found, w2, sought, e2) =
        bind_ok (find_cluster f r.path)
          (λ found. start f version r subdoc found >>= λ d0.
            lift (admit d0) >>= λ d. apply f version r (is_missing f version found) d)
          w1 e1 in
      let (d0, w3, started, e3) =
        bind_ok (start f version r subdoc found)
          (λ d0. lift (admit d0) >>= λ d. apply f version r (is_missing f version found) d) w2 e2 in
      let (d, w4, admitted, e4) =
        bind_ok (lift (admit d0)) (λ d. apply f version r (is_missing f version found) d) w3 e3 in
      let (read, passed) = subscription_allowed f r.path (registered ∷ []) w e0 in
      (
        subdoc,
        found,
        d0,
        d,
        w2,
        w4,
        w1,
        read,
        sought,
        is_registered subdoc.subscription.state passed,
        ap (λ p. p.0) started,
        ap (λ p. p.0) admitted,
        e4,
      )

  pub once_applied :
      (r : Request) (w : World S) {a : Answer} {w' : World S}
      → put_or_patch_once f version r w ≡ (ok a, w')
      → (is_create : Bool) × (d : OpenShiftClusterDocument) × (w1 : World S) × (apply f version r
            is_create d w1
          ≡ (ok a, w'))
  once_applied r w e =
      let (subdoc, found, d0, d, w1, w2, _, _, _, _, started, admitted, rest) =
        found_applied r w e in
      (is_missing f version found, d, w2, rest)
