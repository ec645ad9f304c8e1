-- ===== src/Database/Subscriptions/Patch.antt =====
-- Read-modify-write of the subscription documents: Lease and EndLease.
use aro_rp.Base.{
  ℕ, String, ◌≡◌, refl, sym, ◌∙◌, ap, not, false, Bool, Option, none, some, arith, if◌then◌else◌,
  ◌==◌, eq_iff, ◌||◌,
}
use aro_rp.Base.Text.{to_lower}
use aro_rp.Api.Error.{ok, other, is_error_status_code}
use aro_rp.Api.Document.{SubscriptionDocument}
use aro_rp.Action.{World, pure, fail, ◌>>=◌, bind_ok, guarded_ok}
use aro_rp.Cosmos.Service.{Service, View, IsDocumented}
use aro_rp.Cosmos.Client.{get_document, replace, document_path}
use aro_rp.Cosmos.Exchange.{nothing}
use aro_rp.Cosmos.Replace.{overwrite-Replaced}
use aro_rp.Cosmos.Attempts.{retry_once}
use aro_rp.Cosmos.Unconditional.{Never412, never_bind, never_if, never_replace, never_get_document}
use aro_rp.Database.Subscriptions.{
  subscription_document, run_triggers, not_lower_case, get, update_with, patch_once, patch_with,
  patch_with_lease, with_lease, lease, end_lease, ended,
}

-- Equal but for the fields that the service keeps.
abbrev pub SameContent : SubscriptionDocument → SubscriptionDocument → Type 0
SameContent d b = record d { metadata = b.metadata } ≡ b

abbrev pub subscription_view :
    {S : Type 0}
    → (S → String → String → Option SubscriptionDocument)
    → (S → ℕ)
    → View S SubscriptionDocument
subscription_view stored clock = record {
  stored = stored;
  clock = clock;
  run = run_triggers;
  SameContent = SameContent;
}

module _ {S : Type 0} (svc : Service S SubscriptionDocument) (path : String)
    (stored : S → String → String → Option SubscriptionDocument) (clock : S → ℕ)
    (law : IsDocumented subscription_document svc (subscription_view stored clock))
    (uuid : String) where
  -- The document with the ID `id` was read from the world `w` as `read` while its lease was this
  -- process's, and `x`, which is `run read` but for the service's own fields, is stored in its place.
  pub record IsRewritten (run : SubscriptionDocument → SubscriptionDocument) (id : String)
      (w : World S) (s : S) (x : SubscriptionDocument) : Type 0 where
    pub read : SubscriptionDocument
    pub got : (get svc path uuid id w).0 ≡ ok read
    pub owned : read.lease_owner ≡ uuid
    pub is_stored : stored s read.id (document_path path read.id) ≡ some x
    pub content : SameContent x (run read)

  owner_ok :
      (g : SubscriptionDocument → SubscriptionDocument) (d : SubscriptionDocument) (w : World S)
      {x : SubscriptionDocument} {w' : World S}
      → with_lease svc path uuid (λ d. pure (g d)) d w ≡ (ok x, w')
      → (d.lease_owner ≡ uuid) × (x ≡ g d)
  owner_ok g d w e =
      let (held, same) =
        guarded_ok (not (d.lease_owner == uuid)) (other "lost lease") (pure (g d)) w e in
      (ground (arith, eq_iff d.lease_owner uuid), cc (ap (λ p. p.0) same))

  kept_update :
      (d : SubscriptionDocument) (w : World S) {x : SubscriptionDocument} {w' : World S}
      → update_with svc path uuid d none w ≡ (ok x, w')
      → (stored w'.store d.id (document_path path d.id) ≡ some x) × SameContent x d
  unfolding update_with run_triggers
  kept_update d w e =
      let (_, sent) =
        guarded_ok (not (d.id == to_lower d.id)) not_lower_case
          (replace subscription_document svc path d.id d none) w e in
      let (s, qs, c, same) =
        overwrite-Replaced subscription_document svc path (subscription_view stored clock) law
          (λ _. Unit {0}) (λ req s u. u) d.id d w (nothing w) sent in
      (rw same c.kept, rw same c.content)

  rewritten :
      (id : String) (g : SubscriptionDocument → SubscriptionDocument) (w : World S)
      {x : SubscriptionDocument} {w' : World S}
      → ((d : SubscriptionDocument) → (g d).id ≡ d.id)
      → patch_once svc path uuid id (with_lease svc path uuid (λ d. pure (g d))) none w ≡ (ok x, w')
      → IsRewritten g id w w'.store x
  unfolding patch_once
  rewritten id g w same_id e =
      let f = with_lease svc path uuid (λ d. pure (g d)) in
      let (d, w1, found, e1) =
        bind_ok (get svc path uuid id) (λ d. f d >>= λ d'. update_with svc path uuid d' none) w e in
      let (d', w2, held, e2) = bind_ok (f d) (λ d'. update_with svc path uuid d' none) w1 e1 in
      let (owned, same) = owner_ok g d w1 held in
      let (kept, content) = kept_update d' w2 e2 in
      record {
        read = d;
        got = ap (λ p. p.0) found;
        owned = owned;
        is_stored = rw (same, same_id) at kept;
        content = rw same at content;
      }

  never_fail : (t : String) → Never412 {S = S} {A = SubscriptionDocument} (fail (other t))
  unfolding is_error_status_code
  never_fail t w = refl

  never_get : (id : String) → Never412 (get svc path uuid id)
  unfolding get
  never_get id =
      never_if (not (id == to_lower id)) (fail not_lower_case)
        (get_document subscription_document svc path id id none) (never_fail "id is not lower case")
        (never_get_document subscription_document svc path (subscription_view stored clock) law id
          id)

  never_update : (d : SubscriptionDocument) → Never412 (update_with svc path uuid d none)
  unfolding update_with
  never_update d =
      never_if (not (d.id == to_lower d.id)) (fail not_lower_case)
        (replace subscription_document svc path d.id d none) (never_fail "id is not lower case")
        (never_replace subscription_document svc path (subscription_view stored clock) law d.id d)

  never_once :
      (id : String) (g : SubscriptionDocument → SubscriptionDocument)
      → Never412 (patch_once svc path uuid id (with_lease svc path uuid (λ d. pure (g d))) none)
  unfolding patch_once
  never_once id g =
      let f = with_lease svc path uuid (λ d. pure (g d)) in
      never_bind (get svc path uuid id) (λ d. f d >>= λ d'. update_with svc path uuid d' none)
        (never_get id)
        (λ d.
          never_bind (f d) (λ d'. update_with svc path uuid d' none)
            (never_if (not (d.lease_owner == uuid)) (fail (other "lost lease")) (pure (g d))
              (never_fail "lost lease") (λ w. refl))
            never_update)

  leased_rewrite :
      (id : String) (g : SubscriptionDocument → SubscriptionDocument) (w : World S)
      {x : SubscriptionDocument} {w' : World S}
      → ((d : SubscriptionDocument) → (g d).id ≡ d.id)
      → patch_with svc path uuid id (with_lease svc path uuid (λ d. pure (g d))) none w ≡ (ok x, w')
      → IsRewritten g id w w'.store x
  unfolding patch_with
  leased_rewrite id g w same_id e =
      let once = patch_once svc path uuid id (with_lease svc path uuid (λ d. pure (g d))) none in
      rewritten id g w same_id (sym (retry_once once w (never_once id g w)) ∙ e)

  -- Lease of a subscription succeeds only if the document that it reads under the ID, from the world
  -- that it is called in, has this process as its lease owner, and stores that document as it was read:
  -- the time at which the lease ends is not moved, so that a lease is not renewed.
  pub lease-IsRewritten :
      (id : String) (w : World S) {x : SubscriptionDocument} {w' : World S}
      → lease svc path uuid id w ≡ (ok x, w')
      → (r : IsRewritten (λ d. d) id w w'.store x) × (x.lease_expires ≡ r.read.lease_expires)
  unfolding lease patch_with_lease
  lease-IsRewritten id w e =
      let r = leased_rewrite id (λ d. d) w (λ d. refl) e in (r, ap (λ d. d.lease_expires) r.content)

  -- EndLease of a subscription succeeds only for the owner of the lease and leaves the document
  -- without a lease. Deleting is cleared if the work is done, the dequeues are reset if it is done or
  -- is to be tried again later, and in each case the lease ends at the time 0.
  end_lease-IsRewritten :
      (id : String) (done retry : Bool) (w : World S) {x : SubscriptionDocument} {w' : World S}
      → end_lease svc path uuid id done retry w ≡ (ok x, w')
      → (r : IsRewritten (ended done retry) id w w'.store x) × (x.lease_owner ≡ "")
        × (x.lease_expires ≡ 0)
        × (x.deleting ≡ (if done then false else r.read.deleting))
        × (x.dequeues ≡ (if done || retry then 0 else r.read.dequeues))
  unfolding end_lease patch_with_lease ended
  end_lease-IsRewritten id done retry w e =
      let r = leased_rewrite id (ended done retry) w (λ d. refl) e in
      (
        r,
        ap (λ d. d.lease_owner) r.content,
        ap (λ d. d.lease_expires) r.content,
        ap (λ d. d.deleting) r.content,
        ap (λ d. d.dequeues) r.content,
      )
