-- ===== src/Database/Clusters/Patch.antt =====
-- Read-modify-write of the cluster documents: Patch, Lease and EndLease.
use aro_rp.Base.{
  ℕ, String, ◌≡◌, ◌≢◌, refl, sym, ◌∙◌, ap, not, false, Option, none, some, List, ◌∷◌, [], arith,
  ◌==◌, eq_iff,
}
use aro_rp.Base.Text.{to_lower}
use aro_rp.Api.Error.{Result, ok, err, other, is_error_status_code}
use aro_rp.Api.Cluster.{ProvisioningState, succeeded, creating, updating, deleting, failed, unknown}
use aro_rp.Api.Document.{OpenShiftClusterDocument}
use aro_rp.Action.{World, M, pure, fail, lift, ◌>>=◌, bind_ok, guarded_ok, failed_with}
use aro_rp.Azure.{Resource, ResourceParser, parse_resource_id}
use aro_rp.Cosmos.Service.{Service, IsDocumented}
use aro_rp.Cosmos.Client.{replace, query_all, document_path}
use aro_rp.Cosmos.Exchange.{nothing}
use aro_rp.Cosmos.Replace.{overwrite-Replaced}
use aro_rp.Cosmos.Attempts.{retry_once}
use aro_rp.Cosmos.Unconditional.{Never412, never_bind, never_if, never_replace, never_query_all}
use aro_rp.Database.Clusters.{
  cluster_document, not_lower_case, partition_key, get, get_query, single, update_with,
  run_triggers, patch_once, patch_with, patch, patch_with_lease, with_lease, end_lease, ended,
}
use aro_rp.Database.Clusters.Claim.{SameContent, cluster_view}

module _ {S : Type 0} (svc : Service S OpenShiftClusterDocument) (path : String)
    (stored : S → String → String → Option OpenShiftClusterDocument) (clock : S → ℕ)
    (law : IsDocumented cluster_document svc (cluster_view stored clock)) (parse : ResourceParser)
    (uuid : String) where
  never_lift :
      (r : Result Resource)
      → failed_with
          (elim r as (λ _. Result String) [ ok r ↦ ok r.subscription_id | err e ↦ err e ])
          412
        ≡ failed_with r 412
  never_lift (ok r) = refl
  never_lift (err e) = refl

  never_parse : (key : String) → failed_with (parse_resource_id parse key) 412 ≡ false
  unfolding is_error_status_code
  never_parse key = ground arith

  never_partition : (key : String) → failed_with (partition_key svc path parse uuid key) 412 ≡ false
  unfolding partition_key
  never_partition key = never_lift (parse_resource_id parse key) ∙ never_parse key

  never_single : (ds : List OpenShiftClusterDocument) → failed_with (single ds) 412 ≡ false
  unfolding is_error_status_code
  never_single [] = refl
  never_single (d ∷ []) = refl
  never_single (d ∷ e ∷ ds) = refl

  never_fail : (s : String) → Never412 {S = S} {A = OpenShiftClusterDocument} (fail (other s))
  unfolding is_error_status_code
  never_fail s w = refl

  pub never_get : (key : String) → Never412 (get svc path parse uuid key)
  unfolding get
  never_get key =
      never_if (not (key == to_lower key)) (fail not_lower_case)
        (lift (partition_key svc path parse uuid key) >>= λ p.
          query_all cluster_document svc path p (get_query key) >>= λ docs. lift (single docs))
        (never_fail "key is not lower case")
        (never_bind (lift (partition_key svc path parse uuid key))
          (λ p.
            query_all cluster_document svc path p (get_query key) >>= λ docs. lift (single docs))
          (λ w. never_partition key)
          (λ p.
            never_bind (query_all cluster_document svc path p (get_query key))
              (λ docs. lift (single docs))
              (never_query_all cluster_document svc path (cluster_view stored clock) law p
                (get_query key))
              (λ docs w. never_single docs)))

  pub never_update :
      (d : OpenShiftClusterDocument) → Never412 (update_with svc path parse uuid d none)
  unfolding update_with
  never_update d =
      never_if (not (d.key == to_lower d.key)) (fail not_lower_case)
        (replace cluster_document svc path d.partition_key d none)
        (never_fail "key is not lower case")
        (never_replace cluster_document svc path (cluster_view stored clock) law d.partition_key d)

  pub never_patch_once :
      (key : String) (f : OpenShiftClusterDocument → M S OpenShiftClusterDocument)
      → ((d : OpenShiftClusterDocument) → Never412 (f d))
      → Never412 (patch_once svc path parse uuid key f none)
  unfolding patch_once
  never_patch_once key f h =
      never_bind (get svc path parse uuid key)
        (λ d. f d >>= λ d'. update_with svc path parse uuid d' none) (never_get key)
        (λ d. never_bind (f d) (λ d'. update_with svc path parse uuid d' none) (h d) never_update)

  -- Patch, which sends no If-Match, makes exactly one attempt whatever the other processes do, if
  -- the function it is given does not itself fail with 412: its retry is never taken.
  pub patch_once_only :
      (key : String) (f : OpenShiftClusterDocument → M S OpenShiftClusterDocument)
      → ((d : OpenShiftClusterDocument) → Never412 (f d))
      → (w : World S)
      → patch svc path parse uuid key f w ≡ patch_once svc path parse uuid key f none w
  unfolding patch patch_with
  patch_once_only key f h w =
      retry_once (patch_once svc path parse uuid key f none) w (never_patch_once key f h w)

  -- The document under `key` was read from the world `w` as `read` while its lease was this process's,
  -- and `x`, which is `run read` but for the service's own fields, is stored in its place.
  pub record IsPatched (run : OpenShiftClusterDocument → OpenShiftClusterDocument) (key : String)
      (w : World S) (s : S) (x : OpenShiftClusterDocument) : Type 0 where
    pub read : OpenShiftClusterDocument
    pub got : (get svc path parse uuid key w).0 ≡ ok read
    pub owned : read.lease_owner ≡ uuid
    pub is_stored : stored s read.partition_key (document_path path read.id) ≡ some x
    pub content : SameContent x (run read)

  -- The document under `key`, read from `w` while this process owned its lease, is stored as `x`
  -- without lease, owner and operation, in the state given; it is otherwise the one read.
  pub record IsEnded (state failed_state : ProvisioningState) (key : String) (w : World S) (s : S)
      (x : OpenShiftClusterDocument) : Type 0 where
    pub read : OpenShiftClusterDocument
    pub got : (get svc path parse uuid key w).0 ≡ ok read
    pub owned : read.lease_owner ≡ uuid
    pub is_stored : stored s read.partition_key (document_path path read.id) ≡ some x
    pub owner : x.lease_owner ≡ ""
    pub expires : x.lease_expires ≡ 0
    pub operation : x.async_operation_id ≡ ""
    pub in_state : x.open_shift_cluster.properties.provisioning_state ≡ state
    pub failed_in : x.open_shift_cluster.properties.failed_provisioning_state ≡ failed_state
    pub reset : state ≡ succeeded → x.dequeues ≡ 0
    pub counted : state ≢ succeeded → x.dequeues ≡ read.dequeues
    pub key_kept : x.key ≡ read.key
    pub id_kept : x.id ≡ read.id
    pub cluster_kept :
        record x.open_shift_cluster { properties = read.open_shift_cluster.properties }
        ≡ read.open_shift_cluster
    pub properties_kept :
        record x.open_shift_cluster.properties {
          provisioning_state = read.open_shift_cluster.properties.provisioning_state;
          failed_provisioning_state = read.open_shift_cluster.properties.failed_provisioning_state;
        }
        ≡ read.open_shift_cluster.properties

  with_lease_ok :
      (g : OpenShiftClusterDocument → OpenShiftClusterDocument) (d : OpenShiftClusterDocument)
      (w : World S) {x : OpenShiftClusterDocument} {w' : World S}
      → with_lease svc path parse uuid (λ d. pure (g d)) d w ≡ (ok x, w')
      → (d.lease_owner ≡ uuid) × (x ≡ g d)
  with_lease_ok g d w e =
      let (held, same) =
        guarded_ok (not (d.lease_owner == uuid)) (other "lost lease") (pure (g d)) w e in
      (ground (arith, eq_iff d.lease_owner uuid), cc (ap (λ p. p.0) same))

  pub update_stored :
      (d : OpenShiftClusterDocument) (w : World S) {x : OpenShiftClusterDocument} {w' : World S}
      → update_with svc path parse uuid d none w ≡ (ok x, w')
      → (stored w'.store d.partition_key (document_path path d.id) ≡ some x) × SameContent x d
  unfolding update_with run_triggers
  update_stored d w {x} {w'} e =
      let (_, sent) =
        guarded_ok (not (d.key == to_lower d.key)) not_lower_case
          (replace cluster_document svc path d.partition_key d none) w e in
      let (s, qs, c, same) =
        overwrite-Replaced cluster_document svc path (cluster_view stored clock) law (λ _. Unit {0})
          (λ req s u. u) d.partition_key d w (nothing w) sent in
      (rw same c.kept, rw same c.content)

  patched :
      (key : String) (g : OpenShiftClusterDocument → OpenShiftClusterDocument) (w : World S)
      {x : OpenShiftClusterDocument} {w' : World S}
      → ((d : OpenShiftClusterDocument) → (g d).partition_key ≡ d.partition_key)
      → ((d : OpenShiftClusterDocument) → (g d).id ≡ d.id)
      → patch_once svc path parse uuid key (with_lease svc path parse uuid (λ d. pure (g d))) none w
        ≡ (ok x, w')
      → IsPatched g key w w'.store x
  unfolding patch_once
  patched key g w {x} {w'} part id e =
      let f = with_lease svc path parse uuid (λ d. pure (g d)) in
      let (d, w1, found, e1) =
        bind_ok (get svc path parse uuid key)
          (λ d. f d >>= λ d'. update_with svc path parse uuid d' none) w e in
      let (d', w2, held, e2) =
        bind_ok (f d) (λ d'. update_with svc path parse uuid d' none) w1 e1 in
      let (owned, same) = with_lease_ok g d w1 held in
      let (kept, content) = update_stored d' w2 e2 in
      record {
        read = d;
        got = ap (λ p. p.0) found;
        owned = owned;
        is_stored = rw (same, part, id) at kept;
        content = rw same at content;
      }

  pub never_leased :
      (f : OpenShiftClusterDocument → M S OpenShiftClusterDocument)
      → ((d : OpenShiftClusterDocument) → Never412 (f d))
      → (d : OpenShiftClusterDocument) → Never412 (with_lease svc path parse uuid f d)
  never_leased f h d =
      never_if (not (d.lease_owner == uuid)) (fail (other "lost lease")) (f d)
        (never_fail "lost lease") (h d)

  -- A leased patch by a pure function reads once, from the world that it is called in.
  patch-IsPatched :
      (key : String) (g : OpenShiftClusterDocument → OpenShiftClusterDocument) (w : World S)
      {x : OpenShiftClusterDocument} {w' : World S}
      → ((d : OpenShiftClusterDocument) → (g d).partition_key ≡ d.partition_key)
      → ((d : OpenShiftClusterDocument) → (g d).id ≡ d.id)
      → patch_with_lease svc path parse uuid key (λ d. pure (g d)) none w ≡ (ok x, w')
      → IsPatched g key w w'.store x
  unfolding patch_with_lease patch_with
  patch-IsPatched key g w part id e =
      let f = with_lease svc path parse uuid (λ d. pure (g d)) in
      let once = patch_once svc path parse uuid key f none in
      patched key g w part id (
        sym (
          retry_once once w
            (never_patch_once key f (never_leased (λ d. pure (g d)) (λ d w. refl)) w))
        ∙ e)

  ended_dequeues :
      (state failed_state : ProvisioningState) (d : OpenShiftClusterDocument)
      → state ≢ succeeded
      → (ended state failed_state d).dequeues ≡ d.dequeues
  unfolding ended
  ended_dequeues succeeded failed_state d h = absurd (h refl)
  ended_dequeues creating failed_state d h = refl
  ended_dequeues updating failed_state d h = refl
  ended_dequeues deleting failed_state d h = refl
  ended_dequeues failed failed_state d h = refl
  ended_dequeues (unknown t) failed_state d h = refl

  ended_reset :
      (state failed_state : ProvisioningState) (d : OpenShiftClusterDocument)
      → state ≡ succeeded
      → (ended state failed_state d).dequeues ≡ 0
  unfolding ended
  ended_reset state failed_state d h = rw h refl

  ended_fields :
      (key : String) (state failed_state : ProvisioningState) (w : World S) {s : S}
      {x : OpenShiftClusterDocument}
      → IsPatched (ended state failed_state) key w s x
      → IsEnded state failed_state key w s x
  unfolding ended
  ended_fields key state failed_state w p = record {
    read = p.read;
    got = p.got;
    owned = p.owned;
    is_stored = p.is_stored;
    owner = ap (λ d. d.lease_owner) p.content;
    expires = ap (λ d. d.lease_expires) p.content;
    operation = ap (λ d. d.async_operation_id) p.content;
    in_state = ap (λ d. d.open_shift_cluster.properties.provisioning_state) p.content;
    failed_in = ap (λ d. d.open_shift_cluster.properties.failed_provisioning_state) p.content;
    reset = λ h. ap (λ d. d.dequeues) p.content ∙ ended_reset state failed_state p.read h;
    counted = λ h. ap (λ d. d.dequeues) p.content ∙ ended_dequeues state failed_state p.read h;
    key_kept = ap (λ d. d.key) p.content;
    id_kept = ap (λ d. d.id) p.content;
    cluster_kept =
        ap (λ d. record d.open_shift_cluster { properties = p.read.open_shift_cluster.properties })
          p.content;
    properties_kept =
        ap
          (λ d. record d.open_shift_cluster.properties {
            provisioning_state = p.read.open_shift_cluster.properties.provisioning_state;
            failed_provisioning_state =
                p.read.open_shift_cluster.properties.failed_provisioning_state;
          })
          p.content;
  }

  -- EndLease succeeds only if the document that it reads under its key, from the world that it is
  -- called in, has this process as its lease owner. The document is then stored with no lease owner, no
  -- lease and no operation, in the states given, with its dequeues reset if the state is Succeeded and
  -- kept otherwise; the rest of the document's cluster, its key and its ID are as they were read.
  pub end_lease-IsEnded :
      (key : String) (state failed_state : ProvisioningState) (w : World S)
      {x : OpenShiftClusterDocument} {w' : World S}
      → end_lease svc path parse uuid key state failed_state w ≡ (ok x, w')
      → IsEnded state failed_state key w w'.store x
  unfolding end_lease
  end_lease-IsEnded key state failed_state w e =
      ended_fields key state failed_state w
        (patch-IsPatched key (ended state failed_state) w (λ d. refl) (λ d. refl) e)
