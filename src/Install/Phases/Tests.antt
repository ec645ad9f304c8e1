-- ===== src/Install/Phases/Tests.antt =====
-- A run of Install on the service in memory, where nobody else writes, and the theorem there.
use aro_rp.Base.{ℕ, suc, String, ◌≡◌, refl, sym, ◌∙◌, ap, ◌⊎◌, inl, inr, none, some, []}
use mathlib.Core.Path.{subst}
use aro_rp.Base.Text.{to_lower}
use aro_rp.Api.Error.{Error, Result, ok, err, other, is_error_status_code, bind}
use aro_rp.Api.Cluster.{Properties, remove_bootstrap}
use aro_rp.Api.Document.{OpenShiftClusterDocument}
use aro_rp.Action.{World, M, pure, fail, continue, failed_with}
use aro_rp.Cosmos.Memory.{Memory, memory, stored, tag, memory-IsDocumented}
use aro_rp.Cosmos.Client.{
  query_all, all_loop, next, open_query, replace, do_loop, do_once, document_path,
}
use aro_rp.Cosmos.Attempts.{retry_once}
use aro_rp.Cosmos.Retry.{retry_on_precondition_failed}
use aro_rp.Database.Clusters.{
  run_triggers, update_with, patch_once, patch_with, patch_with_lease, with_lease, get,
  partition_key,
}
use aro_rp.Database.Tests.{cluster_layout, parser, cluster, document}
use aro_rp.Install.Phases.{Phases, begun, advanced, finished, run_phases, install}
use aro_rp.Install.Phases as Phases
use aro_rp.Install.Phases.Changes.{IsPlain, installed}
use aro_rp.Install.Phases.Ending.{IsHeld, Leaves, Installed}
use aro_rp.Install.Phases.Resumed.{install-Installed}

abbrev held : Properties → String → OpenShiftClusterDocument
held p e = record document {
  lease_owner = "me";
  metadata = record document.metadata { etag = e };
  open_shift_cluster = record cluster { properties = p };
}

abbrev at : Properties → String → ℕ → World (Memory OpenShiftClusterDocument)
at p e v = record {
  store = record {
    partition = "sub";
    path = "docs/docs/1";
    content = held p e;
    version = v;
    clock = 1000;
  };
  others = [];
}

module _ (phases : Phases (Memory OpenShiftClusterDocument)) (f : Properties → Result Properties)
    (p : Properties) (e : String) (v : ℕ) where
  abbrev changed : Properties → Result OpenShiftClusterDocument
  changed q =
      ok (record (held p (tag v)) { open_shift_cluster = record cluster { properties = q } })

  abbrev update :
      OpenShiftClusterDocument → M (Memory OpenShiftClusterDocument) OpenShiftClusterDocument
  update d = update_with (memory cluster_layout) "docs" parser "me" d none

  abbrev once : M (Memory OpenShiftClusterDocument) OpenShiftClusterDocument
  once =
      patch_once (memory cluster_layout) "docs" parser "me" "/subscriptions/sub/c"
        (with_lease (memory cluster_layout) "docs" parser "me"
          (Phases.on_properties (memory cluster_layout) "docs" parser "me" phases f))
        none

  once_reads : once (at p e v) ≡ continue (bind (f p) changed) update (at p e v)
  unfolding patch_once get partition_key query_all all_loop next open_query do_loop do_once to_lower
      run_triggers
  once_reads = refl

  updates :
      (q : Properties)
      → update (held q (tag v)) (at p e v) ≡ (ok (held q (tag (suc v))), at q (tag v) (suc v))
  unfolding update_with replace do_loop do_once to_lower run_triggers
  updates q = refl

  patch_ok :
      (q : Properties)
      → f p ≡ ok q
      → Phases.patch (memory cluster_layout) "docs" parser "me" phases f (held p (tag v)) (at p e v)
        ≡ (ok (held q (tag (suc v))), at q (tag v) (suc v))
  unfolding Phases.patch patch_with_lease patch_with
  patch_ok q h =
      let done : once (at p e v) ≡ (ok (held q (tag (suc v))), at q (tag v) (suc v)) =
        once_reads ∙ (λ j. continue (bind (h j) changed) update (at p e v)) ∙ updates q in
      retry_once once (at p e v) (ap (λ o. failed_with o.0 412) done) ∙ done

  patch_err :
      (t : String)
      → f p ≡ err (other t)
      → Phases.patch (memory cluster_layout) "docs" parser "me" phases f (held p (tag v)) (at p e v)
        ≡ (err (other t), at p e v)
  unfolding Phases.patch patch_with_lease patch_with is_error_status_code
  patch_err t h =
      let done : once (at p e v) ≡ (err (other t), at p e v) =
        once_reads ∙ (λ j. continue (bind (h j) changed) update (at p e v)) in
      retry_once once (at p e v) (ap (λ o. failed_with o.0 412) done) ∙ done

-- The world holds the document.
record Agrees (d : OpenShiftClusterDocument) (w : World (Memory OpenShiftClusterDocument))
    : Type 0 where
  properties : Properties
  etag : String
  version : ℕ
  document_is : d ≡ held properties (tag version)
  world_is : w ≡ at properties etag version

-- Phases of which the last fails
abbrev phases : Phases (Memory OpenShiftClusterDocument)
phases = record {
  storage = λ d. pure d;
  resources = λ d. pure d;
  bootstrap = λ d. fail (other "routerIP not found");
}

ok_same : {A : Type 0} {a b : A} → ok a ≡ ok b → a ≡ b
ok_same h = cc h

ok_err : {A : Type 0} {a : A} {e : Error} → ok a ≡ err e → ⊥
ok_err h = cc h

moved :
    {d x : OpenShiftClusterDocument} {w w' : World (Memory OpenShiftClusterDocument)}
    → d ≡ x
    → w ≡ w'
    → Agrees d w
    → Agrees x w'
moved h k a = record {
  properties = a.properties;
  etag = a.etag;
  version = a.version;
  document_is = sym h ∙ a.document_is;
  world_is = sym k ∙ a.world_is;
}

get_at :
    (p : Properties) (e : String) (v : ℕ)
    → (get (memory cluster_layout) "docs" parser "me" "/subscriptions/sub/c" (at p e v)).0
      ≡ ok (held p (tag v))
unfolding get partition_key query_all all_loop next open_query do_loop do_once to_lower
get_at p e v = refl

reads :
    (d read : OpenShiftClusterDocument) (w : World (Memory OpenShiftClusterDocument))
    → Agrees d w
    → (get (memory cluster_layout) "docs" parser "me" d.key w).0 ≡ ok read
    → read.open_shift_cluster.properties ≡ d.open_shift_cluster.properties
reads d read w a h =
    let got : (get (memory cluster_layout) "docs" parser "me" "/subscriptions/sub/c"
          (at a.properties a.etag a.version)).0
        ≡ ok read =
      rw (sym a.world_is) (subst at_key (ap (λ d. d.key) a.document_is) h) in
    ap (λ d. d.open_shift_cluster.properties)
      (ok_same (sym got ∙ get_at a.properties a.etag a.version))
    ∙ ap (λ d. d.open_shift_cluster.properties) (sym a.document_is)
  where
    at_key : String → Type 0
    at_key k = (get (memory cluster_layout) "docs" parser "me" k w).0 ≡ ok read

writes :
    (f : Properties → Result Properties) (d x : OpenShiftClusterDocument)
    (w w' : World (Memory OpenShiftClusterDocument))
    → IsPlain f
    → Agrees d w
    → Phases.patch (memory cluster_layout) "docs" parser "me" phases f d w ≡ (ok x, w')
    → x.lease_owner ≡ "me"
    → stored cluster_layout w'.store x.partition_key (document_path "docs" x.id) ≡ some x
    → Agrees x w'
writes f d x w w' plain a h owned is_stored =
    let ran : Phases.patch (memory cluster_layout) "docs" parser "me" phases f
          (held a.properties (tag a.version)) (at a.properties a.etag a.version)
        ≡ (ok x, w') =
      rw (sym a.document_is, sym a.world_is) h in
    elim (plain a.properties) [
      | inl (q, same) ↦
          let both = sym ran ∙ patch_ok phases f a.properties a.etag a.version q same in
          record {
            properties = q;
            etag = tag a.version;
            version = suc a.version;
            document_is = ok_same (ap (λ o. o.0) both);
            world_is = ap (λ o. o.1) both;
          }
      | inr (t, same) ↦ absurd (
          ok_err
            (ap (λ o. o.0) (sym ran ∙ patch_err phases f a.properties a.etag a.version t same)))
    ]

passes :
    (d : OpenShiftClusterDocument) (w w' : World (Memory OpenShiftClusterDocument))
    → Agrees d w
    → Leaves Agrees (pure d) d w w'
passes d w w' a = (
  λ x h.
      let same : d ≡ x = ok_same (ap (λ o. o.0) h) in
      (moved same (ap (λ o. o.1) h) a, ap installed (sym same)),
  λ x h. absurd (ok_err (ap (λ o. o.0) h)),
)

fails :
    (t : String) (d : OpenShiftClusterDocument) (w w' : World (Memory OpenShiftClusterDocument))
    → Agrees d w
    → Leaves Agrees (fail (other t)) d w w'
fails t d w w' a = (
  λ x h. absurd (ok_err (sym (ap (λ o. o.0) h))),
  λ x h. (d, moved refl (ap (λ o. o.1) h) a, refl),
)

kept :
    (m : OpenShiftClusterDocument → M (Memory OpenShiftClusterDocument) OpenShiftClusterDocument)
    → ((m ≡ phases.storage) ⊎ (m ≡ phases.resources)) ⊎ (m ≡ phases.bootstrap)
    → (d : OpenShiftClusterDocument) (w w' : World (Memory OpenShiftClusterDocument)) → Agrees d w
    → Leaves Agrees (m d) d w w'
kept m (inl (inl is)) d w w' a = rw is (passes d w w' a)
kept m (inl (inr is)) d w w' a = rw is (passes d w w' a)
kept m (inr is) d w w' a = rw is (fails "routerIP not found" d w w' a)

holds : IsHeld (memory cluster_layout) "docs" parser "me" phases (stored cluster_layout) Agrees
holds = record { reads = reads; writes = writes; kept = kept }

abbrev none_yet : Properties
none_yet = record cluster.properties { install = none }

abbrev started : OpenShiftClusterDocument
started = held none_yet (tag 3)

-- The first two phases are recorded as done, and the stored phase is the one that failed.
install_run :
    install (memory cluster_layout) "docs" parser "me" phases started (at none_yet "" 3) ≡ (
      err (other "routerIP not found"),
      at
          (record none_yet { install = some (record { now = 0; phase = remove_bootstrap }) })
          (tag 5)
          6,
    )
unfolding install run_phases begun advanced finished Phases.next Phases.patch patch_with_lease
    patch_with patch_once get partition_key update_with replace query_all all_loop next open_query
    do_loop do_once retry_on_precondition_failed to_lower run_triggers is_error_status_code
install_run = refl

install-Installed_example :
    Installed
      (memory cluster_layout)
      "docs"
      parser
      "me"
      phases
      (stored cluster_layout)
      Agrees
      started
      (at none_yet "" 3)
      (install (memory cluster_layout) "docs" parser "me" phases started (at none_yet "" 3))
install-Installed_example =
    install-Installed (memory cluster_layout) "docs" parser "me" phases (stored cluster_layout)
      (λ s. s.clock) (memory-IsDocumented cluster_layout) Agrees holds started (at none_yet "" 3)
      (record {
        properties = none_yet;
        etag = "";
        version = 3;
        document_is = refl;
        world_is = refl;
      })
      tt
