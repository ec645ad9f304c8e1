-- ===== src/Preview/Delta.antt =====
-- What an update of a cluster that passes the immutability check leaves as it was.
use aro_rp.Base.{
  ℕ, String, ◌≡◌, refl, ap, true, false, Bool-cases, inl, inr, eqb, arith, Option, none, some, List,
  [], ◌∷◌, if◌then◌else◌,
}
use Prim.Native.String
use Prim.Native.Nat.{suc}
use aro_rp.Base.Text.{equal_fold}
use aro_rp.Api.Error.{Result, ok, err}
use aro_rp.Api.Error as Error
use aro_rp.Immutable.{
  struct, Printing, checked, validation_error, item_count, validate_kind, validate_items,
  validate_fields, validate as validate_value, validate_all, index_of,
}
use aro_rp.Preview.Cluster.{WorkerProfile, IngressProfile, Properties, OpenShiftCluster}
use aro_rp.Preview.Static.{
  state_text, static, validate_delta, worker_fields, ingress_fields, worker_items, ingress_items,
  workers_value, ingresses_value, properties_fields, cluster_value, cluster_value_fields,
}
use aro_rp.Api.Cluster as Internal
use aro_rp.Azure.{Resource, parse_resource_id}
use aro_rp.Preview.Convert.{to_external}
use aro_rp.Preview.Validate.{Parsers, validate}
use aro_rp.Preview.Valid.{HasValidProperties, validate-HasValidProperties}
use aro_rp.Preview.Kept.{
  bind_ok, checked_ok, plain_text, case_text, mutable_field, plain_struct, plain_value,
}
use aro_rp.Preview.Profiles.{
  same_cluster, same_console, same_principal, same_network, same_master, same_worker,
  same_apiserver, same_ingress,
}

-- Worker profiles, one by one, are equal but for their counts.
pub data SameWorkers : List WorkerProfile → List WorkerProfile → Type 0 where
  none_left : SameWorkers [] []
  but_count :
      {p q : WorkerProfile} {ps qs : List WorkerProfile}
      → record p { count = q.count } ≡ q
      → SameWorkers ps qs
      → SameWorkers (p ∷ ps) (q ∷ qs)

pub data SameWorkerProfiles
    : Option (List WorkerProfile) → Option (List WorkerProfile) → Type 0 where
  both_nil : SameWorkerProfiles none none
  both : {ps qs : List WorkerProfile} → SameWorkers ps qs → SameWorkerProfiles (some ps) (some qs)

-- All but the worker counts
pub record KeepsProperties (p q : Properties) : Type 0 where
  pub state : state_text p.provisioning_state ≡ state_text q.provisioning_state
  pub cluster : p.cluster_profile ≡ q.cluster_profile
  pub console : p.console_profile ≡ q.console_profile
  pub principal : p.service_principal_profile ≡ q.service_principal_profile
  pub network : p.network_profile ≡ q.network_profile
  pub master : p.master_profile ≡ q.master_profile
  pub workers : SameWorkerProfiles p.worker_profiles q.worker_profiles
  pub apiserver : p.apiserver_profile ≡ q.apiserver_profile
  pub ingresses : p.ingress_profiles ≡ q.ingress_profiles

-- All but the tags, the worker counts, and the case of the ID, the name and the type
pub record Keeps (oc current : OpenShiftCluster) : Type 0 where
  pub id : equal_fold oc.id current.id ≡ true
  pub name : equal_fold oc.name current.name ≡ true
  pub type : equal_fold oc.type current.type ≡ true
  pub location : oc.location ≡ current.location
  pub properties : KeepsProperties oc.properties current.properties

module _ (print : Printing) where
  worker_cons :
      (path : String) (i : ℕ) (p q : WorkerProfile) (ps qs : List WorkerProfile)
      → validate_items print (worker_items (p ∷ ps)) i path (worker_items (q ∷ qs)) false ≡ ok tt
      → (record p { count = q.count } ≡ q)
        × (validate_items print (worker_items ps) (suc i) path (worker_items qs) false ≡ ok tt)
  unfolding validate_kind
  worker_cons path i p q ps qs e =
      let v = struct "WorkerProfile" (worker_fields p) in
      let w = struct "WorkerProfile" (worker_fields q) in
      let here = String.◌++◌ path (index_of print i v) in
      let inside = validate_fields print (worker_fields p) here (worker_fields q) false in
      let (first, rest) =
        bind_ok (checked here v w inside)
          (validate_items print (worker_items ps) (suc i) path (worker_items qs) false) e in
      (same_worker print here p q (checked_ok here v w inside first), rest)

  ingress_cons :
      (path : String) (i : ℕ) (p q : IngressProfile) (ps qs : List IngressProfile)
      → validate_items print (ingress_items (p ∷ ps)) i path (ingress_items (q ∷ qs)) false ≡ ok tt
      → (p ≡ q)
        × (validate_items print (ingress_items ps) (suc i) path (ingress_items qs) false ≡ ok tt)
  unfolding validate_kind
  ingress_cons path i p q ps qs e =
      let v = struct "IngressProfile" (ingress_fields p) in
      let w = struct "IngressProfile" (ingress_fields q) in
      let here = String.◌++◌ path (index_of print i v) in
      let inside = validate_fields print (ingress_fields p) here (ingress_fields q) false in
      let (first, rest) =
        bind_ok (checked here v w inside)
          (validate_items print (ingress_items ps) (suc i) path (ingress_items qs) false) e in
      (same_ingress print here p q (checked_ok here v w inside first), rest)

  -- Lists of one length, element by element
  workers-SameWorkers :
      (path : String) (i : ℕ) (ps qs : List WorkerProfile)
      → item_count (worker_items ps) ≡ item_count (worker_items qs)
      → validate_items print (worker_items ps) i path (worker_items qs) false ≡ ok tt
      → SameWorkers ps qs
  workers-SameWorkers path i [] [] l e = none_left
  workers-SameWorkers path i [] (q ∷ qs) l e = absurd (omega (arith, l))
  workers-SameWorkers path i (p ∷ ps) [] l e = absurd (omega (arith, l))
  workers-SameWorkers path i (p ∷ ps) (q ∷ qs) l e =
      let (same, rest) = worker_cons path i p q ps qs e in
      but_count same (workers-SameWorkers path (suc i) ps qs (omega (arith, l)) rest)

  same_ingresses :
      (path : String) (i : ℕ) (ps qs : List IngressProfile)
      → item_count (ingress_items ps) ≡ item_count (ingress_items qs)
      → validate_items print (ingress_items ps) i path (ingress_items qs) false ≡ ok tt
      → ps ≡ qs
  same_ingresses path i [] [] l e = refl
  same_ingresses path i [] (q ∷ qs) l e = absurd (omega (arith, l))
  same_ingresses path i (p ∷ ps) [] l e = absurd (omega (arith, l))
  same_ingresses path i (p ∷ ps) (q ∷ qs) l e =
      let (same, rest) = ingress_cons path i p q ps qs e in
      let more = same_ingresses path (suc i) ps qs (omega (arith, l)) rest in λ k. same k ∷ more k

  counted :
      (m n : ℕ) (path : String) (r : Result (Unit {0}))
      → (if eqb m n then r else err (validation_error path)) ≡ ok tt
      → (m ≡ n) × (r ≡ ok tt)
  counted m n path r e = elim (Bool-cases (eqb m n)) [
    | inl h ↦ (ground arith, rw h at e)
    | inr h ↦ cc (rw h at e)
  ]

  workers_kept :
      (path : String) (ps qs : Option (List WorkerProfile))
      → validate_kind print (workers_value ps) path (workers_value qs) false ≡ ok tt
      → SameWorkerProfiles ps qs
  unfolding validate_kind
  workers_kept path none none e = both_nil
  workers_kept path none (some qs) e = cc e
  workers_kept path (some ps) none e = cc e
  workers_kept path (some ps) (some qs) e =
      let (l, rest) =
        counted (item_count (worker_items ps)) (item_count (worker_items qs)) path
          (validate_items print (worker_items ps) 0 path (worker_items qs) false) e in
      both (workers-SameWorkers path 0 ps qs l rest)

  ingresses_kept :
      (path : String) (ps qs : Option (List IngressProfile))
      → validate_kind print (ingresses_value ps) path (ingresses_value qs) false ≡ ok tt
      → ps ≡ qs
  unfolding validate_kind
  ingresses_kept path none none e = refl
  ingresses_kept path none (some qs) e = cc e
  ingresses_kept path (some ps) none e = cc e
  ingresses_kept path (some ps) (some qs) e =
      let (l, rest) =
        counted (item_count (ingress_items ps)) (item_count (ingress_items qs)) path
          (validate_items print (ingress_items ps) 0 path (ingress_items qs) false) e in
      ap some (same_ingresses path 0 ps qs l rest)

  properties-Keeps :
      (path : String) (p q : Properties)
      → validate_fields print (properties_fields p) path (properties_fields q) false ≡ ok tt
      → KeepsProperties p q
  properties-Keeps path p q e =
      let (state, e1) = plain_text print _ _ _ _ _ _ _ _ e in
      let (cluster, e2) = plain_struct print _ _ _ _ _ _ _ _ e1 in
      let (console, e3) = plain_struct print _ _ _ _ _ _ _ _ e2 in
      let (principal, e4) = plain_struct print _ _ _ _ _ _ _ _ e3 in
      let (network, e5) = plain_struct print _ _ _ _ _ _ _ _ e4 in
      let (master, e6) = plain_struct print _ _ _ _ _ _ _ _ e5 in
      let (workers, e7) = plain_value print _ _ _ _ _ _ _ e6 in
      let (apiserver, e8) = plain_struct print _ _ _ _ _ _ _ _ e7 in
      let (ingresses, _) = plain_value print _ _ _ _ _ _ _ e8 in
      record {
        state = state;
        cluster = same_cluster print _ p.cluster_profile q.cluster_profile cluster;
        console = same_console print _ p.console_profile q.console_profile console;
        principal =
            same_principal print _ p.service_principal_profile q.service_principal_profile
              principal;
        network = same_network print _ p.network_profile q.network_profile network;
        master = same_master print _ p.master_profile q.master_profile master;
        workers = workers_kept _ p.worker_profiles q.worker_profiles workers;
        apiserver = same_apiserver print _ p.apiserver_profile q.apiserver_profile apiserver;
        ingresses = ingresses_kept _ p.ingress_profiles q.ingress_profiles ingresses;
      }

  cluster-Keeps :
      (path : String) (oc current : OpenShiftCluster)
      → validate_fields print (cluster_value_fields oc) path (cluster_value_fields current) false
        ≡ ok tt
      → Keeps oc current
  cluster-Keeps path oc current e =
      let (id, e1) = case_text print _ _ _ _ _ _ _ _ e in
      let (name, e2) = case_text print _ _ _ _ _ _ _ _ e1 in
      let (kind, e3) = case_text print _ _ _ _ _ _ _ _ e2 in
      let (location, e4) = plain_text print _ _ _ _ _ _ _ _ e3 in
      let e5 = mutable_field print _ _ _ _ _ _ _ e4 in
      let (properties, _) = plain_struct print _ _ _ _ _ _ _ _ e5 in
      record {
        id = id;
        name = name;
        type = kind;
        location = location;
        properties = properties-Keeps _ oc.properties current.properties properties;
      }

  -- An update that passes validateDelta changes nothing but the tags, the number of workers in a
  -- worker profile, and the case of the ID, the name and the type: every other part of the cluster,
  -- the provisioning state, the credentials and the profiles included, is equal to the current one.
  pub validate_delta-Keeps :
      (oc current : OpenShiftCluster) → validate_delta print oc current ≡ ok tt → Keeps oc current
  unfolding validate_delta validate_all validate_value validate_kind
  validate_delta-Keeps oc current e =
      let fields =
        validate_fields print (cluster_value_fields oc) "" (cluster_value_fields current) false in
      let v = struct "OpenShiftCluster" (cluster_value_fields oc) in
      let w = struct "OpenShiftCluster" (cluster_value_fields current) in
      let inside = checked "" v w fields in
      cluster-Keeps "" oc current (
        checked_ok "" v w fields
          (checked_ok "" (cluster_value oc) (cluster_value current) inside e))

bind_split :
    {A : Type 0} (r : Result A) (g : A → Result (Unit {0}))
    → Error.bind r g ≡ ok tt
    → (a : A) × (r ≡ ok a) × (g a ≡ ok tt)
bind_split (ok a) g e = (a, refl, e)
bind_split (err x) g e = cc e

-- Static passes an update of the stored cluster `c` only if the path is a resource's ID and the
-- request's cluster has that ID, that resource's name, the type and the location, but for case, and
-- valid properties, and nothing of `c` is changed that may not be.
pub static-Keeps :
    (p : Parsers) (print : Printing) (location resource_id : String) (oc : OpenShiftCluster)
    (c : Internal.OpenShiftCluster)
    → static p print location resource_id oc (some c) ≡ ok tt
    → (r : Resource) × (parse_resource_id p.resource resource_id ≡ ok r)
      × (equal_fold oc.id resource_id ≡ true)
      × (equal_fold oc.name r.resource_name ≡ true)
      × (equal_fold oc.type "Microsoft.RedHatOpenShift/openShiftClusters" ≡ true)
      × (equal_fold oc.location location ≡ true)
      × HasValidProperties p location resource_id r oc.properties
      × Keeps oc (to_external c)
unfolding static
static-Keeps p print location resource_id oc c e =
    let (r, parsed, e1) = bind_split (parse_resource_id p.resource resource_id) _ e in
    let (u, valid, e2) = bind_split (validate p location resource_id r oc) _ e1 in
    let (id, name, kind, place, properties) =
      validate-HasValidProperties p location resource_id r oc valid in
    (r, parsed, id, name, kind, place, properties, validate_delta-Keeps print oc (to_external c) e2)
