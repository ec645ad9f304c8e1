-- ===== src/Preview/Valid.antt =====
-- What a cluster that passes the static validation is like.
use aro_rp.Base.{
  ℕ, String, ◌≡◌, ◌≢◌, refl, sym, ◌∙◌, ◌≤◌, Bool, true, false, not, ◌||◌, List, [], ◌∷◌, leb, ltb,
  ◌==◌, eq_iff, Option, none, some, arith,
}
use aro_rp.Base.Text.{equal_fold}
use aro_rp.Api.Error.{Error, Result, ok, err}
use aro_rp.Api.Error as Error
use aro_rp.Azure.{Resource}
use aro_rp.Preview.Cluster.{
  MasterProfile, WorkerProfile, IngressProfile, Properties, OpenShiftCluster,
}
use aro_rp.Preview.Patterns.{split_subnet}
use aro_rp.Preview.Validate.{
  Network, Parsers, first_error, require, invalid, known_state, profile_path,
  validate_service_principal_profile, validate_network_profile, validate_subnets,
  validate_worker_profile, validate_workers, validate_ingress_profile, validate_ingresses,
  validate_properties, validate,
}

-- The first check passed, and so did the others.
first_error-cons :
    (r : Result (Unit {0})) (rs : List (Result (Unit {0})))
    → first_error (r ∷ rs) ≡ ok tt
    → (r ≡ ok tt) × (first_error rs ≡ ok tt)
unfolding first_error
first_error-cons (ok u) rs e = (refl, e)
first_error-cons (err x) rs e = cc e

required : (b : Bool) (e : Error) → require b e ≡ ok tt → b ≡ true
required true e h = refl
required false e h = cc h

not-true : (b : Bool) → not b ≡ true → b ≡ false
not-true true h = cc h
not-true false h = refl

-- An IPv4 network of a size
pub record IsNetwork (p : Parsers) (most : ℕ) (cidr : String) : Type 0 where
  pub network : Network
  pub parsed : p.cidr cidr ≡ some network
  pub ipv4 : network.is_ipv4 ≡ true
  pub size : network.ones ≤ most

leb-true : (a b : ℕ) → leb a b ≡ true → a ≤ b
leb-true a b e = ground arith

ltb_not : (a b : ℕ) → ltb a b ≡ false → b ≤ a
ltb_not a b e = ground arith

cidr-IsNetwork :
    (p : Parsers) (path field : String) (most : ℕ) (cidr : String) (o : Option Network)
    → p.cidr cidr ≡ o
    → (elim o as (λ _. Result (Unit {0})) [
      | none ↦ err (invalid path field)
      | some n ↦ first_error (
          require n.is_ipv4 (invalid path field)
          ∷ require (leb n.ones most) (invalid path field)
          ∷ [])
    ])
      ≡ ok tt
    → IsNetwork p most cidr
cidr-IsNetwork p path field most cidr none same e = cc e
cidr-IsNetwork p path field most cidr (some n) same e =
    let (v4, e_1) = first_error-cons _ _ e in
    let (size, _) = first_error-cons _ _ e_1 in
    record {
      network = n;
      parsed = same;
      ipv4 = required n.is_ipv4 (invalid path field) v4;
      size = leb-true n.ones most (required (leb n.ones most) (invalid path field) size);
    }

-- Two subnets of one virtual network
pub record IsPair (master worker : String) : Type 0 where
  pub master_parts : String × String
  pub worker_parts : String × String
  pub master_split : split_subnet master ≡ ok master_parts
  pub worker_split : split_subnet worker ≡ ok worker_parts
  pub same_vnet : equal_fold master_parts.0 worker_parts.0 ≡ true
  pub differ : equal_fold master worker ≡ false

bind_split :
    {A B : Type 0} (r : Result A) (g : A → Result B) {b : B}
    → Error.bind r g ≡ ok b
    → (a : A) × (r ≡ ok a) × (g a ≡ ok b)
bind_split (ok a) g e = (a, refl, e)
bind_split (err x) g e = cc e

module _ (p : Parsers) (location resource_id : String) (r : Resource) where
  subnets-IsPair :
      (path worker master : String)
      → validate_subnets p location resource_id r path worker master ≡ ok tt
      → IsPair master worker
  unfolding validate_subnets
  subnets-IsPair path worker master e =
      let (w, ws, e1) = bind_split (split_subnet worker) _ e in
      let (m, ms, e2) = bind_split (split_subnet master) _ e1 in
      let (same, e2_1) = first_error-cons _ _ e2 in
      let (differ, _) = first_error-cons _ _ e2_1 in
      record {
        master_parts = m;
        worker_parts = w;
        master_split = ms;
        worker_split = ws;
        same_vnet = required (equal_fold m.0 w.0) (invalid path ".subnetId") same;
        differ =
            not-true (equal_fold master worker)
              (required (not (equal_fold master worker)) (invalid path ".subnetId") differ);
      }

  pub record IsWorker (master : MasterProfile) (wp : WorkerProfile) : Type 0 where
    pub name : wp.name ≡ "worker"
    pub disk : 128 ≤ wp.disk_size_gb
    pub least : 3 ≤ wp.count
    pub most : wp.count ≤ 20
    pub subnets : IsPair master.subnet_id wp.subnet_id

  count_in : (n : ℕ) → (ltb n 3 || ltb 20 n) ≡ false → (3 ≤ n) × (n ≤ 20)
  count_in n e = ground arith

  validate-IsWorker :
      (path : String) (wp : WorkerProfile) (mp : MasterProfile)
      → validate_worker_profile p location resource_id r path wp mp ≡ ok tt
      → IsWorker mp wp
  unfolding validate_worker_profile
  validate-IsWorker path wp mp e =
      let (name, e_1) = first_error-cons _ _ e in
      let (size, e_2) = first_error-cons _ _ e_1 in
      let (disk, e_3) = first_error-cons _ _ e_2 in
      let (subnet, e_4) = first_error-cons _ _ e_3 in
      let (subnets, e_5) = first_error-cons _ _ e_4 in
      let (count, _) = first_error-cons _ _ e_5 in
      let (least, most) = count_in wp.count (
        not-true (ltb wp.count 3 || ltb 20 wp.count)
          (required (not (ltb wp.count 3 || ltb 20 wp.count)) (invalid path ".count") count)) in
      record {
        name =
            (eq_iff wp.name "worker").0
              (required (wp.name == "worker") (invalid path ".name") name);
        disk = ltb_not wp.disk_size_gb 128 (
            not-true (ltb wp.disk_size_gb 128)
              (required (not (ltb wp.disk_size_gb 128)) (invalid path ".diskSizeGB") disk));
        least = least;
        most = most;
        subnets = subnets-IsPair path wp.subnet_id mp.subnet_id subnets;
      }

  one-IsWorker :
      (path : String) (ps : Option (List WorkerProfile)) (mp : MasterProfile)
      → validate_workers p location resource_id r path ps mp ≡ ok tt
      → (wp : WorkerProfile) × (ps ≡ some (wp ∷ [])) × IsWorker mp wp
  unfolding validate_workers
  one-IsWorker path (some (wp ∷ [])) mp e = (
    wp,
    refl,
    validate-IsWorker (profile_path p location resource_id r path ".workerProfiles" wp.name) wp mp
        e,
  )
  one-IsWorker path none mp e = cc e
  one-IsWorker path (some []) mp e = cc e
  one-IsWorker path (some (wp ∷ wp' ∷ wps)) mp e = cc e

  one_ingress :
      (path : String) (ps : Option (List IngressProfile))
      → validate_ingresses p location resource_id r path ps ≡ ok tt
      → (ip : IngressProfile) × (ps ≡ some (ip ∷ [])) × (ip.name ≡ "default")
  unfolding validate_ingresses validate_ingress_profile
  one_ingress path (some (ip ∷ [])) e =
      let (name, _) = first_error-cons _ _ e in
      (ip, refl, (eq_iff ip.name "default").0 (required (ip.name == "default") _ name))
  one_ingress path none e = cc e
  one_ingress path (some []) e = cc e
  one_ingress path (some (ip ∷ ip' ∷ ips)) e = cc e

  -- The properties of a valid cluster that the rest of the program relies on.
  pub record HasValidProperties (q : Properties) : Type 0 where
    pub state : known_state q.provisioning_state ≡ true
    pub secret : q.service_principal_profile.client_secret ≢ ""
    pub pods : IsNetwork p 18 q.network_profile.pod_cidr
    pub services : IsNetwork p 22 q.network_profile.service_cidr
    pub worker : WorkerProfile
    pub workers : q.worker_profiles ≡ some (worker ∷ [])
    pub worker_valid : IsWorker q.master_profile worker
    pub ingress : IngressProfile
    pub ingresses : q.ingress_profiles ≡ some (ingress ∷ [])
    pub ingress_name : ingress.name ≡ "default"

  secret_given : (s : String) → not (s == "") ≡ true → s ≢ ""
  secret_given s h same = cc (sym (not-true (s == "") h) ∙ (eq_iff s "").1 same)

  properties-HasValidProperties :
      (path : String) (q : Properties)
      → validate_properties p location resource_id r path q ≡ ok tt
      → HasValidProperties q
  unfolding validate_properties validate_service_principal_profile validate_network_profile
  properties-HasValidProperties path q e =
      let (state, e_1) = first_error-cons _ _ e in
      let (_, e_2) = first_error-cons _ _ e_1 in
      let (_, e_3) = first_error-cons _ _ e_2 in
      let (spp, e_4) = first_error-cons _ _ e_3 in
      let (net, e_5) = first_error-cons _ _ e_4 in
      let (_, e_6) = first_error-cons _ _ e_5 in
      let (workers, e_7) = first_error-cons _ _ e_6 in
      let (_, e_8) = first_error-cons _ _ e_7 in
      let (ingresses, _) = first_error-cons _ _ e_8 in
      let (_, spp_1) = first_error-cons _ _ spp in
      let (secret, _) = first_error-cons _ _ spp_1 in
      let (pods, net_1) = first_error-cons _ _ net in
      let (services, _) = first_error-cons _ _ net_1 in
      let (wp, ws, valid) = one-IsWorker path q.worker_profiles q.master_profile workers in
      let (ip, ips, name) = one_ingress path q.ingress_profiles ingresses in
      record {
        state = required (known_state q.provisioning_state) _ state;
        secret =
            secret_given q.service_principal_profile.client_secret
              (required (not (q.service_principal_profile.client_secret == "")) _ secret);
        pods = cidr-IsNetwork p _ ".podCidr" 18 q.network_profile.pod_cidr _ refl pods;
        services =
            cidr-IsNetwork p _ ".serviceCidr" 22 q.network_profile.service_cidr _ refl services;
        worker = wp;
        workers = ws;
        worker_valid = valid;
        ingress = ip;
        ingresses = ips;
        ingress_name = name;
      }

  -- A cluster that passes `validate` has the ID, the name, the type and the location of the request,
  -- but for case. Its state is one of the five and its client secret is given. Its pod network is an
  -- IPv4 network of /18 or larger and its service network one of /22 or larger. It has exactly one
  -- worker profile, named worker, with disks of at least 128 GB, between 3 and 20 machines, and a
  -- subnet in the virtual network of the master subnet and different from that; and exactly one
  -- ingress profile, named default.
  pub validate-HasValidProperties :
      (oc : OpenShiftCluster)
      → validate p location resource_id r oc ≡ ok tt
      → (equal_fold oc.id resource_id ≡ true)
        × (equal_fold oc.name r.resource_name ≡ true)
        × (equal_fold oc.type "Microsoft.RedHatOpenShift/openShiftClusters" ≡ true)
        × (equal_fold oc.location location ≡ true)
        × HasValidProperties oc.properties
  unfolding validate
  validate-HasValidProperties oc e =
      let (id, e_1) = first_error-cons _ _ e in
      let (name, e_2) = first_error-cons _ _ e_1 in
      let (kind, e_3) = first_error-cons _ _ e_2 in
      let (place, e_4) = first_error-cons _ _ e_3 in
      let (rest, _) = first_error-cons _ _ e_4 in
      (
        required (equal_fold oc.id resource_id) _ id,
        required (equal_fold oc.name r.resource_name) _ name,
        required (equal_fold oc.type "Microsoft.RedHatOpenShift/openShiftClusters") _ kind,
        required (equal_fold oc.location location) _ place,
        properties-HasValidProperties "properties" oc.properties rest,
      )
