-- ===== src/Preview/Dynamic/Allowed.antt =====
-- What a cluster that passes the dynamic validation of
-- pkg/api/v20191231preview/openshiftcluster_validatedynamic.go has.
use aro_rp.Base.{
  and_true, ℕ, String, Bool, true, false, ◌&&◌, Option, none, some, List, [], ◌∷◌, ◌==◌, ltb, ◌≤◌,
  ◌≡◌, refl, ap, ◌∙◌, if◌then◌else◌, inl, inr, Bool-cases, arith,
}
use mathlib.Core.Path.{subst}
use aro_rp.Base.Text.{equal_fold}
use aro_rp.Api.Error.{Error, Result, ok, err, bind, bind-ok}
use aro_rp.Api.Cluster.{ProvisioningState, OpenShiftCluster, creating}
use aro_rp.Cloud.Subnets.{ServiceEndpoint, SubnetProperties, Subnet, network_security_group_id}
use aro_rp.Preview.Dynamic.Subnet.{
  Networks, parse_cidr, deref, linked, demand, check_policies, has_registry, check_endpoints,
  group_of, no_group, right_group, check_group_in, check_group, check_size, check_subnet,
}

deref-ok {ℓ} : {A : Type ℓ} (o : Option A) {a : A} → deref o ≡ ok a → o ≡ some a
deref-ok none h = cc
deref-ok (some x) h = cc

pub demand-ok : (b : Bool) (e : Error) → demand b e ≡ ok tt → b ≡ true
demand-ok true e h = refl
demand-ok false e h = cc

-- A service endpoint for the container registry that has been provisioned
pub data HasRegistry : List ServiceEndpoint → Type 0 where
  first :
      {e : ServiceEndpoint} {es : List ServiceEndpoint} {name : String}
      → e.service ≡ some name
      → equal_fold name "Microsoft.ContainerRegistry" ≡ true
      → (e.provisioning_state == "Succeeded") ≡ true
      → HasRegistry (e ∷ es)
  later : {e : ServiceEndpoint} {es : List ServiceEndpoint} → HasRegistry es → HasRegistry (e ∷ es)

has_registry→HasRegistry : (es : List ServiceEndpoint) → has_registry es ≡ ok true → HasRegistry es
unfolding has_registry
has_registry→HasRegistry [] h = cc
has_registry→HasRegistry (e ∷ es) h =
    let (name, given, rest) = bind-ok (deref e.service) _ h in
    elim (Bool-cases
      (equal_fold name "Microsoft.ContainerRegistry" && e.provisioning_state == "Succeeded")) [
        | inl fits ↦
            let (named, done) =
              and_true (equal_fold name "Microsoft.ContainerRegistry")
                (e.provisioning_state == "Succeeded") fits in
            first (deref-ok e.service given) named done
        | inr other ↦ later (has_registry→HasRegistry es (rw other at rest))
      ]

-- Where the network security group has to be: none while the cluster is created, and the cluster's
-- own for the subnet afterwards
abbrev pub GroupFits : OpenShiftCluster → Subnet → ProvisioningState → Type 0
GroupFits oc s creating = group_of s ≡ none
GroupFits oc s state =
    (id : String) × (nsg : String) × (attached : String) × (s.id ≡ some id)
    × (network_security_group_id oc id ≡ ok nsg)
    × (group_of s ≡ some (some attached))
    × (equal_fold attached nsg ≡ true)

-- A subnet that a cluster can use, with its network
pub record IsUsable {N : Type 0} (nets : Networks N) (oc : OpenShiftCluster) (id : String)
    (s : Subnet) (n : N) : Type 0 where
  pub properties : SubnetProperties
  pub has_properties : s.properties ≡ some properties
  pub policies :
      equal_fold oc.properties.master_profile.subnet_id id ≡ true
      → (p : String) × (properties.private_link_service_network_policies ≡ some p)
        × (equal_fold p "Disabled" ≡ true)
  pub endpoints : List ServiceEndpoint
  pub has_endpoints : properties.service_endpoints ≡ some endpoints
  pub registry : HasRegistry endpoints
  pub group : GroupFits oc s oc.properties.provisioning_state
  pub prefix : String
  pub has_prefix : properties.address_prefix ≡ some prefix
  pub network : nets.cidr prefix ≡ some n
  pub large : nets.ones n ≤ 27

right_group-ok :
    (path nsg : String) (o : Option (Option String))
    → right_group path nsg o ≡ ok tt
    → (attached : String) × (o ≡ some (some attached)) × (equal_fold attached nsg ≡ true)
right_group-ok path nsg none h = cc
right_group-ok path nsg (some none) h = cc
right_group-ok path nsg (some (some id)) h =
    (id, refl, demand-ok (equal_fold id nsg) (linked path) h)

no_group-ok : (path : String) (o : Option (Option String)) → no_group path o ≡ ok tt → o ≡ none
no_group-ok path none h = refl
no_group-ok path (some g) h = cc

module _ (oc : OpenShiftCluster) (path : String) (s : Subnet) where
  -- the test of a cluster that is not being created
  abbrev attached_test : Result (Unit {0})
  attached_test =
      bind (deref s.id)
        (λ id. bind (network_security_group_id oc id) (λ nsg. right_group path nsg (group_of s)))

  attached_fits :
      attached_test ≡ ok tt
      → (id : String) × (nsg : String) × (attached : String) × (s.id ≡ some id)
        × (network_security_group_id oc id ≡ ok nsg)
        × (group_of s ≡ some (some attached))
        × (equal_fold attached nsg ≡ true)
  attached_fits h =
      let (id, given, named) = bind-ok (deref s.id) _ h in
      let (nsg, expected, right) = bind-ok (network_security_group_id oc id) _ named in
      let (attached, there, same) = right_group-ok path nsg (group_of s) right in
      (id, nsg, attached, deref-ok s.id given, expected, there, same)

  check_group-fits :
      (state : ProvisioningState) → check_group_in state oc path s ≡ ok tt → GroupFits oc s state
  unfolding check_group_in
  check_group-fits creating h = no_group-ok path (group_of s) h
  check_group-fits state h = attached_fits h

demand_large :
    (b : Bool) {N : Type 0} (e : Error) (n m : N)
    → (if b then err e else ok n) ≡ ok m
    → (b ≡ false) × (n ≡ m)
demand_large true e n m h = cc
demand_large false e n m h = (refl, cc)

not_ltb : (a b : ℕ) → ltb a b ≡ false → b ≤ a
not_ltb a b h = ground arith

pub parse_cidr-ok :
    {N : Type 0} (nets : Networks N) (s : String) (n : N)
    → parse_cidr nets s ≡ ok n
    → nets.cidr s ≡ some n
parse_cidr-ok {N} nets s n h = by_answer (nets.cidr s) refl
  where
    by_answer : (o : Option N) → nets.cidr s ≡ o → nets.cidr s ≡ some n
    by_answer none e = cc
    by_answer (some m) e = cc

module _ (oc : OpenShiftCluster) (path id : String) (s : Subnet) {p : SubnetProperties}
    (given : s.properties ≡ some p) where
  policies_fit :
      check_policies oc path id s ≡ ok tt
      → equal_fold oc.properties.master_profile.subnet_id id ≡ true
      → (policies : String) × (p.private_link_service_network_policies ≡ some policies)
        × (equal_fold policies "Disabled" ≡ true)
  unfolding check_policies
  policies_fit h master =
      let (policies, there, disabled) =
        bind-ok (deref p.private_link_service_network_policies)
          (λ policies. demand (equal_fold policies "Disabled") (linked path))
          (rw (master, given) at h) in
      (
        policies,
        deref-ok _ there,
        demand-ok (equal_fold policies "Disabled") (linked path) disabled,
      )

  endpoints_fit :
      check_endpoints path s ≡ ok tt
      → (es : List ServiceEndpoint) × (p.service_endpoints ≡ some es) × HasRegistry es
  unfolding check_endpoints
  endpoints_fit h =
      let (es, there, e) =
        bind-ok (deref p.service_endpoints)
          (λ es. bind (has_registry es) (λ b. demand b (linked path))) (rw given at h) in
      let (b, registry, wanted) = bind-ok (has_registry es) (λ b. demand b (linked path)) e in
      let yes_it_has : has_registry es ≡ ok true =
        registry ∙ ap ok (demand-ok b (linked path) wanted) in
      (es, deref-ok _ there, has_registry→HasRegistry es yes_it_has)

  size_fits :
      {N : Type 0} (nets : Networks N) {n : N}
      → check_size nets path s ≡ ok n
      → (prefix : String) × (p.address_prefix ≡ some prefix)
        × (nets.cidr prefix ≡ some n)
        × (nets.ones n ≤ 27)
  unfolding check_size
  size_fits {N} nets {n} h =
      let sized = λ (m : N). if ltb 27 (nets.ones m) then err (linked path) else ok m in
      let (prefix, there, e) =
        bind-ok (deref p.address_prefix) (λ prefix. bind (parse_cidr nets prefix) sized)
          (rw given at h) in
      let (m, parsed, large) = bind-ok (parse_cidr nets prefix) sized e in
      let (small, same) = demand_large (ltb 27 (nets.ones m)) (linked path) m n large in
      (
        prefix,
        deref-ok _ there,
        parse_cidr-ok nets prefix n (parsed ∙ ap ok same),
        subst (λ (k : N). nets.ones k ≤ 27) same (not_ltb 27 (nets.ones m) small),
      )

size_properties :
    {N : Type 0} (nets : Networks N) (path : String) (s : Subnet) {n : N}
    → check_size nets path s ≡ ok n
    → (p : SubnetProperties) × (s.properties ≡ some p)
unfolding check_size
size_properties nets path s h =
    let (p, given, e) = bind-ok (deref s.properties) _ h in (p, deref-ok s.properties given)

module _ {N : Type 0} (nets : Networks N) (oc : OpenShiftCluster) (path id : String)
    (s : Subnet) where
  -- A subnet that passes the checks can be used, and its network is returned.
  pub check_subnet-IsUsable :
      {n : N} → check_subnet nets oc path id s ≡ ok n → IsUsable nets oc id s n
  unfolding check_subnet check_group
  check_subnet-IsUsable {n} h =
      let (u, policies, h1) = bind-ok (check_policies oc path id s) _ h in
      let (v, endpoints, h2) = bind-ok (check_endpoints path s) _ h1 in
      let (x, group, size) = bind-ok (check_group oc path s) _ h2 in
      let (p, given) = size_properties nets path s size in
      let (es, has_endpoints, registry) = endpoints_fit oc path id s given endpoints in
      let (prefix, has_prefix, network, large) = size_fits oc path id s given nets size in
      record {
        properties = p;
        has_properties = given;
        policies = policies_fit oc path id s given policies;
        endpoints = es;
        has_endpoints = has_endpoints;
        registry = registry;
        group = check_group-fits oc path s oc.properties.provisioning_state group;
        prefix = prefix;
        has_prefix = has_prefix;
        network = network;
        large = large;
      }
