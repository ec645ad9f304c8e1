-- ===== src/Preview/Dynamic/Passed.antt =====
-- What Dynamic of pkg/api/v20191231preview/openshiftcluster_validatedynamic.go assures.
use aro_rp.Base.{
  String, Bool, true, false, some, List, [], ◌∷◌, ◌≡◌, ◌∙◌, All, Bool-cases, inl, inr, eqb,
  if◌then◌else◌,
}
use aro_rp.Api.Error.{
  Result, ok, err, bind-ok, cosmos, cloud, status_code, detailed, other, new_cloud_error,
}
use aro_rp.Api.Cluster.{OpenShiftCluster, WorkerProfile}
use aro_rp.Action.{World, lift, pure, call, bind_ok, ◌>>◌}
use aro_rp.Azure.{Resource, ResourceParser, parse_resource_id}
use aro_rp.Permissions.{Permission, can_do_action}
use aro_rp.Cloud.Subnets.{SubnetsClient, first_worker}
use aro_rp.Cloud.Subnets as Subnets
use aro_rp.Preview.Patterns.{split_subnet}
use aro_rp.Preview.Dynamic.Subnet.{Networks, parse_cidr, linked, check_subnet}
use aro_rp.Preview.Dynamic.Allowed.{IsUsable, check_subnet-IsUsable, demand-ok, parse_cidr-ok}
use aro_rp.Preview.Dynamic.{
  Identity, poll, polls, actions, check_actions, listed, found_subnet, resource_manager_endpoint,
  validate_service_principal_profile, validate_service_principal_role, validate_vnet_permissions,
  validate_subnet, validate_subnets, dynamic,
}

-- Every action is granted.
check_actions-granted :
    (code : String) (ps : List Permission) (needed : List String)
    → check_actions code ps needed ≡ ok tt
    → All (λ a. can_do_action ps a ≡ ok true) needed
unfolding check_actions
check_actions-granted code ps [] h = tt
check_actions-granted code ps (a ∷ more) h =
    let (b, decided, rest) = bind-ok (can_do_action ps a) _ h in
    by_answer (check_actions-granted code ps more) b decided rest
  where
    by_answer :
        (check_actions code ps more ≡ ok tt → All (λ a. can_do_action ps a ≡ ok true) more)
        → (b : Bool) → can_do_action ps a ≡ ok b
        → (if b then check_actions code ps more else err (new_cloud_error 400 code "")) ≡ ok tt
        → (can_do_action ps a ≡ ok true) × All (λ a. can_do_action ps a ≡ ok true) more
    by_answer others true e h = (e, others h)
    by_answer others false e h = cc

-- A result that was lifted, by what the lifted action gave
lifted :
    {S A : Type 0} (r : Result A) (w : World S) {a : A} {w' : World S}
    → lift r w ≡ (ok a, w')
    → r ≡ ok a
lifted r w h i = (h i).0

moved :
    {S A : Type 0} (r : Result A) (w : World S) {a : A} {w' : World S}
    → lift r w ≡ (ok a, w')
    → w ≡ w'
moved r w h i = (h i).1

listed-ok : (r : Result (List Permission)) {ps : List Permission} → listed r ≡ ok ps → r ≡ ok ps
unfolding listed
listed-ok (ok ps) h = h
listed-ok (err (detailed status)) h = elim (Bool-cases (eqb status 404)) [
  | inl e ↦ cc (rw e at h)
  | inr e ↦ cc (rw e at h)
]
listed-ok (err (cosmos status)) h = cc
listed-ok (err (cloud e)) h = cc
listed-ok (err (status_code status)) h = cc
listed-ok (err (other text)) h = cc

module _ {S T N : Type 0} (azure : Identity S T) (nets : Networks N) (parse : ResourceParser)
    (oc : OpenShiftCluster) where
  -- The permissions that were listed for a principal on the virtual network of the masters, by a request
  -- made in the world `w` that left `w'`, grant each of the three actions.
  pub record IsGranted (subscription : String) (t : T) (w w' : World S) : Type 0 where
    pub vnet : String × String
    pub resource : Resource
    pub permissions : List Permission
    pub of_masters : split_subnet oc.properties.master_profile.subnet_id ≡ ok vnet
    pub parsed : parse_resource_id parse vnet.0 ≡ ok resource
    pub answered :
        call
          (azure.list_for_resource subscription t resource.resource_group resource.provider
            resource.resource_type resource.resource_name)
          w
        ≡ (ok permissions, w')
    pub granted : All (λ a. can_do_action permissions a ≡ ok true) actions

  validate_vnet_permissions-IsGranted :
      (subscription : String) (t : T) (code : String) (w : World S) {w' : World S}
      → validate_vnet_permissions azure nets parse oc subscription t code w ≡ (ok tt, w')
      → IsGranted subscription t w w'
  unfolding validate_vnet_permissions
  validate_vnet_permissions-IsGranted subscription t code w {w'} h =
      let (vnet, w1, split, h1) =
        bind_ok (lift (split_subnet oc.properties.master_profile.subnet_id)) _ w h in
      let (r, w2, parsed, h2) = bind_ok (lift (parse_resource_id parse vnet.0)) _ w1 h1 in
      let ask = call (
        azure.list_for_resource subscription t r.resource_group r.provider r.resource_type
          r.resource_name) in
      let answer = ask w2 in
      let (ps, w3, given, h3) =
        bind_ok (lift (listed answer.0)) (λ ps. lift (check_actions code ps actions)) answer.1 h2 in
      record {
        vnet = vnet;
        resource = r;
        permissions = ps;
        of_masters = lifted _ w split;
        parsed = lifted _ w1 parsed;
        answered = (λ i. ask ((moved _ w split ∙ moved _ w1 parsed) i)) ∙ (λ i. (
          listed-ok answer.0 (lifted _ answer.1 given) i,
          (moved _ answer.1 given ∙ moved _ w3 h3) i,
        ));
        granted = check_actions-granted code ps actions (lifted _ w3 h3);
      }

  -- A subnet that the service showed to a request made in the world `w`, which left `w'`, and that the
  -- cluster can use, with its network
  pub record Uses (client : SubnetsClient S) (id : String) (n : N) (w w' : World S) : Type 0 where
    pub subnet : Subnets.Subnet
    pub shown : Subnets.get client parse id w ≡ (ok subnet, w')
    pub usable : IsUsable nets oc id subnet n

  found_subnet-ok :
      (path : String) (r : Result Subnets.Subnet) {s : Subnets.Subnet}
      → found_subnet azure nets parse path r ≡ ok s
      → r ≡ ok s
  unfolding found_subnet
  found_subnet-ok path (ok s) h = h
  found_subnet-ok path (err (detailed status)) h = elim (Bool-cases (eqb status 404)) [
    | inl e ↦ cc (rw e at h)
    | inr e ↦ cc (rw e at h)
  ]
  found_subnet-ok path (err (cosmos status)) h = cc
  found_subnet-ok path (err (cloud e)) h = cc
  found_subnet-ok path (err (status_code status)) h = cc
  found_subnet-ok path (err (other text)) h = cc

  subnet-Uses :
      (client : SubnetsClient S) (path id : String) (w : World S) {n : N} {w' : World S}
      → validate_subnet azure nets parse oc client path id w ≡ (ok n, w')
      → Uses client id n w w'
  unfolding validate_subnet
  subnet-Uses client path id w {n} h =
      let answer = Subnets.get client parse id w in
      let (s, w1, given, checked) =
        bind_ok (lift (found_subnet azure nets parse path answer.0))
          (λ s. lift (check_subnet nets oc path id s)) answer.1 h in
      record {
        subnet = s;
        shown = λ i. (
          found_subnet-ok path answer.0 (lifted _ answer.1 given) i,
          (moved _ answer.1 given ∙ moved _ w1 checked) i,
        );
        usable = check_subnet-IsUsable nets oc path id s (lifted _ w1 checked);
      }

  -- The networks of the masters, of the workers, of the pods and of the services do not overlap.
  pub record HasNetworks (client : SubnetsClient S) (w w' : World S) : Type 0 where
    pub between : World S
    pub master_network : N
    pub worker_network : N
    pub pods : N
    pub services : N
    pub masters : Uses client oc.properties.master_profile.subnet_id master_network w between
    pub worker : WorkerProfile
    pub is_first : first_worker oc ≡ ok worker
    pub workers : Uses client worker.subnet_id worker_network between w'
    pub pod_cidr : nets.cidr oc.properties.network_profile.pod_cidr ≡ some pods
    pub service_cidr : nets.cidr oc.properties.network_profile.service_cidr ≡ some services
    pub apart : nets.disjoint (master_network ∷ worker_network ∷ pods ∷ services ∷ []) ≡ true

  subnets-HasNetworks :
      (client : SubnetsClient S) (w : World S) {w' : World S}
      → validate_subnets azure nets parse oc client w ≡ (ok tt, w')
      → HasNetworks client w w'
  unfolding validate_subnets
  subnets-HasNetworks client w h =
      let (master, w1, masters, h1) =
        bind_ok
          (validate_subnet azure nets parse oc client "properties.masterProfile.subnetId"
            oc.properties.master_profile.subnet_id)
          _ w h in
      let (first, w2, is_first, h2) = bind_ok (lift (first_worker oc)) _ w1 h1 in
      let (worker, w3, workers, h3) =
        bind_ok
          (validate_subnet azure nets parse oc client
            "properties.workerProfiles[\"worker\"].subnetId" first.subnet_id)
          _ w2 h2 in
      let (pods, w4, pod_cidr, h4) =
        bind_ok (lift (parse_cidr nets oc.properties.network_profile.pod_cidr)) _ w3 h3 in
      let (services, w5, service_cidr, h5) =
        bind_ok (lift (parse_cidr nets oc.properties.network_profile.service_cidr)) _ w4 h4 in
      record {
        between = w2;
        master_network = master;
        worker_network = worker;
        pods = pods;
        services = services;
        masters = subnet-Uses client _ _ w (masters ∙ (λ i. (ok master, moved _ w1 is_first i)));
        worker = first;
        is_first = lifted _ w1 is_first;
        workers = subnet-Uses client _ _ w2 (
            workers ∙ (λ i.
              (ok worker, (moved _ w3 pod_cidr ∙ (moved _ w4 service_cidr ∙ moved _ w5 h5)) i)));
        pod_cidr = parse_cidr-ok nets _ pods (lifted _ w3 pod_cidr);
        service_cidr = parse_cidr-ok nets _ services (lifted _ w4 service_cidr);
        apart = demand-ok _ (linked "") (lifted _ w5 h5);
      }

  -- What the dynamic validation of a cluster, from the world `w` to `w'`, has found. The principal is
  -- the token of the cluster's credentials, and the provider the authorizer of the resource provider in
  -- the cluster's tenant. Each step begins in the world that the step before it left.
  pub record IsAllowed (w w' : World S) : Type 0 where
    pub resource : Resource
    pub parsed : parse_resource_id parse oc.id ≡ ok resource
    pub principal : T
    pub credentials :
        let p = oc.properties.service_principal_profile in
        azure.service_principal_token p.client_id p.client_secret p.tenant_id
          resource_manager_endpoint
        ≡ ok principal
    pub after_profile : World S
    pub after_role : World S
    pub after_principal : World S
    pub after_authorizer : World S
    pub after_provider : World S
    pub profile :
        validate_service_principal_profile azure nets parse oc w ≡ (ok principal, after_profile)
    pub role :
        validate_service_principal_role azure nets parse oc after_profile ≡ (ok tt, after_role)
    pub of_principal : IsGranted resource.subscription_id principal after_role after_principal
    pub provider : T
    pub authorizer :
        call
          (azure.fp_authorizer oc.properties.service_principal_profile.tenant_id
            resource_manager_endpoint)
          after_principal
        ≡ (ok provider, after_authorizer)
    pub of_provider : IsGranted resource.subscription_id provider after_authorizer after_provider
    pub networks : HasNetworks (azure.subnets resource.subscription_id principal) after_provider w'

  -- The token of a profile that passes is that of its credentials.
  profile_token :
      (w : World S) {t : T} {w' : World S}
      → validate_service_principal_profile azure nets parse oc w ≡ (ok t, w')
      → let p = oc.properties.service_principal_profile in
        azure.service_principal_token p.client_id p.client_secret p.tenant_id
          resource_manager_endpoint
        ≡ ok t
  unfolding validate_service_principal_profile
  profile_token w {t} h =
      let p = oc.properties.service_principal_profile in
      let (t1, w1, token, h1) =
        bind_ok
          (lift (
            azure.service_principal_token p.client_id p.client_secret p.tenant_id
              resource_manager_endpoint))
          (λ t. poll azure nets parse polls t >> pure t) w h in
      let (u, w2, polled, h2) = bind_ok (poll azure nets parse polls t1) (λ _. pure t1) w1 h1 in
      lifted _ w token ∙ (λ i. (h2 i).0)

  -- When the dynamic validation succeeds, whatever the services answer and whatever happens between
  -- the requests, the permissions listed for the principal of the cluster's credentials and those
  -- listed for the resource provider in the cluster's tenant each grant the three actions on the
  -- subnets of the masters' virtual network; the subnets of the masters and of the first workers, as
  -- they were shown to that principal, can be used (private link policies, container registry endpoint,
  -- network security group, a /27 at least), and their networks, the pods' and the services' do not
  -- overlap.
  pub dynamic-IsAllowed :
      (w : World S) {w' : World S} → dynamic azure nets parse oc w ≡ (ok tt, w') → IsAllowed w w'
  unfolding dynamic
  dynamic-IsAllowed w h =
      let (r, w1, parsed, h1) = bind_ok (lift (parse_resource_id parse oc.id)) _ w h in
      let (t, w2, token, h2) =
        bind_ok (validate_service_principal_profile azure nets parse oc) _ w1 h1 in
      let (u, w3, role, h3) =
        bind_ok (validate_service_principal_role azure nets parse oc) _ w2 h2 in
      let (v, w4, of_principal, h4) =
        bind_ok
          (validate_vnet_permissions azure nets parse oc r.subscription_id t
            "InvalidServicePrincipalPermissions")
          _ w3 h3 in
      let (fp, w5, asked, h5) =
        bind_ok
          (call (
            azure.fp_authorizer oc.properties.service_principal_profile.tenant_id
              resource_manager_endpoint))
          _ w4 h4 in
      let (x, w6, of_provider, h6) =
        bind_ok
          (validate_vnet_permissions azure nets parse oc r.subscription_id fp
            "InvalidResourceProviderPermissions")
          _ w5 h5 in
      let from_start =
        (λ i. validate_service_principal_profile azure nets parse oc (moved _ w parsed i))
        ∙ token in
      record {
        resource = r;
        parsed = lifted _ w parsed;
        principal = t;
        credentials = profile_token w from_start;
        after_profile = w2;
        after_role = w3;
        after_principal = w4;
        after_authorizer = w5;
        after_provider = w6;
        profile = from_start;
        role = role;
        of_principal = validate_vnet_permissions-IsGranted r.subscription_id t _ w3 of_principal;
        provider = fp;
        authorizer = asked;
        of_provider = validate_vnet_permissions-IsGranted r.subscription_id fp _ w5 of_provider;
        networks = subnets-HasNetworks (azure.subnets r.subscription_id t) w6 h6;
      }
