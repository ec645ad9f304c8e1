-- ===== src/Backend/Manager/Deletion.antt =====
-- What Delete of pkg/backend/openshiftcluster/delete.go has done when it succeeds.
use aro_rp.Base.{
  String, Bool, true, false, Bool-cases, eqb, ◌≡◌, refl, ◌∙◌, ◌⊎◌, inl, inr, Option, none, some,
  if◌then◌else◌, arith,
}
use aro_rp.Base.Text.{equal_fold}
use aro_rp.Api.Error.{Result, ok, err, other, cosmos, cloud, status_code, detailed}
use aro_rp.Api.Cluster.{WorkerProfile}
use aro_rp.Api.Document.{OpenShiftClusterDocument}
use aro_rp.Action.{World, M, pure, lift, call, bind_ok}
use aro_rp.Cloud.Subnets as Subnets
use aro_rp.Cloud.Subnets.{Subnet, first_worker, network_security_group_id}
use aro_rp.Cloud.Dns as Dns
use aro_rp.Cloud.PrivateEndpoint as PrivateEndpoint
use aro_rp.Cloud.Clients.{Clients, after_slash}
use aro_rp.Backend.Manager.{
  ignore, with_group, group_of, remove_group, detach_after, detach, forgiven, delete,
}

module _ {S : Type 0} (clients : Clients S) (d : OpenShiftClusterDocument) where
  -- The subnet was shown with the network security group of the cluster for it, and the subnet without
  -- a group was sent.
  pub record Detaches (id : String) (w w' : World S) : Type 0 where
    pub subnet : Subnet
    pub shown : (Subnets.get clients.subnets clients.parse id w).0 ≡ ok subnet
    pub nsg : String
    pub expected : network_security_group_id d.open_shift_cluster id ≡ ok nsg
    pub attached : String
    pub there : group_of subnet ≡ some (some attached)
    pub same : equal_fold attached nsg ≡ true
    pub sent :
        (Subnets.create_or_update clients.subnets clients.parse id
          (with_group none subnet)
          (Subnets.get clients.subnets clients.parse id w).1).1
        ≡ w'

  -- Nothing but Get was sent, or the cluster's own group was detached.
  abbrev pub Detached : String → World S → World S → Type 0
  Detached id w w' = ((Subnets.get clients.subnets clients.parse id w).1 ≡ w') ⊎ Detaches id w w'

  same_world : (w : World S) {w' : World S} → pure tt w ≡ (ok tt, w') → w ≡ w'
  same_world w h i = (h i).1

  group-Detached :
      (id : String) (w : World S) (s : Subnet) (nsg : String) (g : Option (Option String))
      {w' : World S}
      → (Subnets.get clients.subnets clients.parse id w).0 ≡ ok s
      → network_security_group_id d.open_shift_cluster id ≡ ok nsg
      → group_of s ≡ g
      → remove_group clients d id s nsg g (Subnets.get clients.subnets clients.parse id w).1
        ≡ (ok tt, w')
      → Detached id w w'
  unfolding remove_group
  group-Detached id w s nsg none shown expected e h = inl (same_world _ h)
  group-Detached id w s nsg (some none) shown expected e h = cc
  group-Detached id w s nsg (some (some attached)) {w'} shown expected e h =
      by_test (equal_fold attached nsg) refl h
    where
      by_test :
          (b : Bool)
          → equal_fold attached nsg ≡ b
          → (if b
                then ignore
                    (Subnets.create_or_update clients.subnets clients.parse id (with_group none s))
                else pure tt)
              (Subnets.get clients.subnets clients.parse id w).1
            ≡ (ok tt, w')
          → Detached id w w'
      by_test true same h = inr (record {
        subnet = s;
        shown = shown;
        nsg = nsg;
        expected = expected;
        attached = attached;
        there = e;
        same = same;
        sent = λ i. (h i).1;
      })
      by_test false different h = inl (same_world _ h)

  answer-Detached :
      (id : String) (w : World S) (r : Result Subnet) {w' : World S}
      → (Subnets.get clients.subnets clients.parse id w).0 ≡ r
      → detach_after clients d id r (Subnets.get clients.subnets clients.parse id w).1 ≡ (ok tt, w')
      → Detached id w w'
  unfolding detach_after
  answer-Detached id w (err e) shown h = inl (same_world _ h)
  answer-Detached id w (ok s) {w'} shown h =
      by_expected (network_security_group_id d.open_shift_cluster id) refl h
    where
      by_expected :
          (n : Result String)
          → network_security_group_id d.open_shift_cluster id ≡ n
          → (elim n as (λ _. M S (Unit {0})) [
            | err e ↦ pure tt
            | ok nsg ↦ remove_group clients d id s nsg (group_of s)
          ])
              (Subnets.get clients.subnets clients.parse id w).1
            ≡ (ok tt, w')
          → Detached id w w'
      by_expected (err e) expected h = inl (same_world _ h)
      by_expected (ok nsg) expected h = group-Detached id w s nsg (group_of s) shown expected refl h

  detach-Detached :
      (id : String) (w : World S) {w' : World S}
      → detach clients d id w ≡ (ok tt, w')
      → Detached id w w'
  unfolding detach
  detach-Detached id w h =
      answer-Detached id w (Subnets.get clients.subnets clients.parse id w).0 refl h

  forgiven-ok :
      (r : Result (Unit {0})) → forgiven r ≡ ok tt → (r ≡ ok tt) ⊎ (r ≡ err (detailed 403))
  unfolding forgiven
  forgiven-ok (ok u) h = inl refl
  forgiven-ok (err (detailed status)) h = elim (Bool-cases (eqb status 403)) [
    | inl e ↦ let same : status ≡ 403 = ground arith in inr (λ i. err (detailed (same i)))
    | inr e ↦ cc (rw e at h)
  ]
  forgiven-ok (err (cosmos status)) h = cc
  forgiven-ok (err (cloud e)) h = cc
  forgiven-ok (err (status_code status)) h = cc
  forgiven-ok (err (other text)) h = cc

  -- What has been done, in this order, between the worlds before and after
  pub record IsTornDown (w w' : World S) : Type 0 where
    pub after_dns : World S
    pub after_masters : World S
    pub after_workers : World S
    pub after_endpoint : World S
    pub worker : WorkerProfile
    pub is_first : first_worker d.open_shift_cluster ≡ ok worker
    pub dns : Dns.delete clients.env clients.record_sets d.open_shift_cluster w ≡ (ok tt, after_dns)
    pub masters :
        Detached d.open_shift_cluster.properties.master_profile.subnet_id after_dns after_masters
    pub workers : Detached worker.subnet_id after_masters after_workers
    pub endpoint :
        PrivateEndpoint.delete clients.env clients.private_endpoints d after_workers
        ≡ (ok tt, after_endpoint)
    pub group :
        let answer =
          call
            (clients.groups
              (after_slash d.open_shift_cluster.properties.cluster_profile.resource_group_id))
            after_endpoint in
        ((answer.0 ≡ ok tt) ⊎ (answer.0 ≡ err (detailed 403))) × (answer.1 ≡ w')

  -- When Delete succeeds, it has deleted the DNS records first; of each of the two subnets it has then
  -- read the state, and sent it without a network security group only if the group there was the
  -- cluster's own for that subnet; then it has deleted the private endpoint, and last the resource group
  -- has been deleted or the right to do so was refused.
  pub delete-IsTornDown :
      (w : World S) {w' : World S} → delete clients d w ≡ (ok tt, w') → IsTornDown w w'
  unfolding delete
  delete-IsTornDown w h =
      let (u, w1, dns, h1) =
        bind_ok (Dns.delete clients.env clients.record_sets d.open_shift_cluster) _ w h in
      let (worker, w2, first, h2) = bind_ok (lift (first_worker d.open_shift_cluster)) _ w1 h1 in
      let (v, w3, masters, h3) =
        bind_ok (detach clients d d.open_shift_cluster.properties.master_profile.subnet_id) _ w2
          h2 in
      let (x, w4, workers, h4) = bind_ok (detach clients d worker.subnet_id) _ w3 h3 in
      let (y, w5, endpoint, h5) =
        bind_ok (PrivateEndpoint.delete clients.env clients.private_endpoints d) _ w4 h4 in
      let answer =
        call
          (clients.groups
            (after_slash d.open_shift_cluster.properties.cluster_profile.resource_group_id))
          w5 in
      record {
        after_dns = w2;
        after_masters = w3;
        after_workers = w4;
        after_endpoint = w5;
        worker = worker;
        is_first = λ i. (first i).0;
        dns = dns ∙ (λ i. (ok tt, (first i).1));
        masters = detach-Detached _ w2 masters;
        workers = detach-Detached _ w3 workers;
        endpoint = endpoint;
        group = (forgiven-ok answer.0 (λ i. (h5 i).0), λ i. (h5 i).1);
      }
