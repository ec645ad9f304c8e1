-- ===== src/Install/Attach/Kept.antt =====
-- Where the loop at the end of installStorage in pkg/install/0-installstorage.go leaves the subnets.
use aro_rp.Base.{
  String, Bool, true, false, ◌≡◌, refl, sym, ◌∙◌, ap, ◌⊎◌, inl, inr, Option, none, some, [],
  eq_refl, if◌then◌else◌,
}
use aro_rp.Base.Text.{to_lower, equal_fold}
use aro_rp.Api.Error.{Error, Result, ok, err, bind, other}
use aro_rp.Api.Cluster.{WorkerProfile}
use aro_rp.Api.Document.{OpenShiftClusterDocument}
use aro_rp.Action.{World, M, continue, pure, fail, lift, call, ◌>>=◌, ◌>>◌}
use aro_rp.Azure.{Resource, ResourceParser, parse_resource_id}
use aro_rp.Preview.Patterns.{split_subnet}
use aro_rp.Cloud.Subnets as Subnets
use aro_rp.Cloud.Subnets.{Subnet, SubnetsClient, first_worker, network_security_group_id}
use aro_rp.Install.Attach.{format_of, with_group, attach_group, attach, attach_groups}

-- What the client's calls name a subnet by
pub record Key : Type 0 where
  pub resource_group : String
  pub network : String
  pub name : String

-- Where the subnet of an ID is
abbrev pub address : ResourceParser → String → Result Key
address parse id = bind (split_subnet id) λ p.
    bind (parse_resource_id parse p.0)
      λ r. ok (record { resource_group = r.resource_group; network = r.resource_name; name = p.1 })

abbrev pub group : Subnet → Option (Option String)
group t = (format_of t).network_security_group

module _ {S : Type 0} (client : SubnetsClient S) (shown : S → Key → Option Subnet) where
  -- The subnet is there, with this network security group.
  abbrev pub Has : S → Key → Option (Option String) → Type 0
  Has s k g = (t : Subnet) × (shown s k ≡ some t) × (group t ≡ g)

  -- What is documented of Get and CreateOrUpdate. A subnet may have several keys, since case does not
  -- matter; one that is written has afterwards, under each of them, what it had or the group sent.
  pub record IsDocumented : Type 0 where
    pub reads : (k : Key) (s : S) → (client.get k.resource_group k.network k.name s).1 ≡ s
    pub shows :
        (k : Key) (s : S) {t : Subnet}
        → (client.get k.resource_group k.network k.name s).0 ≡ ok t
        → shown s k ≡ some t
    pub changes :
        (k : Key) (t : Subnet) (s : S) (j : Key)
        → let s' = (client.create_or_update_and_wait k.resource_group k.network k.name t s).1 in
          (shown s' j ≡ shown s j) ⊎ ((shown s j ≡ shown s k) × Has s' j (group t))
    pub written :
        (k : Key) (t : Subnet) (s : S)
        → (client.create_or_update_and_wait k.resource_group k.network k.name t s).0 ≡ ok tt
        → Has (client.create_or_update_and_wait k.resource_group k.network k.name t s).1 k (group t)

  -- Every network security group that a subnet had, it still has.
  abbrev pub Keeps : S → S → Type 0
  Keeps s s' = (k : Key) (g : Option String) → Has s k (some g) → Has s' k (some g)

  abbrev pub quiet : S → World S
  quiet s = record { store = s; others = [] }

  module _ (law : IsDocumented) (parse : ResourceParser) (d : OpenShiftClusterDocument) where
    -- The subnet of the ID has the group that it is to have, but for case.
    pub record IsAttached (s : S) (id : String) : Type 0 where
      pub key : Key
      pub located : address parse id ≡ ok key
      pub nsg : String
      pub expected : network_security_group_id d.open_shift_cluster id ≡ ok nsg
      pub attached : String
      pub there : Has s key (some (some attached))
      pub same : equal_fold attached nsg ≡ true

    -- A run that keeps groups, and whose success means that something holds of the state.
    pub record Runs (s : S) (P : S → Type 0) (m : M S (Unit {0})) : Type 0 where
      pub result : Result (Unit {0})
      pub state : S
      pub ran : m (quiet s) ≡ (result, quiet state)
      pub keeps : Keeps s state
      pub succeeded : result ≡ ok tt → P state

    stays : (s : S) → Keeps s s
    stays s k g h = h

    stopped :
        (s : S) (P : S → Type 0) (m : M S (Unit {0})) (e : Error)
        → m (quiet s) ≡ (err e, quiet s)
        → Runs s P m
    stopped s P m e h = record {
      result = err e;
      state = s;
      ran = h;
      keeps = stays s;
      succeeded = λ c. cc c;
    }

    -- The group sent to a subnet without one
    sent :
        (s : S) (id : String) (k : Key) (t : Subnet) (nsg : String)
        → address parse id ≡ ok k
        → network_security_group_id d.open_shift_cluster id ≡ ok nsg
        → shown s k ≡ some t
        → group t ≡ none
        → let (r, s') =
            client.create_or_update_and_wait k.resource_group k.network k.name
              (with_group nsg t)
              s in
          Keeps s s' × (r ≡ ok tt → IsAttached s' id)
    unfolding with_group format_of equal_fold
    sent s id k t nsg located expected is_shown without = (
      λ j g (u, there, its). elim (law.changes k (with_group nsg t) s j) [
        | inl same ↦ (u, same ∙ there, its)
        | inr (alike, _) ↦
            let same : some u ≡ some t = sym there ∙ alike ∙ is_shown in cc (same, its, without)
      ],
      λ done. record {
        key = k;
        located = located;
        nsg = nsg;
        expected = expected;
        attached = nsg;
        there = law.written k (with_group nsg t) s done;
        same = eq_refl (to_lower nsg);
      },
    )

    -- A call of the client for an ID goes where the ID says, or fails before it is made.
    parsed :
        {A : Type 0} (q : Option Resource) (n : String)
        (f : String → String → String → S → Result A × S) (s : S)
        → let r : Result Resource = elim q [
          | none ↦ err (other "parsing failed")
          | some r ↦ ok r
        ] in
          let at : Result Key = bind r λ r.
            ok
              (record { resource_group = r.resource_group; network = r.resource_name; name = n }) in
          let m : M S A = lift r >>= λ r. call (f r.resource_group r.resource_name n) in
          ((e : Error) × (at ≡ err e) × (m (quiet s) ≡ (err e, quiet s)))
          ⊎ ((k : Key) × (at ≡ ok k)
              × (m (quiet s) ≡ call (f k.resource_group k.network k.name) (quiet s)))
    parsed none n f s = inl (_, refl, refl)
    parsed (some r) n f s = inr (_, refl, refl)

    -- the client's call of Subnets.get and Subnets.create_or_update, of what split_subnet gave
    abbrev placed :
        {A : Type 0}
        → Result (String × String)
        → (String → String → String → S → Result A × S)
        → M S A
    placed r f = lift r >>= λ p.
        lift (parse_resource_id parse p.0) >>= λ q. call (f q.resource_group q.resource_name p.1)

    abbrev place : Result (String × String) → Result Key
    place r = bind r λ p. bind (parse_resource_id parse p.0) λ r.
        ok (record { resource_group = r.resource_group; network = r.resource_name; name = p.1 })

    placed_cases :
        {A : Type 0} (r : Result (String × String))
        (f : String → String → String → S → Result A × S) (s : S)
        → ((e : Error) × (place r ≡ err e) × (placed r f (quiet s) ≡ (err e, quiet s)))
          ⊎ ((k : Key) × (place r ≡ ok k)
              × (placed r f (quiet s) ≡ call (f k.resource_group k.network k.name) (quiet s)))
    placed_cases (err e) f s = inl (e, refl, refl)
    placed_cases (ok p) f s = parsed (parse p.0) p.1 f s

    -- where the call of an ID that has a place goes
    placed_at :
        {A : Type 0} (r : Result (String × String))
        (f : String → String → String → S → Result A × S) (s : S) {k : Key}
        → place r ≡ ok k
        → placed r f (quiet s) ≡ call (f k.resource_group k.network k.name) (quiet s)
    placed_at r f s {k} h = elim (placed_cases r f s) [
      | inl (e, off, _) ↦ cc (sym off ∙ h)
      | inr (j, at, same) ↦ let alike : j ≡ k = cc (sym at ∙ h) in rw alike at same
    ]

    group-Runs :
        (s : S) (id : String) (k : Key) (t : Subnet) (nsg : String) (g : Option (Option String))
        → address parse id ≡ ok k
        → network_security_group_id d.open_shift_cluster id ≡ ok nsg
        → shown s k ≡ some t
        → group t ≡ g
        → Runs s (λ s'. IsAttached s' id) (attach_group client parse d id t nsg g)
    unfolding attach_group Subnets.create_or_update
    group-Runs s id k t nsg none located expected there its =
        let (keeps, done) = sent s id k t nsg located expected there its in
        record {
          result = _;
          state = _;
          ran =
              placed_at (split_subnet id)
                (λ g v n. client.create_or_update_and_wait g v n (with_group nsg t)) s located;
          keeps = keeps;
          succeeded = done;
        }
    group-Runs s id k t nsg (some none) located expected there its = stopped s _ _ _ refl
    group-Runs s id k t nsg (some (some a)) located expected there its =
        by_test (equal_fold a nsg) refl
      where
        by_test :
            (b : Bool)
            → equal_fold a nsg ≡ b
            → Runs s
                (λ s'. IsAttached s' id)
                (if b
                  then pure tt
                  else fail (other "tried to overwrite non-nil network security group"))
        by_test true same = record {
          result = ok tt;
          state = s;
          ran = refl;
          keeps = stays s;
          succeeded = λ _. record {
            key = k;
            located = located;
            nsg = nsg;
            expected = expected;
            attached = a;
            there = (t, there, its);
            same = same;
          };
        }
        by_test false different = stopped s _ _ _ refl

    module _ {A : Type 0} (s : S) (P : S → Type 0) (m : M S A) (f : A → M S (Unit {0})) where
      Runs-off : (e : Error) → m (quiet s) ≡ (err e, quiet s) → Runs s P (m >>= f)
      Runs-off e h = stopped s P (m >>= f) e (λ i. continue (h i).0 f (h i).1)

      Runs-after : (a : A) → m (quiet s) ≡ (ok a, quiet s) → Runs s P (f a) → Runs s P (m >>= f)
      Runs-after a h run = record {
        result = run.result;
        state = run.state;
        ran = (λ i. continue (h i).0 f (h i).1) ∙ run.ran;
        keeps = run.keeps;
        succeeded = run.succeeded;
      }

    -- One run after another, if it succeeds
    Runs-then :
        (s : S) (P Q : S → Type 0) (m n : M S (Unit {0}))
        → Runs s P m
        → ((s' : S) → Keeps s s' → P s' → Runs s' Q n)
        → Runs s Q (m >> n)
    Runs-then s P Q m n run next = by_result run.result refl
      where
        by_result : (r : Result (Unit {0})) → run.result ≡ r → Runs s Q (m >> n)
        by_result (err e) h =
            let ended = run.ran ∙ (λ i. (h i, quiet run.state)) in
            record {
              result = err e;
              state = run.state;
              ran = λ i. continue (ended i).0 (λ _. n) (ended i).1;
              keeps = run.keeps;
              succeeded = λ c. cc c;
            }
        by_result (ok u) h =
            let ended = run.ran ∙ (λ i. (h i, quiet run.state)) in
            let rest = next run.state run.keeps (run.succeeded h) in
            record {
              result = rest.result;
              state = rest.state;
              ran = (λ i. continue (ended i).0 (λ _. n) (ended i).1) ∙ rest.ran;
              keeps = λ k g has. rest.keeps k g (run.keeps k g has);
              succeeded = rest.succeeded;
            }

    -- A request for what is there leaves the state alone.
    got :
        (id : String) (k : Key) (s : S)
        → address parse id ≡ ok k
        → Subnets.get client parse id (quiet s)
          ≡ ((client.get k.resource_group k.network k.name s).0, quiet s)
    unfolding Subnets.get
    got id k s located =
        placed_at (split_subnet id) client.get s located
        ∙ (λ i. ((client.get k.resource_group k.network k.name s).0, quiet (law.reads k s i)))

    expected-Runs :
        (s : S) (id : String) (k : Key) (t : Subnet) (n : Result String)
        → address parse id ≡ ok k
        → shown s k ≡ some t
        → network_security_group_id d.open_shift_cluster id ≡ n
        → Runs s
            (λ s'. IsAttached s' id)
            (lift n >>= λ nsg. attach_group client parse d id t nsg (group t))
    expected-Runs s id k t (err e) located there expected =
        Runs-off s (λ s'. IsAttached s' id) (lift {A = String} (err e))
          (λ nsg. attach_group client parse d id t nsg (group t)) e refl
    expected-Runs s id k t (ok nsg) located there expected =
        Runs-after s (λ s'. IsAttached s' id) (lift (ok nsg))
          (λ nsg. attach_group client parse d id t nsg (group t)) nsg refl
          (group-Runs s id k t nsg (group t) located expected there refl)

    attach-Runs : (s : S) (id : String) → Runs s (λ s'. IsAttached s' id) (attach client parse d id)
    unfolding attach Subnets.get
    attach-Runs s id = elim (placed_cases (split_subnet id) client.get s) [
      | inl (e, _, off) ↦ Runs-off s (λ s'. IsAttached s' id) (Subnets.get client parse id) _ e off
      | inr (k, located, _) ↦
          by_answer k located (client.get k.resource_group k.network k.name s).0 refl
    ]
      where
        by_answer :
            (k : Key)
            → address parse id ≡ ok k
            → (r : Result Subnet) → (client.get k.resource_group k.network k.name s).0 ≡ r
            → Runs s (λ s'. IsAttached s' id) (attach client parse d id)
        by_answer k located (err e) h =
            Runs-off s (λ s'. IsAttached s' id) (Subnets.get client parse id) _ e
              (got id k s located ∙ (λ i. (h i, quiet s)))
        by_answer k located (ok t) h =
            Runs-after s (λ s'. IsAttached s' id) (Subnets.get client parse id) _ t
              (got id k s located ∙ (λ i. (h i, quiet s)))
              (expected-Runs s id k t (network_security_group_id d.open_shift_cluster id) located
                (law.shows k s h) refl)

    still-IsAttached : (s s' : S) (id : String) → Keeps s s' → IsAttached s id → IsAttached s' id
    still-IsAttached s s' id keeps a = record {
      key = a.key;
      located = a.located;
      nsg = a.nsg;
      expected = a.expected;
      attached = a.attached;
      there = keeps a.key (some a.attached) a.there;
      same = a.same;
    }

    -- The subnets of the masters and of the first worker profile have the groups meant for them.
    abbrev pub AreAttached : S → Type 0
    AreAttached s =
        IsAttached s d.open_shift_cluster.properties.master_profile.subnet_id
        × ((worker : WorkerProfile) × (first_worker d.open_shift_cluster ≡ ok worker)
            × IsAttached s worker.subnet_id)

    loop-Runs :
        (s : S) (r : Result WorkerProfile)
        → first_worker d.open_shift_cluster ≡ r
        → Runs s AreAttached (
            lift r >>= λ worker.
            attach client parse d d.open_shift_cluster.properties.master_profile.subnet_id
            >> attach client parse d worker.subnet_id)
    loop-Runs s (err e) h = stopped s AreAttached _ e refl
    loop-Runs s (ok worker) h =
        let master = d.open_shift_cluster.properties.master_profile.subnet_id in
        Runs-then s (λ s'. IsAttached s' master) AreAttached (attach client parse d master)
          (attach client parse d worker.subnet_id) (attach-Runs s master)
          (λ s1 _ first.
            let run = attach-Runs s1 worker.subnet_id in
            record {
              result = run.result;
              state = run.state;
              ran = run.ran;
              keeps = run.keeps;
              succeeded = λ done. (
                still-IsAttached s1 run.state master run.keeps first,
                (worker, h, run.succeeded done),
              );
            })

    -- When no other process writes the subnets meanwhile, the loop, whether it succeeds or fails,
    -- leaves every subnet of the service that had a network security group with the group that it had;
    -- and if it succeeds, the cluster has a first worker profile, and the subnet of the masters and the
    -- one of that profile each have the cluster's own group for them, but for case.
    pub attach_groups-Attached :
        (s : S)
        → let (r, w') = attach_groups client parse d (quiet s) in
          Keeps s w'.store × (r ≡ ok tt → AreAttached w'.store)
    unfolding attach_groups
    attach_groups-Attached s =
        let run = loop-Runs s (first_worker d.open_shift_cluster) refl in
        (
          λ k g had. rw run.ran (run.keeps k g had),
          λ done. rw run.ran (run.succeeded (cc (sym (ap (λ p. p.0) run.ran) ∙ done))),
        )
