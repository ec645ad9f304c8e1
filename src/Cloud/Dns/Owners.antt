-- ===== src/Cloud/Dns/Owners.antt =====
-- Of pkg/util/dns/dns.go: a cluster's DNS records stay its own, whatever other processes do.

use aro_rp.Base.{
  String, ◌≡◌, ◌≢◌, ◌⊎◌, inl, inr, refl, sym, ◌∙◌, ◌==◌, eq_iff, false, Bool-cases, eqb, Option,
  none, some, List, if◌then◌else◌, arith,
}
use aro_rp.Api.Error.{Result, ok, err, other, cosmos, cloud, status_code, detailed}
use aro_rp.Api.Cluster.{OpenShiftCluster}
use aro_rp.Action.{World, M, attempt, call, bind_ok, lift, fail, pure, meets, ◌>>=◌, ◌>>◌}
use aro_rp.Cloud.{Env}
use aro_rp.Cloud.Dns.{
  RecordSet, RecordSetsClient, managed, api_name, apps_name, owned_by, etag_of, api_record,
  create_or_update, create_after, create, delete_after, delete,
}
use aro_rp.Cloud.Dns.Zone.{Zone, Written, IsDocumented, call_ok, past_guard, owned_by→eq}

module _ {S : Type 0} (env : Env) (client : RecordSetsClient S) (oc : OpenShiftCluster)
    (found : Zone S) (law : IsDocumented found client) where
  abbrev domain : String
  domain = managed env client oc

  abbrev api : String
  api = api_name domain

  is_managed : domain ≢ "" → (domain == "") ≡ false
  is_managed h = ground (arith, eq_iff domain "")

  -- The world after the Get that Create, Update and Delete begin with
  abbrev pub after_get : World S → World S
  after_get w = (call (client.get api) w).1

  -- The API's record is the cluster's and has the addresses; in the state `met` that the write met it
  -- was as `Before` says, and the write changed no other record.
  pub record IsOurs (Before : Option RecordSet → Type 0) (addresses : List String) (met s : S)
      : Type 0 where
    pub before : Before (found met api)
    pub after : RecordSet
    pub stored : found s api ≡ some after
    pub ours : after.resource_id ≡ some oc.id
    pub written : after.addresses ≡ addresses
    pub untouched : (j : String) → j ≢ api → found s j ≡ found met j

  abbrev pub Owned : Option RecordSet → Type 0
  Owned o = (b : RecordSet) × (o ≡ some b) × (b.resource_id ≡ some oc.id)

  abbrev pub Absent : Option RecordSet → Type 0
  Absent o = o ≡ none

  etag_of_ok : (r : RecordSet) (t : String) → etag_of r ≡ ok t → r.etag ≡ some t
  etag_of_ok r t h = by_etag r.etag refl
    where
      by_etag : (o : Option String) → r.etag ≡ o → r.etag ≡ some t
      by_etag none e = cc
      by_etag (some x) e = cc

  -- the request of createOrUpdate, where the domain is managed
  put_request :
      (ip m k : String) (w : World S) {w' : World S}
      → domain ≢ ""
      → create_or_update env client oc ip m k w ≡ (ok tt, w')
      → Written found api (api_record oc.id ip) m k (meets w) w'.store
  unfolding create_or_update
  put_request ip m k w h run =
      let same : call (client.create_or_update api (api_record oc.id ip) m k) w ≡ (ok tt, _) =
        rw (is_managed h) at run in
      law.put_ok api (api_record oc.id ip) m k (meets w)
        (call_ok (client.create_or_update api (api_record oc.id ip) m k) w same)

  -- What follows Get in Update
  abbrev checked_put : String → RecordSet → M S (Unit {0})
  checked_put ip rs =
      if owned_by oc.id rs
      then lift (etag_of rs) >>= (λ t. create_or_update env client oc ip t "")
      else fail (other "recordset already registered")

  -- A set whose ETag a request carried has the owner that Get showed.
  same_owner :
      (s m : S) (n : String) (rs : RecordSet) (t : String)
      → found s n ≡ some rs
      → rs.resource_id ≡ some oc.id
      → rs.etag ≡ some t
      → (t ≢ "" → (b : RecordSet) × (found m n ≡ some b) × (b.etag ≡ some t))
      → Owned (found m n)
  same_owner s m n rs t shown ours tag matched =
      let (b, there, tag') = matched (law.tagged s n shown tag) in
      (b, there, sym (law.versions s m n shown there (tag ∙ sym tag')) ∙ ours)

  -- What Create did between the world at its start and the state at its end: Get met a record of the
  -- cluster, and nothing was written, or the write met no record.
  abbrev pub Created : World S → S → Type 0
  Created w s =
      (Owned (found (meets w) api) × (s ≡ meets w)) ⊎ IsOurs Absent List.[] (meets (after_get w)) s

  finish_create :
      (r : Result RecordSet) (s : S) (w : World S) {w' : World S}
      → domain ≢ ""
      → ((rs : RecordSet) → r ≡ ok rs → (w.store ≡ s) × (found s api ≡ some rs))
      → create_after env client oc r w ≡ (ok tt, w')
      → (Owned (found s api) × (w'.store ≡ s)) ⊎ IsOurs Absent List.[] (meets w) w'.store
  unfolding create_after api_record
  finish_create (ok rs) s w {w'} h shown run = elim (Bool-cases (owned_by oc.id rs)) [
    | inr other_owner ↦ cc (rw other_owner at run)
    | inl ours ↦
        let kept : pure tt w ≡ (ok tt, w') = rw ours at run in
        inl (
          (rs, (shown rs refl).1, owned_by→eq oc.id rs ours),
          (λ i. (sym kept i).1.store) ∙ (shown rs refl).0,
        )
  ]
  finish_create (err (detailed status)) s w {w'} h shown run = elim (Bool-cases (eqb status 404)) [
    | inr failed ↦ cc (rw failed at run)
    | inl missing ↦
        let put : create_or_update env client oc "" "" "*" w ≡ (ok tt, w') = rw missing at run in
        let written = put_request "" "" "*" w h put in
        inr (record {
          before = written.fresh refl;
          after = written.after;
          stored = written.stored;
          ours = written.owner;
          written = written.addresses;
          untouched = written.untouched;
        })
  ]
  finish_create (err (cosmos status)) s w h shown run = cc
  finish_create (err (cloud e)) s w h shown run = cc
  finish_create (err (status_code status)) s w h shown run = cc
  finish_create (err (other text)) s w h shown run = cc

  -- A Create of a managed domain that succeeds has either met the cluster's own record, and left the
  -- zone as it was, or written the record without an address, and no other, in a state in which the
  -- zone had none.
  pub create-Created :
      (w : World S) {w' : World S}
      → domain ≢ ""
      → create env client oc w ≡ (ok tt, w')
      → Created w w'.store
  unfolding create
  create-Created w {w'} h run =
      let steps : create_after env client oc (call (client.get api) w).0 (after_get w)
          ≡ (ok tt, w') =
        rw (is_managed h) at run in
      let answered = call_ok (client.get api) w refl in
      finish_create (call (client.get api) w).0 (meets w) (after_get w) h
        (λ rs e. law.get_ok api (meets w) (answered ∙ (λ i. (e i, (after_get w).store)))) steps

  -- The world after Delete has deleted the router's record
  abbrev pub after_router : World S → World S
  after_router w = (call (client.delete (apps_name domain) "") (after_get w)).1

  -- What Delete did where the record was the cluster's own: the record was still the cluster's in the
  -- state that its deletion met, and only it and the router's went.
  pub record IsDeleted (w : World S) (s : S) : Type 0 where
    pub shown : Owned (found (meets w) api)
    pub before : Owned (found (meets (after_router w)) api)
    pub router_gone : found (after_router w).store (apps_name domain) ≡ none
    pub gone : found s api ≡ none
    pub untouched : (j : String) → j ≢ api → found s j ≡ found (meets (after_router w)) j
    pub router_only :
        (j : String)
        → j ≢ apps_name domain
        → found (after_router w).store j ≡ found (meets (after_get w)) j

  -- Get met no record or another's, and nothing was written.
  pub record Kept (w : World S) (s : S) : Type 0 where
    pub unchanged : s ≡ meets w
    pub others :
        (found (meets w) api ≡ none)
        ⊎ ((r : RecordSet) × (found (meets w) api ≡ some r) × (owned_by oc.id r ≡ false))

  -- the requests of Delete after Get
  abbrev removal : RecordSet → M S (Unit {0})
  removal rs =
      call (client.delete (apps_name domain) "")
      >> (lift (etag_of rs) >>= λ t. call (client.delete api t))

  remove_all :
      (rs : RecordSet) (w : World S) {w' : World S}
      → found (meets w) api ≡ some rs
      → rs.resource_id ≡ some oc.id
      → removal rs (after_get w) ≡ (ok tt, w')
      → IsDeleted w w'.store
  remove_all rs w shown ours run =
      let w0 = after_get w in
      let (u, w1, first, rest) =
        bind_ok (call (client.delete (apps_name domain) ""))
          (λ _. lift (etag_of rs) >>= λ t. call (client.delete api t)) w0 run in
      let router =
        law.delete_ok (apps_name domain) "" (meets w0)
          (call_ok (client.delete (apps_name domain) "") w0 first) in
      let (t, w2, tag, last) =
        bind_ok (lift (etag_of rs)) (λ t. call (client.delete api t)) w1 rest in
      let same : w2 ≡ after_router w = (λ i. (sym tag i).1) ∙ (λ i. (sym first i).1) in
      let then_ : w1 ≡ after_router w = λ i. (sym first i).1 in
      let gone = law.delete_ok api t (meets w2) (call_ok (client.delete api t) w2 last) in
      let owned =
        same_owner (meets w) (meets w2) api rs t shown ours (etag_of_ok rs t (λ i. (tag i).0))
          gone.matched in
      record {
        shown = (rs, shown, ours);
        before = rw same at owned;
        router_gone = (λ i. found (sym then_ i).store (apps_name domain)) ∙ router.gone;
        gone = gone.gone;
        untouched = λ j h. gone.untouched j h ∙ (λ i. found (meets (same i)) j);
        router_only = λ j h. (λ i. found (sym then_ i).store j) ∙ router.untouched j h;
      }

  finish_delete :
      (r : Result RecordSet) (w : World S) {w' : World S}
      → (r ≡ err (detailed 404) → ((after_get w).store ≡ meets w) × (found (meets w) api ≡ none))
      → ((rs : RecordSet)
          → r ≡ ok rs
          → ((after_get w).store ≡ meets w) × (found (meets w) api ≡ some rs))
      → delete_after env client oc r (after_get w) ≡ (ok tt, w')
      → Kept w w'.store ⊎ IsDeleted w w'.store
  unfolding delete_after
  finish_delete (ok rs) w {w'} missing shown run = elim (Bool-cases (owned_by oc.id rs)) [
    | inr others ↦
        let kept : pure tt (after_get w) ≡ (ok tt, w') = rw others at run in
        let (same, there) = shown rs refl in
        inl (record {
          unchanged = (λ i. (sym kept i).1.store) ∙ same;
          others = inr (rs, there, others);
        })
    | inl ours ↦
        inr (remove_all rs w (shown rs refl).1 (owned_by→eq oc.id rs ours) (rw ours at run))
  ]
  finish_delete (err (detailed status)) w {w'} missing shown run =
      elim (Bool-cases (eqb status 404)) [
        | inr failed ↦ cc (rw failed at run)
        | inl gone ↦
            let kept : pure tt (after_get w) ≡ (ok tt, w') = rw gone at run in
            let same : status ≡ 404 = ground arith in
            let (left, none_there) = missing (λ i. err (detailed (same i))) in
            inl (record { unchanged = (λ i. (sym kept i).1.store) ∙ left; others = inl none_there })
      ]
  finish_delete (err (cosmos status)) w missing shown run = cc
  finish_delete (err (cloud e)) w missing shown run = cc
  finish_delete (err (status_code status)) w missing shown run = cc
  finish_delete (err (other text)) w missing shown run = cc

  -- A Delete of a managed domain that succeeds has either met no record of the API or another
  -- cluster's, and left the zone as it was; or it met the cluster's own and removed the router's record
  -- and then the API's, which was still the cluster's own in the state that its deletion met, and
  -- neither request changed another record.
  pub delete-IsDeleted :
      (w : World S) {w' : World S}
      → domain ≢ ""
      → delete env client oc w ≡ (ok tt, w')
      → Kept w w'.store ⊎ IsDeleted w w'.store
  unfolding delete
  delete-IsDeleted w {w'} h run =
      let answer = call (client.get api) w in
      let steps : delete_after env client oc answer.0 answer.1 ≡ (ok tt, w') =
        past_guard (domain == "") (pure tt)
          (attempt (call (client.get api)) >>= delete_after env client oc) w (is_managed h) run in
      let answered = call_ok (client.get api) w refl in
      let answered_as =
        λ (r : Result RecordSet) (e : answer.0 ≡ r). answered ∙ (λ i. (e i, answer.1.store)) in
      finish_delete answer.0 w
        (λ e. law.get_missing api (meets w) (answered_as (err (detailed 404)) e))
        (λ rs e. law.get_ok api (meets w) (answered_as (ok rs) e)) steps
