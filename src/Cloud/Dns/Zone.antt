-- ===== src/Cloud/Dns/Zone.antt =====
-- What is documented of the DNS zone that pkg/util/dns/dns.go keeps its records in.
use aro_rp.Base.{
  String, ◌≡◌, ◌≢◌, refl, ◌==◌, eq_iff, Bool, true, false, Option, none, some, if◌then◌else◌, arith,
}
use aro_rp.Api.Error.{Result, ok, err, detailed}
use aro_rp.Action.{World, M, call, meets}
use aro_rp.Cloud.Dns.{RecordSet, RecordSetsClient, owned_by}

-- The records of a zone, `found s n` being the set of the name `n`
abbrev pub Zone : Type 0 → Type 0
Zone S = S → String → Option RecordSet

module _ {S : Type 0} (found : Zone S) where
  -- A CreateOrUpdate that was answered without an error
  pub record Written (n : String) (r : RecordSet) (if_match if_none_match : String) (s s' : S)
      : Type 0 where
    pub after : RecordSet
    pub stored : found s' n ≡ some after
    pub owner : after.resource_id ≡ r.resource_id
    pub addresses : after.addresses ≡ r.addresses
    pub matched : if_match ≢ "" → (b : RecordSet) × (found s n ≡ some b) × (b.etag ≡ some if_match)
    pub fresh : if_none_match ≡ "*" → found s n ≡ none
    pub untouched : (j : String) → j ≢ n → found s' j ≡ found s j

  -- A Delete that was answered without an error
  pub record Removed (n if_match : String) (s s' : S) : Type 0 where
    pub gone : found s' n ≡ none
    pub matched : if_match ≢ "" → (b : RecordSet) × (found s n ≡ some b) × (b.etag ≡ some if_match)
    pub untouched : (j : String) → j ≢ n → found s' j ≡ found s j

  -- What is documented of the service: conditional requests, and ETags, which are never empty and
  -- tell versions of a set apart.
  pub record IsDocumented (client : RecordSetsClient S) : Type 0 where
    pub get_ok :
        (n : String) (s : S) {r : RecordSet} {s' : S}
        → client.get n s ≡ (ok r, s')
        → (s' ≡ s) × (found s n ≡ some r)
    pub get_missing :
        (n : String) (s : S) {s' : S}
        → client.get n s ≡ (err (detailed 404), s')
        → (s' ≡ s) × (found s n ≡ none)
    pub put_ok :
        (n : String) (r : RecordSet) (m k : String) (s : S) {s' : S}
        → client.create_or_update n r m k s ≡ (ok tt, s')
        → Written n r m k s s'
    pub delete_ok :
        (n m : String) (s : S) {s' : S} → client.delete n m s ≡ (ok tt, s') → Removed n m s s'
    pub tagged :
        (s : S) (n : String) {r : RecordSet} {e : String}
        → found s n ≡ some r
        → r.etag ≡ some e
        → e ≢ ""
    pub versions :
        (s t : S) (n : String) {a b : RecordSet}
        → found s n ≡ some a
        → found t n ≡ some b
        → a.etag ≡ b.etag
        → a.resource_id ≡ b.resource_id

-- The answer to a request, in the state that it met
pub call_ok :
    {S A : Type 0} (f : S → Result A × S) (w : World S) {r : Result A} {w' : World S}
    → call f w ≡ (r, w')
    → f (meets w) ≡ (r, w'.store)
call_ok f w h = λ i. ((h i).0, (h i).1.store)

-- Past a guard whose test is false
pub past_guard :
    {S A : Type 0} (b : Bool) (m n : M S A) (w : World S) {r : Result A × World S}
    → b ≡ false
    → (if b then m else n) w ≡ r
    → n w ≡ r
past_guard true m n w e h = cc
past_guard false m n w e h = h

pub owned_by→eq : (id : String) (r : RecordSet) → owned_by id r ≡ true → r.resource_id ≡ some id
owned_by→eq id r h = by_owner r.resource_id refl
  where
    by_owner : (o : Option String) → r.resource_id ≡ o → r.resource_id ≡ some id
    by_owner none e = cc
    by_owner (some x) e = let same : (x == id) ≡ true = rw e at h in ground (arith, eq_iff x id)
