-- ===== src/Cloud/Memory.antt =====
-- A DNS zone in memory, for which the documented laws of the record sets hold.

use Prim.Native.Char.{code}
use aro_rp.Base.{
  ℕ, String, ◌≡◌, ◌≢◌, refl, sym, ◌∙◌, ap, ◌==◌, eq_iff, eq_refl, Bool, true, false, not, ◌&&◌,
  ◌||◌, Option, none, some, List, if◌then◌else◌, arith,
}
use aro_rp.Api.Error.{Result, ok, err, detailed}
use aro_rp.Cloud.Dns.{RecordSet, RecordSetsClient}
use aro_rp.Cloud.Dns.Zone.{Written, Removed, IsDocumented}

-- A set without its ETag, which says who owns it
pub record Entry : Type 0 where
  pub owner : Option String
  pub addresses : List String

abbrev pub Names : Type 0
Names = String → Option Entry

abbrev tag : Option String → String
tag none = "n"
tag (some id) = String.◌∷◌ "o" id

abbrev shown : Entry → RecordSet
shown c = record {
  etag = some (tag c.owner);
  resource_id = c.owner;
  ttl = 300;
  addresses = c.addresses;
}

abbrev as_set : Option Entry → Option RecordSet
as_set none = none
as_set (some c) = some (shown c)

abbrev pub found : Names → String → Option RecordSet
found s n = as_set (s n)

abbrev answer : Option Entry → Result RecordSet
answer none = err (detailed 404)
answer (some c) = ok (shown c)

abbrev change : Names → String → Option Entry → Names
change s n o j = if j == n then o else s j

abbrev allowed : String → String → Option Entry → Bool
allowed m k none = m == ""
allowed m k (some c) = (m == "" || tag c.owner == m) && not (k == "*")

abbrev pub zone : RecordSetsClient Names
zone = record {
  get = λ n s. (answer (s n), s);
  create_or_update = λ n r m k s.
      if allowed m k (s n)
      then (ok tt, change s n (some (record { owner = r.resource_id; addresses = r.addresses })))
      else (err (detailed 412), s);
  delete =
      λ n m s. if allowed m "" (s n) then (ok tt, change s n none) else (err (detailed 412), s);
}

head_code : String → ℕ
head_code String.[] = 0
head_code (String.◌∷◌ c s) = code c

tag-inj : (a b : Option String) → tag a ≡ tag b → a ≡ b
unfolding head_code
tag-inj none none e = refl
tag-inj none (some b) e = absurd (omega (arith, ap head_code e))
tag-inj (some a) none e = absurd (omega (arith, ap head_code e))
tag-inj (some a) (some b) e = cc

found-change_self : (s : Names) (n : String) (o : Option Entry) → change s n o n ≡ o
found-change_self s n o = rw (eq_refl n)

found-change_other :
    (s : Names) (n j : String) (o : Option Entry) → j ≢ n → found (change s n o) j ≡ found s j
found-change_other s n j o h =
    let e : (j == n) ≡ false = ground (arith, eq_iff j n) in ap as_set (rw e)

module _ (m k : String) where
  matched :
      (s : Names) (n : String) (o : Option Entry)
      → s n ≡ o
      → allowed m k o ≡ true
      → m ≢ ""
      → (b : RecordSet) × (found s n ≡ some b) × (b.etag ≡ some m)
  matched s n none e h c = absurd (c ((eq_iff m "").0 h))
  matched s n (some c) e h ne =
      (shown c, ap as_set e, ground (arith, eq_iff m "", eq_iff (tag c.owner) m))

  fresh :
      (s : Names) (n : String) (o : Option Entry)
      → s n ≡ o
      → allowed m k o ≡ true
      → k ≡ "*"
      → found s n ≡ none
  fresh s n none e h c = ap as_set e
  fresh s n (some x) e h c = ground (arith, eq_iff k "*")

abbrev Done : Type 0
Done = Result (Unit {0}) × Names

abbrev Got : Type 0
Got = Result RecordSet × Names

zone-put :
    (n : String) (r : RecordSet) (m k : String) (s : Names) (b : Bool) {s' : Names}
    → allowed m k (s n) ≡ b
    → ◌≡◌ {A = Done}
        (if b
          then (
            ok tt,
            change s n (some (record { owner = r.resource_id; addresses = r.addresses })),
          )
          else (err (detailed 412), s))
        (ok tt, s')
    → Written found n r m k s s'
zone-put n r m k s true {s'} e run =
    let c : Entry = record { owner = r.resource_id; addresses = r.addresses } in
    let after = λ (j : String). ap (λ (p : Result (Unit {0}) × Names). found p.1 j) (sym run) in
    record {
      after = shown c;
      stored = after n ∙ ap as_set (found-change_self s n (some c));
      owner = refl;
      addresses = refl;
      matched = matched m k s n (s n) refl e;
      fresh = fresh m k s n (s n) refl e;
      untouched = λ j h. after j ∙ found-change_other s n j (some c) h;
    }
zone-put n r m k s false e run = cc

zone-delete :
    (n m : String) (s : Names) (b : Bool) {s' : Names}
    → allowed m "" (s n) ≡ b
    → ◌≡◌ {A = Done} (if b then (ok tt, change s n none) else (err (detailed 412), s)) (ok tt, s')
    → Removed found n m s s'
zone-delete n m s true {s'} e run =
    let after = λ (j : String). ap (λ (p : Result (Unit {0}) × Names). found p.1 j) (sym run) in
    record {
      gone = after n ∙ ap as_set (found-change_self s n none);
      matched = matched m "" s n (s n) refl e;
      untouched = λ j h. after j ∙ found-change_other s n j none h;
    }
zone-delete n m s false e run = cc

zone-get :
    (o : Option Entry) (s : Names) {r : RecordSet} {s' : Names}
    → ◌≡◌ {A = Got} (answer o, s) (ok r, s')
    → (s' ≡ s) × (as_set o ≡ some r)
zone-get none s h = cc
zone-get (some c) s h = (λ i. (sym h i).1, cc (ap (λ (p : Result RecordSet × Names). p.0) h))

zone-missing :
    (o : Option Entry) (s : Names) {s' : Names}
    → ◌≡◌ {A = Got} (answer o, s) (err (detailed 404), s')
    → (s' ≡ s) × (as_set o ≡ none)
zone-missing none s h = (λ i. (sym h i).1, refl)
zone-missing (some c) s h = cc

tag-ne-nil : (o : Option String) → tag o ≢ ""
unfolding head_code
tag-ne-nil none e = omega (arith, ap head_code e)
tag-ne-nil (some id) e = omega (arith, ap head_code e)

as_set-tagged :
    (o : Option Entry) {r : RecordSet} {t : String} → as_set o ≡ some r → r.etag ≡ some t → t ≢ ""
as_set-tagged none e f g = cc
as_set-tagged (some c) e f g = tag-ne-nil c.owner (cc)

as_set-versions :
    (o p : Option Entry) {a b : RecordSet}
    → as_set o ≡ some a
    → as_set p ≡ some b
    → a.etag ≡ b.etag
    → a.resource_id ≡ b.resource_id
as_set-versions none p e f g = cc
as_set-versions (some c) none e f g = cc
as_set-versions (some c) (some d) e f g = let same = tag-inj c.owner d.owner (cc) in cc

pub zone-IsDocumented : IsDocumented found zone
zone-IsDocumented = record {
  get_ok = λ n s. zone-get (s n) s;
  get_missing = λ n s. zone-missing (s n) s;
  put_ok = λ n r m k s. zone-put n r m k s (allowed m k (s n)) refl;
  delete_ok = λ n m s. zone-delete n m s (allowed m "" (s n)) refl;
  tagged = λ s n. as_set-tagged (s n);
  versions = λ s t n. as_set-versions (s n) (t n);
}
