-- ===== src/Cloud/Dns.antt =====
-- pkg/util/dns/dns.go
pub mod Names
pub mod Zone
pub mod Owners
use Prim.Native.Char.{Char, code}
use Prim.Native.String.{String, [], ◌∷◌}
use Prim.Native.String
use mathlib.Core.List as List
use aro_rp.Base.{ℕ, Bool, false, ◌==◌, eqb, ◌||◌, Option, none, some, List, if◌then◌else◌}
use aro_rp.Api.Error.{Error, Result, ok, err, other, detailed}
use aro_rp.Api.Cluster.{OpenShiftCluster}
use aro_rp.Action.{M, pure, fail, lift, attempt, call, ◌>>=◌, ◌>>◌}
use aro_rp.Cloud.{Env}

-- dns.RecordSet: the ETag that the service keeps, the metadata's entry `resourceId`, the time to live
-- and the addresses of its A records.
pub record RecordSet : Type 0 where
  pub etag : Option String
  pub resource_id : Option String
  pub ttl : ℕ
  pub addresses : List String

-- dns.RecordSetsClient on the A records of the resource provider's zone: Get, CreateOrUpdate with its
-- ifMatch and ifNoneMatch, and Delete with its ifMatch, of a name
pub record RecordSetsClient (S : Type 0) : Type 0 where
  pub get : String → S → Result RecordSet × S
  pub create_or_update : String → RecordSet → String → String → S → Result (Unit {0}) × S
  pub delete : String → String → S → Result (Unit {0}) × S

-- strings.TrimSuffix, of a suffix that is not empty
unfoldable pub trim_suffix : String → String → String
trim_suffix suffix [] = []
trim_suffix suffix (c ∷ s) =
    let rest = trim_suffix suffix s in if (c ∷ s) == suffix then [] else c ∷ rest

-- strings.ContainsRune(s, '.')
unfoldable pub has_dot : String → Bool
has_dot [] = false
has_dot (c ∷ s) = eqb (code c) 46 || has_dot s

-- managedDomain
unfoldable pub managed_domain : Env → String → String
unfolding trim_suffix has_dot
managed_domain env domain =
    let d = trim_suffix (String.◌++◌ "." env.domain) domain in if has_dot d then "" else d

abbrev pub api_name : String → String
api_name d = String.◌++◌ "api." d

abbrev pub apps_name : String → String
apps_name d = String.◌++◌ "*.apps." d

-- `rs.Metadata[resourceID] == nil || *rs.Metadata[resourceID] != oc.ID`, negated
abbrev pub owned_by : String → RecordSet → Bool
owned_by id rs = elim rs.resource_id [ none ↦ false | some owner ↦ owner == id ]

-- *rs.Etag
abbrev pub etag_of : RecordSet → Result String
etag_of rs = elim rs.etag [ none ↦ err (other "nil pointer dereference") | some e ↦ ok e ]

-- The record set that createOrUpdate writes.
unfoldable pub api_record : String → String → RecordSet
api_record id ip = record {
  etag = none;
  resource_id = some id;
  ttl = 300;
  addresses = if ip == "" then List.[] else List.◌∷◌ ip List.[];
}

module _ {S : Type 0} (env : Env) (client : RecordSetsClient S) (oc : OpenShiftCluster) where
  abbrev pub managed : String
  managed = managed_domain env oc.properties.cluster_profile.domain

  -- createOrUpdate
  unfoldable pub create_or_update : String → String → String → M S (Unit {0})
  unfolding api_record
  create_or_update ip if_match if_none_match =
      if managed == ""
      then pure tt
      else call
          (client.create_or_update (api_name managed) (api_record oc.id ip) if_match if_none_match)

  -- What Create does with the answer of Get
  unfoldable pub create_after : Result RecordSet → M S (Unit {0})
  unfolding create_or_update
  create_after (ok rs) =
      if owned_by oc.id rs then pure tt else fail (other "recordset already registered")
  create_after (err (detailed status)) =
      if eqb status 404 then create_or_update "" "" "*" else fail (detailed status)
  create_after (err e) = fail e

  -- Create
  unfoldable pub create : M S (Unit {0})
  unfolding create_after
  create =
      if managed == ""
      then pure tt
      else (do r ← attempt (call (client.get (api_name managed))); create_after r)

  -- Update
  unfoldable pub update : String → M S (Unit {0})
  unfolding create_or_update
  update ip = if managed == "" then pure tt else (do
    rs ← call (client.get (api_name managed))
    if owned_by oc.id rs
        then (do e ← lift (etag_of rs); create_or_update ip e "")
        else fail (other "recordset already registered"))

  -- CreateOrUpdateRouter
  unfoldable pub create_or_update_router : String → M S (Unit {0})
  create_or_update_router ip =
      if managed == ""
      then pure tt
      else call (
          client.create_or_update (apps_name managed)
            (record { etag = none; resource_id = none; ttl = 300; addresses = List.◌∷◌ ip List.[] })
            "" "")

  -- What Delete does with the answer of Get
  unfoldable pub delete_after : Result RecordSet → M S (Unit {0})
  delete_after (err (detailed status)) = if eqb status 404 then pure tt else fail (detailed status)
  delete_after (err e) = fail e
  delete_after (ok rs) =
      if owned_by oc.id rs
      then (do
        call (client.delete (apps_name managed) "")
        e ← lift (etag_of rs)
        call (client.delete (api_name managed) e))
      else pure tt

  -- Delete
  unfoldable pub delete : M S (Unit {0})
  unfolding delete_after
  delete =
      if managed == ""
      then pure tt
      else (do r ← attempt (call (client.get (api_name managed))); delete_after r)
