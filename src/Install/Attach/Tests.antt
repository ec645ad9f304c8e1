-- ===== src/Install/Attach/Tests.antt =====
-- Runs of the loop at the end of installStorage on two subnets in memory, and the theorem there.
use aro_rp.Base.{String, ◌≡◌, refl, ◌==◌, Bool, true, false, ◌⊎◌, inl, inr, Option, none, some}
use aro_rp.Base.Text.{to_lower, equal_fold}
use aro_rp.Base.Split.{split}
use aro_rp.Api.Error.{Result, ok, err, detailed, other}
use aro_rp.Preview.Patterns.{split_subnet}
use aro_rp.Cloud.Subnets as Subnets
use aro_rp.Cloud.Subnets.{Subnet, SubnetsClient, first_worker, network_security_group_id}
use aro_rp.Backend.Manager.Tests.{doc, clients}
use aro_rp.Install.Attach.{empty_format, format_of, attach_groups}
use aro_rp.Install.Attach.Kept.{
  Key, IsDocumented, Keeps, quiet, AreAttached, attach_groups-Attached,
}

-- The subnet of the masters, named "m", and that of the workers, which every other name stands for
abbrev Two : Type 0
Two = Option Subnet × Option Subnet

abbrev subnet_of : Bool → Two → Option Subnet
subnet_of true s = s.0
subnet_of false s = s.1

abbrev with_subnet : Bool → Subnet → Two → Two
with_subnet true t s = (some t, s.1)
with_subnet false t s = (s.0, some t)

abbrev shown : Two → Key → Option Subnet
shown s k = subnet_of (k.name == "m") s

abbrev answer : Option Subnet → Result Subnet
answer none = err (detailed 404)
answer (some t) = ok t

abbrev client : SubnetsClient Two
client = record {
  get = λ group vnet name s. (answer (subnet_of (name == "m") s), s);
  create_or_update_and_wait = λ group vnet name t s. (ok tt, with_subnet (name == "m") t s);
}

answered : (o : Option Subnet) {t : Subnet} → answer o ≡ ok t → o ≡ some t
answered none h = cc h
answered (some t) h = cc h

documented : IsDocumented client shown
unfolding format_of
documented = record {
  reads = λ k s. refl;
  shows = λ k s h. answered (subnet_of (k.name == "m") s) h;
  changes = λ k t s j. changed (k.name == "m") (j.name == "m") t s;
  written = λ k t s h. wrote (k.name == "m") t s;
}
  where
    changed :
        (b c : Bool) (t : Subnet) (s : Two)
        → (subnet_of c (with_subnet b t s) ≡ subnet_of c s)
          ⊎ ((subnet_of c s ≡ subnet_of b s)
              × ((u : Subnet) × (subnet_of c (with_subnet b t s) ≡ some u)
                  × ((format_of u).network_security_group ≡ (format_of t).network_security_group)))
    changed true true t s = inr (refl, (t, refl, refl))
    changed true false t s = inl refl
    changed false true t s = inl refl
    changed false false t s = inr (refl, (t, refl, refl))

    wrote :
        (b : Bool) (t : Subnet) (s : Two)
        → (u : Subnet) × (subnet_of b (with_subnet b t s) ≡ some u)
          × ((format_of u).network_security_group ≡ (format_of t).network_security_group)
    wrote true t s = (t, refl, refl)
    wrote false t s = (t, refl, refl)

abbrev subnet : Option (Option String) → Subnet
subnet g = record {
  id = none;
  properties = some (record empty_format { network_security_group = g });
}

abbrev workers_own : String
workers_own = "/RG/providers/Microsoft.Network/networkSecurityGroups/aro-node-nsg"

abbrev start : Two
start = (some (record { id = none; properties = none }), some (subnet (some (some workers_own))))

-- The group of the masters is attached, and that of the workers, there already, stays.
attach_run : attach_groups client clients.parse doc (quiet client shown start) ≡ (
  ok tt,
  quiet client shown (
    some (
        subnet (
          some
            (some "/rg/providers/Microsoft.Network/networkSecurityGroups/aro-controlplane-nsg"))),
    start.1,
  ),
)
unfolding attach_groups first_worker Subnets.get Subnets.create_or_update split_subnet
    network_security_group_id equal_fold to_lower split
attach_run = refl

-- A group of somebody else ends the loop.
refused_run :
    attach_groups client clients.parse doc
      (quiet client shown (some (subnet (some (some "/mine"))), start.1))
    ≡ (
      err (other "tried to overwrite non-nil network security group"),
      quiet client shown (some (subnet (some (some "/mine"))), start.1),
    )
unfolding attach_groups first_worker Subnets.get Subnets.create_or_update split_subnet
    network_security_group_id equal_fold to_lower split
refused_run = refl

attach_groups-Attached_example :
    let (r, w') = attach_groups client clients.parse doc (quiet client shown start) in
    Keeps client shown start w'.store
    × (r ≡ ok tt → AreAttached client shown documented clients.parse doc w'.store)
attach_groups-Attached_example =
    attach_groups-Attached client shown documented clients.parse doc start
