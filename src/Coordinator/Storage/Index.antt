-- ===== src/Coordinator/Storage/Index.antt =====
-- The tables that the coordinators build from lists: what is found under a key.
use ha_truenas_ng.Base.{◌≡◌, sym, String, Bool, true, false, Option, none, some, List, []}
use ha_truenas_ng.Base.Dict
use ha_truenas_ng.Base.Dict.{Dict, lookup-insert}
use ha_truenas_ng.Result.{Result, ok, err, bind-ok, ok-injective, ◌>>=◌}
use ha_truenas_ng.Result.Latest.{stored, latest, fold-latest}
use ha_truenas_ng.Value.{Value, Fields}
use ha_truenas_ng.Value.Access.{subscript_of, iterate, truthy}
use ha_truenas_ng.Value.Key.{Key, key_eq, hash_key}
use ha_truenas_ng.Coordinator.Topology.{Leaf}
use ha_truenas_ng.Coordinator.Storage.{index_by, index_all, stable_id, disk_entry}

-- `v` under its field, if it has one that can be a key.
abbrev pub keyed : Result Key → Value → Option (Key × Value)
keyed (ok key) v = some (key, v)
keyed (err e) v = none

abbrev pub by_field : String → Value → Option (Key × Value)
by_field field_name v = keyed (subscript_of v field_name >>= hash_key) v

index_by-stored :
    (field_name : String) (d d' : Dict Key Value) (v : Value)
    → index_by field_name d v ≡ ok d'
    → d' ≡ stored (by_field field_name v) d
unfolding index_by
index_by-stored field_name d d' v h =
    let (id, p, q) = bind-ok (subscript_of v field_name) _ h in
    let (key, a, b) = bind-ok (hash_key id) _ q in rw (p, a) (sym (ok-injective b))

-- In a table that the coordinators index by a field, each key has the last of the listed objects
-- that has it, and no key has anything else.
pub index_all-latest :
    (field_name : String) (raw : Value) (vs : List Value) (table : Dict Key Value) (k : Key)
    → iterate raw ≡ ok vs
    → index_all field_name raw ≡ ok table
    → Dict.lookup k table ≡ latest (by_field field_name) k vs none
unfolding index_all Dict.lookup
index_all-latest field_name raw vs table k p h =
    fold-latest (index_by field_name) (by_field field_name) (index_by-stored field_name) vs [] table
      k (rw p at h)

-- The entry of a disk under its stable identifier, if it has one.
abbrev pub entry_of : Bool → Result Fields → Result Key → Option (Key × Fields)
entry_of false entry key = none
entry_of true (ok entry) (ok key) = some (key, entry)
entry_of true _ _ = none

abbrev pub by_stable_id : Dict Key Leaf → Value → Result Fields → Option (Key × Fields)
by_stable_id by_devname temps (err e) = none
by_stable_id by_devname temps (ok disk) =
    entry_of (truthy (stable_id disk)) (disk_entry by_devname temps disk)
      (hash_key (stable_id disk))
