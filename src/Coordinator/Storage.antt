-- ===== src/Coordinator/Storage.antt =====
-- coordinator.py, StorageCoordinator: pools by guid, and disks by a stable identifier, each with its
-- temperature and what the pools' topologies say of it.
pub mod Index
use ha_truenas_ng.Base.{String, Option, none, some, List, [], ◌∷◌, if◌then◌else◌}
use ha_truenas_ng.Base.Int.{pos}
use ha_truenas_ng.Base.Dict
use ha_truenas_ng.Base.Dict.{Dict}
use ha_truenas_ng.Result.{Result, ok, err, fold_result, ◌>>=◌}
use ha_truenas_ng.Action.{Action, decode, ◌>>=◌ as ◌▷◌}
use ha_truenas_ng.Value.{Value, null, int, Fields}
use ha_truenas_ng.Value.Access.{
  get, put, get_value, truthy, or_value, as_dict, iterate, subscript_of,
}
use ha_truenas_ng.Value.Key.{Key, key_eq, hash_key}
use ha_truenas_ng.Coordinator.{Caller}
use ha_truenas_ng.Coordinator.Topology.{Leaf, counters, walk_topology_errors}

pub record StorageData : Type 0 where
  pub pools : Dict Key Value
  pub disks : Dict Key Fields

-- `{pool["guid"]: pool for pool in raw_pools}`, and the same by other fields.
unfoldable pub index_by : String → Dict Key Value → Value → Result (Dict Key Value)
index_by field_name table v = do
  id ← subscript_of v field_name
  key ← hash_key id
  ok (Dict.insert key v table)

unfoldable pub index_all : String → Value → Result (Dict Key Value)
unfolding index_by
index_all field_name raw = do vs ← iterate raw; fold_result (index_by field_name) [] vs

-- `by_devname.update(_walk_topology_errors(pool))`
unfoldable pub add_pool : Dict Key Leaf → Value → Result (Dict Key Leaf)
add_pool by_devname pool = do
  fs ← as_dict pool
  leaves ← walk_topology_errors fs
  ok (Dict.update by_devname leaves)

-- The serial, else the identifier, else the name.
unfoldable pub stable_id : Fields → Value
stable_id disk = or_value (or_value (get disk "serial") (get disk "identifier")) (get disk "name")

-- `temps.get(dev_name) if temps else None`
unfoldable pub temperature : Value → Value → Result Value
temperature temps dev_name =
    let found : Result Value = (do table ← as_dict temps; get_value table dev_name) in
    if truthy temps then found else ok null

abbrev pub no_errors : Value
no_errors = counters (int (pos 0)) (int (pos 0)) (int (pos 0))

-- The copy of the disk with what the topology says of it.
unfoldable pub inject : Option Leaf → Fields → Fields
inject (some topo) entry = put "zfs_status" topo.status (put "errors" topo.errors entry)
inject none entry = put "zfs_status" null (put "errors" no_errors entry)

unfoldable pub disk_entry : Dict Key Leaf → Value → Fields → Result Fields
unfolding inject temperature
disk_entry by_devname temps disk = do
  temp ← temperature temps (get disk "name")
  key ← hash_key (get disk "name")
  ok (inject (Dict.lookup key by_devname) (put "temperature" temp disk))

-- One round of the loop over the disks: a disk with no stable identifier is passed over.
unfoldable pub add_disk : Dict Key Leaf → Value → Dict Key Fields → Value → Result (Dict Key Fields)
unfolding disk_entry stable_id
add_disk by_devname temps disks v = do
  disk ← as_dict v
  let stored : Result (Dict Key Fields) = (do
    entry ← disk_entry by_devname temps disk
    key ← hash_key (stable_id disk)
    ok (Dict.insert key entry disks))
  if truthy (stable_id disk) then stored else ok disks

-- The part of `_fetch` behind the three queries.
unfoldable pub assemble : Value → Value → Value → Result StorageData
unfolding add_pool add_disk index_all
assemble raw_pools raw_disks temps = do
  pools ← index_all "guid" raw_pools
  pool_list ← iterate raw_pools
  by_devname ← fold_result add_pool [] pool_list
  disk_list ← iterate raw_disks
  disks ← fold_result (add_disk by_devname temps) [] disk_list
  ok (record { pools = pools; disks = disks })

module _ {S : Type 0} (call : Caller S) where
  unfoldable pub fetch : Action S StorageData
  fetch = call "pool.query" [] ▷ λ raw_pools. call "disk.query" [] ▷ λ raw_disks.
      decode (call "disk.temperatures" []) (assemble raw_pools raw_disks)
