-- ===== src/Examples/Trees.antt =====
-- Datasets, pools and disks.
use ha_truenas_ng.Base.{◌≡◌, ◌≢◌, String, [], ◌∷◌}
use ha_truenas_ng.Base.Int.{pos}
use ha_truenas_ng.Base.Dict
use ha_truenas_ng.Base.Dict.{Dict, update, NodupKeys}
use ha_truenas_ng.Result.{ok, err, recursion_error}
use ha_truenas_ng.Value.{Value, str, int, null, arr, dict, nil, cons, Fields, field, end}
use ha_truenas_ng.Value.Key.{text, key_eq}
use ha_truenas_ng.Coordinator.Datasets.{flatten}
use ha_truenas_ng.Coordinator.Datasets.Laws.{
  Datasets, dataset, leaf, child, encode_all, preorder_all, flatten-encode_all,
}
use ha_truenas_ng.Coordinator.Topology.{walk_topology_errors}
use ha_truenas_ng.Coordinator.Walks.{walks_terminate}
use ha_truenas_ng.Coordinator.Topology.Trees.{
  Vdev, Vdevs, mirror, PoolTree, encode_topology, pool_leaves, walk_topology_errors-encode,
}
use ha_truenas_ng.Coordinator.Storage.{StorageData, no_errors}

abbrev tank : Datasets
tank = child (dataset "tank" (child (dataset "tank/a" leaf end) leaf) end) leaf

flatten-encode_all_example : flatten (arr (encode_all tank)) ≡ ok (update [] (preorder_all tank))
flatten-encode_all_example = flatten-encode_all tank

abbrev node : Value
node = dict (field "id" (str "tank") end)

abbrev stats : Fields
stats = field "read_errors" (int (pos 3)) end

-- What else is said of a disk.
abbrev device : String → Fields
device partition = field "device" (str partition) (field "children" (arr nil) end)

abbrev pool : PoolTree
pool = record {
  stripes =
      Vdevs.child
        (Vdev.group mirror (str "ONLINE")
          (Vdevs.child (Vdev.disk "sda" stats (str "ONLINE") (device "sda1"))
            (Vdevs.child (Vdev.detached (str "REMOVED") (device "sdb1")) Vdevs.leaf))
          (field "name" (str "mirror-0") (field "stats" (dict stats) end)))
        Vdevs.leaf;
  cache = Vdevs.child (Vdev.disk "nvme0" end (str "FAULTED") (device "nvme0p1")) Vdevs.leaf;
  log = Vdevs.leaf;
  spare = Vdevs.leaf;
  special = Vdevs.leaf;
  dedup = Vdevs.leaf;
  others = field "draid" (arr nil) end;
  rest = field "guid" (str "1111") (field "name" (str "tank") end);
}

walk_topology_errors-encode_example :
    walk_topology_errors (field "topology" (dict (encode_topology pool)) pool.rest)
    ≡ ok (update [] (pool_leaves pool))
walk_topology_errors-encode_example = walk_topology_errors-encode pool

walks_terminate_example :
    (flatten (arr (cons node nil)) ≢ err recursion_error)
    × (walk_topology_errors (field "topology" (dict (encode_topology pool)) end)
        ≢ err recursion_error)
walks_terminate_example =
    walks_terminate (arr (cons node nil)) (field "topology" (dict (encode_topology pool)) end)

abbrev sda : Fields
sda = field "serial" (str "S1") (field "name" (str "sda") end)

abbrev stored : StorageData
stored = record {
  pools = [];
  disks =
      (
        text "S1",
        field "serial" (str "S1") (
            field "name" (str "sda") (
              field "temperature" (int (pos 40))
                (field "errors" no_errors (field "zfs_status" null end)))),
      )
      ∷ [];
}
