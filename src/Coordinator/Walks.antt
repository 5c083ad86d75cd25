-- ===== src/Coordinator/Walks.antt =====
-- The two recursive walks of coordinator.py end.
use ha_truenas_ng.Base.{◌≢◌}
use ha_truenas_ng.Result.{err, recursion_error}
use ha_truenas_ng.Value.{Value, Fields}
use ha_truenas_ng.Coordinator.Datasets.{flatten}
use ha_truenas_ng.Coordinator.Datasets.Laws.{flatten-terminates}
use ha_truenas_ng.Coordinator.Topology.{walk_topology_errors}
use ha_truenas_ng.Coordinator.Topology.Laws.{walk_topology_errors-terminates}

-- Whatever the API returns for the datasets and for a pool, the walk over the datasets and the walk
-- over the pool's topology end with the stack that the nesting needs.
pub walks_terminate :
    (datasets : Value) (pool : Fields)
    → (flatten datasets ≢ err recursion_error) × (walk_topology_errors pool ≢ err recursion_error)
walks_terminate datasets pool = (flatten-terminates datasets, walk_topology_errors-terminates pool)
