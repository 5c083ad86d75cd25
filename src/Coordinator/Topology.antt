-- ===== src/Coordinator/Topology.antt =====
-- coordinator.py, `_walk_topology_errors`: the DISK leaves of a pool, by device name.
pub mod Laws
pub mod Trees
use ha_truenas_ng.Base.{ℕ, zero, suc, String, List, [], ◌∷◌, string_eq, if◌then◌else◌}
use ha_truenas_ng.Base.Int.{pos}
use ha_truenas_ng.Base.Dict
use ha_truenas_ng.Base.Dict.{Dict}
use ha_truenas_ng.Result.{Result, ok, err, recursion_error, fold_result, ◌>>=◌}
use ha_truenas_ng.Value.{Value, Fields, int, dict, field, end}
use ha_truenas_ng.Value.Access.{
  get, get_or, is_str, truthy, as_dict, iterate_or_empty, dict_or_empty,
}
use ha_truenas_ng.Value.Key.{Key, key_eq, hash_key}
use ha_truenas_ng.Value.Size.{depth_fields}

abbrev pub topology_categories : List String
topology_categories = "data" ∷ "cache" ∷ "log" ∷ "spare" ∷ "special" ∷ "dedup" ∷ []

-- The error counters and the status of a leaf.
pub record Leaf : Type 0 where
  pub errors : Value
  pub status : Value

abbrev pub counters : Value → Value → Value → Value
counters read write checksum =
    dict (field "read" read (field "write" write (field "checksum" checksum end)))

unfoldable pub leaf_of : Fields → Fields → Leaf
leaf_of node stats = record {
  errors =
      counters (get_or stats "read_errors" (int (pos 0)))
        (get_or stats "write_errors" (int (pos 0))) (get_or stats "checksum_errors" (int (pos 0)));
  status = get node "status";
}

-- A leaf with a name is stored; one without, or with an empty name, is passed over.
unfoldable pub store_leaf : Fields → Dict Key Leaf → Result (Dict Key Leaf)
unfolding leaf_of
store_leaf node result =
    let store : Result (Dict Key Leaf) = (do
      stats ← dict_or_empty node "stats"
      key ← hash_key (get node "disk")
      ok (Dict.insert key (leaf_of node stats) result)) in
    if truthy (get node "disk") then store else ok result

unfoldable pub visit_leaf : Fields → Dict Key Leaf → Result (Dict Key Leaf)
unfolding store_leaf
visit_leaf node result =
    if is_str (get node "type") "DISK" then store_leaf node result else ok result

-- `_visit`, whose recursion is as deep as the interpreter allows.
unfoldable pub visit : ℕ → Dict Key Leaf → Value → Result (Dict Key Leaf)
visit zero result node = err recursion_error
visit (suc n) result node = do
  fs ← as_dict node
  here ← visit_leaf fs result
  children ← iterate_or_empty fs "children"
  fold_result (visit n) here children

unfoldable pub visit_category : ℕ → Fields → Dict Key Leaf → String → Result (Dict Key Leaf)
visit_category n topology result category = do
  vdevs ← iterate_or_empty topology category
  fold_result (visit n) result vdevs

-- The stack that a tree needs is its depth, and one call more.
unfoldable pub walk_topology_errors : Fields → Result (Dict Key Leaf)
walk_topology_errors pool = do
  topology ← dict_or_empty pool "topology"
  fold_result (visit_category (suc (depth_fields topology)) topology) [] topology_categories
