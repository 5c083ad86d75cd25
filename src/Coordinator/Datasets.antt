-- ===== src/Coordinator/Datasets.antt =====
-- coordinator.py, DatasetCoordinator: the nested datasets, flattened.
pub mod Laws
use ha_truenas_ng.Base.{ℕ, zero, suc, String, true, List, [], ◌∷◌, ◌==◌, if◌then◌else◌}
use ha_truenas_ng.Base.Dict
use ha_truenas_ng.Base.Dict.{Dict}
use ha_truenas_ng.Result.{Result, ok, err, recursion_error, fold_result, ◌>>=◌}
use ha_truenas_ng.Action.{Action, decode}
use ha_truenas_ng.Value.{Value, arr, dict, bool, nil, field, end}
use ha_truenas_ng.Value.Access.{subscript_of, as_dict, iterate, iterate_or_empty}
use ha_truenas_ng.Value.Key.{Key, key_eq, hash_key}
use ha_truenas_ng.Value.Size.{depth}
use ha_truenas_ng.Coordinator.{Caller}

-- `_visit`, whose recursion is as deep as the interpreter allows.
unfoldable pub visit : ℕ → Dict Key Value → Value → Result (Dict Key Value)
visit zero flattened node = err recursion_error
visit (suc n) flattened node = do
  id ← subscript_of node "id"
  key ← hash_key id
  fs ← as_dict node
  children ← iterate_or_empty fs "children"
  fold_result (visit n) (Dict.insert key node flattened) children

-- The stack that a tree needs is its depth, and one call more.
unfoldable pub flatten : Value → Result (Dict Key Value)
flatten raw = do datasets ← iterate raw; fold_result (visit (suc (depth raw))) [] datasets

module _ {S : Type 0} (call : Caller S) where
  unfoldable pub fetch : Action S (Dict Key Value)
  fetch =
      decode
        (call "pool.dataset.query" (
          arr nil ∷ dict (field "extra" (dict (field "snapshots_count" (bool true) end)) end) ∷ []))
        flatten
