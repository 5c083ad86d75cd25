-- ===== src/Coordinator/Reporting.antt =====
-- coordinator.py, `_latest` and ReportingCoordinator: metrics out of the reporting graphs.
pub mod Memory
use ha_truenas_ng.Base.{
  ℕ, Bool, true, false, String, Option, none, some, List, [], ◌∷◌, if◌then◌else◌,
}
use ha_truenas_ng.Base.Int.{ℤ, pos, ◌-ℤ◌}
use ha_truenas_ng.Base.Dict
use ha_truenas_ng.Base.Dict.{Dict}
use ha_truenas_ng.Result.{Result, ok, err, attribute_error, type_error, key_error, ◌>>=◌}
use ha_truenas_ng.Action.{Action, decode}
use ha_truenas_ng.Value.{
  Value, null, bool, int, str, arr, dict, Items, nil, cons, field, end, Fields,
}
use ha_truenas_ng.Value.Access.{
  Membership, absent, at_index, as_key, membership, get, get_or, truthy, as_dict, is_null, items,
  chars, last_of, nth_of, of_list, value_or,
}
use ha_truenas_ng.Value.Key.{Key, text, key_eq}
use ha_truenas_ng.Value.Runtime.{Runtime, int_of, percent}
use ha_truenas_ng.Coordinator.{Caller}
use ha_truenas_ng.Coordinator.Storage.{index_all}

-- `graph["data"][-1][graph["legend"].index(column)]`, once the column is known to be in the legend.
cell : Value → Membership → Result Value
cell rows absent = ok null
cell rows (at_index i) = do row ← last_of rows; nth_of row i
cell rows as_key = do row ← last_of rows; err attribute_error

unfoldable pub latest : Value → String → Result Value
unfolding cell
latest graph column = do
  fs ← as_dict graph
  let found : Result Value = (do
    place ← membership column (get_or fs "legend" (arr nil))
    cell (get fs "data") place)
  if truthy (get fs "data") then found else ok null

tail : List Value → List Value
tail [] = []
tail (v ∷ vs) = vs

-- `row[1:]`
unfoldable pub rest_of : Value → Result (List Value)
unfolding tail
rest_of (arr vs) = ok (tail (items vs))
rest_of (str s) = ok (tail (chars s))
rest_of (dict _) = err key_error
rest_of _ = err type_error

-- `[v for v in row if v is not None]`
unfoldable pub present_values : List Value → List Value
present_values [] = []
present_values (v ∷ vs) = let rest = present_values vs in if is_null v then rest else v ∷ rest

pub record ReportingData : Type 0 where
  pub cpu_percent : Value
  pub cpu_temp : Value
  pub memory_used : Option ℤ
  pub memory_free : Option ℤ
  pub memory_used_percent : Option ℕ

-- `self._physmem` is zero.
abbrev is_zero : ℤ → Bool
is_zero (pos ℕ.zero) = true
is_zero _ = false

module _ (py : Runtime) where
  mean_of : List Value → Result Value
  mean_of [] = ok null
  mean_of (v ∷ vs) = py.mean (cons v (of_list vs))

  unfoldable pub cpu_temp_of : Value → Result Value
  unfolding mean_of
  cpu_temp_of graph = do
    fs ← as_dict graph
    let averaged : Result Value = (do
      row ← last_of (get fs "data")
      cells ← rest_of row
      mean_of (present_values cells))
    if truthy (get fs "data") then averaged else ok null

  -- Used and free bytes, and the percentage, once the free bytes are known.
  pub record MemoryUse : Type 0 where
    pub used : Option ℤ
    pub free : Option ℤ
    pub used_percent : Option ℕ

  unfoldable pub used_percent_of : ℤ → ℤ → Result (Option ℕ)
  used_percent_of used physmem =
      let share : Result (Option ℕ) = (do p ← percent py used physmem; ok (some p)) in
      if is_zero physmem then ok none else share

  unfoldable pub memory_of : ℤ → Value → Result MemoryUse
  memory_of physmem v =
      let known : Result MemoryUse = (do
        free ← int_of py v
        used_percent ← used_percent_of (physmem -ℤ free) physmem
        ok (record {
          used = some (physmem -ℤ free);
          free = some free;
          used_percent = used_percent;
        })) in
      if is_null v then ok (record { used = none; free = none; used_percent = none }) else known

  abbrev graph_named : String → Dict Key Value → Value
  graph_named name graphs = value_or (dict end) (Dict.lookup (text name) graphs)

  -- A physical memory that is no number: `self._physmem - memory_free` raises a TypeError, once the
  -- free bytes are known. (A float, which the API does not give, is not told apart.)
  unfoldable pub memory_of_value : Value → Value → Result MemoryUse
  unfolding memory_of
  memory_of_value (int n) v = memory_of n v
  memory_of_value (bool true) v = memory_of (pos 1) v
  memory_of_value (bool false) v = memory_of (pos 0) v
  memory_of_value physmem v =
      let unsized : Result MemoryUse = (do free ← int_of py v; err type_error) in
      if is_null v then ok (record { used = none; free = none; used_percent = none }) else unsized

  -- The part of `_fetch` behind the query.
  unfoldable pub derive : Value → Value → Result ReportingData
  derive physmem raw = do
    by_name ← index_all "name" raw
    cpu ← latest (graph_named "cpu" by_name) "cpu"
    temp ← cpu_temp_of (graph_named "cputemp" by_name)
    available ← latest (graph_named "memory" by_name) "available"
    memory ← memory_of_value physmem available
    ok (record {
      cpu_percent = cpu;
      cpu_temp = temp;
      memory_used = memory.used;
      memory_free = memory.free;
      memory_used_percent = memory.used_percent;
    })

  abbrev named : String → Value
  named name = dict (field "name" (str name) end)

  module _ {S : Type 0} (call : Caller S) where
    unfoldable pub fetch : Value → Action S ReportingData
    fetch physmem =
        decode
          (call "reporting.get_data" (
            arr (cons (named "cpu") (cons (named "cputemp") (cons (named "memory") nil)))
            ∷ dict (field "unit" (str "HOUR") (field "page" (int (pos 1)) end))
            ∷ []))
          (derive physmem)
