-- ===== src/Sensor.antt =====
-- sensor.py, and the conversions of client.py that it uses: what each sensor shows.
pub mod Tables
pub mod Readings
use ha_truenas_ng.Base.{
  ℕ, zero, suc, String, Bool, true, false, not, ◌||◌, Option, none, some, List, [], ◌∷◌, ◌+◌, ◌++◌,
  string_eq, if◌then◌else◌,
}
use ha_truenas_ng.Base.Int.{ℤ, pos, negsuc, ◌+ℤ◌}
use ha_truenas_ng.Base.Dict
use ha_truenas_ng.Base.Dict.{Dict}
use ha_truenas_ng.Result.{
  Exc, Result, ok, err, type_error, value_error, overflow_error, os_error, ◌>>=◌,
}
use ha_truenas_ng.Value.{
  Value, null, bool, int, float, str, datetime, arr, dict, Items, Fields, Datetime,
}
use ha_truenas_ng.Value.Access.{
  find, get, get_or, value_or, truthy, is_null, as_dict, dict_or_empty, items, iterate,
}
use ha_truenas_ng.Value.Runtime.{Runtime, int_of, to_int, float_of, percent}

-- A number or nothing, as a sensor shows it.
abbrev pub shown_int : Option ℤ → Value
shown_int none = null
shown_int (some n) = int n

abbrev pub shown_float : Option ℕ → Value
shown_float none = null
shown_float (some x) = float x

-- client.py, `parsed`
abbrev parsed_field : Fields → Option Value → Value
parsed_field fs none = dict fs
parsed_field fs (some v) = v

unfoldable pub parsed : Value → Value
parsed (dict fs) = parsed_field fs (find "parsed" fs)
parsed v = v

-- A time stamp without an offset is taken for UTC.
abbrev with_utc : Datetime → Option ℤ → Datetime
with_utc d none = record d { tzinfo = some (pos 0) }
with_utc d (some offset) = d

module _ (py : Runtime) where
  -- `except (TypeError, ValueError, OverflowError, OSError): return None`
  abbrev caught_time : Result Datetime → Result Value
  caught_time (ok d) = ok (datetime d)
  caught_time (err type_error) = ok null
  caught_time (err (value_error m)) = ok null
  caught_time (err overflow_error) = ok null
  caught_time (err (os_error m)) = ok null
  caught_time (err e) = err e

  unfoldable pub from_epoch : Value → Result Value
  from_epoch v = if truthy v then caught_time (py.from_timestamp v) else ok null

  -- client.py, `epoch_ms_to_datetime`
  unfoldable pub epoch_ms_to_datetime : Value → Result Value
  unfolding from_epoch
  epoch_ms_to_datetime (datetime d) = ok (datetime (with_utc d d.tzinfo))
  epoch_ms_to_datetime (dict fs) = from_epoch (get fs "$date")
  epoch_ms_to_datetime v = from_epoch v

  pub uptime : Fields → Result Value
  uptime info = epoch_ms_to_datetime (get info "boottime")

  pub int_sensor : Value → Result Value
  int_sensor v = to_int py v >>= λ n. ok (shown_int n)

  -- A size that is missing or zero gives no percentage.
  share : Option ℤ → Option ℤ → Result Value
  share (some used) (some (pos zero)) = ok null
  share (some used) (some size) = percent py used size >>= λ x. ok (float x)
  share _ _ = ok null

  unfoldable pub pool_used_pct : Fields → Result Value
  unfolding share
  pool_used_pct pool = do
    used ← to_int py (get pool "allocated")
    size ← to_int py (get pool "size")
    share used size

  pub scrub_finished : Fields → Result Value
  scrub_finished pool = do
    scan ← dict_or_empty pool "scan"
    epoch_ms_to_datetime (get scan "end_time")

  -- The share of a total, if it is more than 0.
  share_of_total : ℤ → ℤ → Result Value
  share_of_total used (pos zero) = ok null
  share_of_total used (pos (suc n)) = percent py used (pos (suc n)) >>= λ x. ok (float x)
  share_of_total used (negsuc n) = ok null

  used_share : Option ℤ → Option ℤ → Result Value
  used_share (some used) (some avail) = share_of_total used (used +ℤ avail)
  used_share _ _ = ok null

  unfoldable pub dataset_used_pct : Fields → Result Value
  unfolding used_share share_of_total
  dataset_used_pct ds = do
    used ← to_int py (parsed (get ds "used"))
    avail ← to_int py (parsed (get ds "available"))
    used_share used avail

  abbrev caught_float : Result ℕ → Result Value
  caught_float (ok x) = ok (float x)
  caught_float (err type_error) = ok null
  caught_float (err (value_error m)) = ok null
  caught_float (err e) = err e

  pub dataset_compressratio : Fields → Result Value
  dataset_compressratio ds = caught_float (float_of py (parsed (get ds "compressratio")))

  -- Alerts that are not dismissed.
  unfoldable pub count_active : List Value → Result ℕ
  count_active [] = ok 0
  count_active (v ∷ vs) = do
    alert ← as_dict v
    rest ← count_active vs
    ok (if truthy (get_or alert "dismissed" (bool false)) then rest else rest + 1)

  unfoldable pub alerts_active : Value → Result ℕ
  alerts_active alerts = do vs ← iterate alerts; count_active vs

  abbrev level_of : Fields → String
  level_of alert = py.str_of (get_or alert "level" (str "UNKNOWN"))

  abbrev count_or_zero : Option ℕ → ℕ
  count_or_zero none = 0
  count_or_zero (some n) = n

  -- The loop of `extra_state_attributes`.
  unfoldable pub count_levels : Dict String ℕ → List Value → Result (Dict String ℕ)
  count_levels levels [] = ok levels
  count_levels levels (v ∷ vs) = do
    alert ← as_dict v
    count_levels
        (if truthy (get_or alert "dismissed" (bool false))
          then levels
          else Dict.insert (level_of alert)
              (count_or_zero (Dict.lookup (level_of alert) levels) + 1) levels)
        vs

  unfoldable pub alerts_by_level : Value → Result (Dict String ℕ)
  alerts_by_level alerts = do vs ← iterate alerts; count_levels [] vs

-- `_loadavg`: the entry of a list that is long enough.
nth_or_null : List Value → ℕ → Value
nth_or_null [] i = null
nth_or_null (v ∷ vs) zero = v
nth_or_null (v ∷ vs) (suc i) = nth_or_null vs i

list_entry : Value → ℕ → Value
list_entry (arr vs) i = nth_or_null (items vs) i
list_entry _ i = null

pub loadavg : Fields → ℕ → Value
loadavg info index = list_entry (get info "loadavg") index
