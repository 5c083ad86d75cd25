-- ===== src/BinarySensor.antt =====
-- binary_sensor.py: problems of pools and disks, running services, critical alerts.
pub mod Problems
use ha_truenas_ng.Base.{
  ℕ, String, ◌<>◌, Bool, true, false, not, ◌&&◌, ◌||◌, Option, none, some, List, [], ◌∷◌, ◌++◌, eqb,
  if◌then◌else◌,
}
use ha_truenas_ng.Base.Int.{ℤ, pos, negsuc}
use ha_truenas_ng.Base.Dict
use ha_truenas_ng.Base.Dict.{Dict}
use ha_truenas_ng.Result.{Result, ok, err, type_error, ◌>>=◌}
use ha_truenas_ng.Value.{Value, null, bool, int, float, str, arr, dict, Fields}
use ha_truenas_ng.Value.Access.{get, truthy, is_str, is_null, as_dict, dict_or_empty, iterate}
use ha_truenas_ng.Value.Float.{is_positive}
use ha_truenas_ng.Value.Key.{Key, key_eq}
use ha_truenas_ng.Value.Runtime.{Runtime}
use mathlib.Core.List.{map}

-- `is_on` of an entity whose object has left the data is `None`.
abbrev pub when_present {ℓ} : {V : Type ℓ} → (V → Result Bool) → Option V → Result (Option Bool)
when_present f none = ok none
when_present f (some v) = f v >>= λ b. ok (some b)

unfoldable pub has_pool_problem : Fields → Bool
has_pool_problem pool =
    not (is_str (get pool "status") "ONLINE") || not (truthy (get pool "healthy"))

unfoldable pub pool_is_on : Dict Key Value → Key → Result (Option Bool)
pool_is_on pools guid =
    when_present (λ v. as_dict v >>= λ pool. ok (has_pool_problem pool)) (Dict.lookup guid pools)

-- `(v or 0) > 0`
unfoldable pub counts : Value → Result Bool
counts null = ok false
counts (bool b) = ok b
counts (int (pos n)) = ok (not (eqb n 0))
counts (int (negsuc n)) = ok false
counts (float bits) = ok (is_positive bits)
counts v = if truthy v then err type_error else ok false

-- A counter is read only if none before it counts.
unfoldable pub has_errors : Fields → Result Bool
unfolding counts
has_errors errors = do
  read ← counts (get errors "read")
  let later : Result Bool = (do
    write ← counts (get errors "write")
    let last : Result Bool = counts (get errors "checksum")
    if write then ok true else last)
  if read then ok true else later

unfoldable pub has_disk_problem : Fields → Result Bool
has_disk_problem disk =
    let by_counters : Result Bool = (do errors ← dict_or_empty disk "errors"; has_errors errors) in
    if not (is_null (get disk "zfs_status")) && not (is_str (get disk "zfs_status") "ONLINE")
    then ok true
    else by_counters

unfoldable pub disk_is_on : Dict Key Fields → Key → Result (Option Bool)
disk_is_on disks id = when_present has_disk_problem (Dict.lookup id disks)

unfoldable pub service_is_on : Dict Key Value → Key → Result (Option Bool)
service_is_on services name =
    when_present (λ v. as_dict v >>= λ service. ok (is_str (get service "state") "RUNNING"))
      (Dict.lookup name services)

abbrev pub is_critical : Fields → Bool
is_critical alert = not (truthy (get alert "dismissed")) && is_str (get alert "level") "CRITICAL"

-- `any` stops at the first critical alert.
unfoldable pub any_critical : List Value → Result Bool
any_critical [] = ok false
any_critical (v ∷ vs) =
    let rest = any_critical vs in as_dict v >>= λ alert. if is_critical alert then ok true else rest

unfoldable pub critical_is_on : Value → Result Bool
critical_is_on alerts = do vs ← iterate alerts; any_critical vs
