-- ===== src/Examples/Readings.antt =====
-- What sensors and binary sensors read.
use ha_truenas_ng.Base.{◌≡◌, ◌≢◌, ◌↔◌, refl, zero, suc, true, some, [], ◌∷◌, string_eq}
use ha_truenas_ng.Base.Int.{pos, negsuc, ◌-ℤ◌}
use ha_truenas_ng.Base.Dict
use ha_truenas_ng.Base.Dict.{Dict}
use ha_truenas_ng.Result.{ok, err, overflow_error, zero_division}
use ha_truenas_ng.Value.{Value, str, int, float, bool, arr, dict, nil, cons, Fields, field, end}
use ha_truenas_ng.Value.Access.{get_or, find, iterate, items, as_dict, truthy}
use ha_truenas_ng.Value.Runtime.{to_int, int_of, percent}
use ha_truenas_ng.Sensor.{
  pool_used_pct, dataset_used_pct, alerts_by_level, alerts_active, count_levels, count_active,
}
use ha_truenas_ng.Sensor.Readings.{
  is_infinite, to_int_raises, total, alerts_by_level-total, DividesSafely, used_pct-safe,
}
use ha_truenas_ng.Coordinator.Reporting.{MemoryUse, memory_of, used_percent_of}
use ha_truenas_ng.Coordinator.Reporting.Memory.{Balances, PercentFits, memory_of-Balances}
use ha_truenas_ng.Examples.{python}

-- An infinity.
to_int_raises_example :
    (to_int python (float 9218868437227405312) ≡ err overflow_error)
    ↔ ((is_infinite (float 9218868437227405312) ≡ true) × (overflow_error ≡ overflow_error))
to_int_raises_example = to_int_raises python (float 9218868437227405312) overflow_error

abbrev alerts : Value
alerts = arr (
    cons (dict (field "level" (str "WARNING") end))
      (cons (dict (field "dismissed" (bool true) end)) (cons (dict end) nil)))

two_active : alerts_active python alerts ≡ ok 2
unfolding alerts_active count_active iterate items as_dict get_or find truthy string_eq
two_active = refl

two_by_level : alerts_by_level python alerts ≡ ok (("nas-1", 2) ∷ [])
unfolding alerts_by_level count_levels iterate items as_dict get_or find truthy string_eq
    Dict.insert Dict.lookup
two_by_level = refl

alerts_by_level-total_example : total python (("nas-1", 2) ∷ []) ≡ 2
alerts_by_level-total_example =
    alerts_by_level-total python alerts (("nas-1", 2) ∷ []) 2 two_by_level two_active

half_safe : DividesSafely python
half_safe a (pos zero) h = refl
half_safe a (pos (suc n)) h = cc
half_safe a (negsuc n) h = cc

abbrev empty_pool : Fields
empty_pool = field "allocated" (int (pos 0)) (field "size" (int (pos 0)) end)

used_pct-safe_example :
    (pool_used_pct python empty_pool ≢ err zero_division)
    × (dataset_used_pct python empty_pool ≢ err zero_division)
used_pct-safe_example = used_pct-safe python empty_pool half_safe

abbrev sound_disk : Fields
sound_disk = field "zfs_status" (str "ONLINE") end

abbrev memory : MemoryUse python
memory = record {
  used = some (pos 6);
  free = some (pos 2);
  used_percent = some 4602678819172646912;
}

memory_read : memory_of python (pos 8) (int (pos 2)) ≡ ok memory
unfolding memory_of used_percent_of int_of percent ◌-ℤ◌
memory_read = refl

memory_of-Balances_example :
    Balances python (pos 8) memory.used memory.free
    × PercentFits python (pos 8) memory.used memory.used_percent
memory_of-Balances_example = memory_of-Balances python (pos 8) (int (pos 2)) memory memory_read
