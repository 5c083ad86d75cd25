-- ===== src/Platforms/Soundness.antt =====
-- What the `async_setup_entry` of the five platforms promises of the entities that it adds.
use ha_truenas_ng.Base.{String, Bool, Option, List, All}
use ha_truenas_ng.Result.{Result}
use ha_truenas_ng.Result.Holds.{Holds, Holds-both}
use ha_truenas_ng.Value.Runtime.{Runtime}
use ha_truenas_ng.Platforms.{Added, Runtimes}
use ha_truenas_ng.Platforms.Available.{IsUp, Every}
use ha_truenas_ng.Platforms.Available.Entities.{
  switches-IsUp, buttons-IsUp, updates-IsUp, binary_sensors-IsUp,
}
use ha_truenas_ng.Platforms.Available.Sensors.{sensors-IsUp}
use ha_truenas_ng.Platforms.BinarySensors.{binary_sensor_available, binary_sensors}
use ha_truenas_ng.Platforms.Buttons.{button_available, buttons}
use ha_truenas_ng.Platforms.Ids.{unique_ids, HasDistinctIds, IsNamed}
use ha_truenas_ng.Platforms.Ids.Distinct.{
  switches-HasDistinctIds, buttons-HasDistinctIds, updates-HasDistinctIds,
  binary_sensors-HasDistinctIds,
}
use ha_truenas_ng.Platforms.Ids.Sensors.{sensors-HasDistinctIds}
use ha_truenas_ng.Platforms.Sensors.{sensor_available, sensors}
use ha_truenas_ng.Platforms.Switches.{switch_available, switches}
use ha_truenas_ng.Platforms.Updates.{update_available, updates}
use mathlib.Core.List.{Nodup}

module _ {A : Type 0} (available_in : A → Bool) (up : Bool) where
  -- If the platform adds its entities, no two have one id, and each is available if `up` is.
  unfoldable pub IsSound : Result (List (Added A)) → Type 0
  IsSound = Holds (λ xs. Nodup (unique_ids xs) × All (IsUp available_in up) xs) (λ _. Unit)

  both :
      (m : Result (List (Added A))) → HasDistinctIds m → Every (IsUp available_in up) m → IsSound m
  unfolding HasDistinctIds Every IsSound
  both m h k =
      Holds-both (λ xs. Nodup (unique_ids xs)) (All (IsUp available_in up)) (λ _. Unit) m h k

module _ (py : Runtime) (host_id : String) (via : Option String) where
  -- If no two names of a coordinator's table are printed alike, then none of the five platforms, if
  -- it adds its entities at all, gives one unique id twice, and what it adds is available exactly
  -- if Home Assistant's own part of it is, as long as the data is what it was added from.
  pub platforms-IsSound :
      (runtime : Runtimes)
      → IsNamed py runtime
      → (up : Bool)
      → IsSound (sensor_available up runtime) up (sensors py host_id via runtime)
        × IsSound (binary_sensor_available up runtime) up (binary_sensors py host_id via runtime)
        × IsSound (switch_available up runtime) up (switches py host_id via runtime)
        × IsSound (button_available up runtime) up (buttons py host_id via runtime)
        × IsSound (update_available up runtime) up (updates py host_id via runtime)
  platforms-IsSound runtime named up = (
    both _ up _ (sensors-HasDistinctIds py host_id via runtime named)
        (sensors-IsUp py host_id via up runtime),
    both _ up _ (binary_sensors-HasDistinctIds py host_id via runtime named)
        (binary_sensors-IsUp py host_id via up runtime),
    both _ up _ (switches-HasDistinctIds py host_id via runtime named)
        (switches-IsUp py host_id via up runtime),
    both _ up _ (buttons-HasDistinctIds py host_id via runtime named)
        (buttons-IsUp py host_id via up runtime),
    both _ up _ (updates-HasDistinctIds py host_id via runtime named)
        (updates-IsUp py host_id via up runtime),
  )
