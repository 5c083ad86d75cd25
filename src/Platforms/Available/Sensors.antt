-- ===== src/Platforms/Available/Sensors.antt =====
-- What sensor.py adds is available where it was added.
use ha_truenas_ng.Base.{refl, String, Bool, Option, []}
use ha_truenas_ng.Base.Dict
use ha_truenas_ng.Base.Dict.{Dict}
use ha_truenas_ng.Result.{fold_result}
use ha_truenas_ng.Result.Holds.{Holds-ok, Holds-bind, Holds-then}
use ha_truenas_ng.Value.{Value, Fields}
use ha_truenas_ng.Value.Access.{as_dict, get}
use ha_truenas_ng.Value.Key.{Key, hash_key, key_eq}
use ha_truenas_ng.Value.Runtime.{Runtime}
use ha_truenas_ng.Entity.{pool_device_info}
use ha_truenas_ng.Platforms.{Added, Runtimes, add_each}
use ha_truenas_ng.Platforms.Available.{
  IsUp, Kept, Every, IsOf, add_if-Every, one-IsUp, row-IsUp, add_all-IsUp, fixed-IsUp, on_hub-IsOf,
  on_app-IsOf, on_vm-IsOf,
}
use ha_truenas_ng.Platforms.Prefixes.{All-append}
use ha_truenas_ng.Platforms.Sensors.{
  Sensor, add_all, system_sensor, alerts_sensor, reporting_sensor, pool_sensor, disk_sensor,
  dataset_sensor, app_sensor, vm_sensor, sensor_available, by_name, new_system_sensor,
  new_alerts_sensor, new_reporting_sensor, new_pool_sensor, new_disk_sensor, new_dataset_sensor,
  new_app_sensor, new_vm_sensor, dataset_device, dataset_entities, datasets_of, sensors,
}
use ha_truenas_ng.Sensor.Tables.{
  Description, system_sensors, reporting_sensors, pool_sensors, disk_sensors, dataset_sensors,
  app_sensors, vm_sensors,
}

module _ (py : Runtime) (host_id : String) (via : Option String) where
  new_pool_sensor-IsOf :
      (pool : Key × Value) (d : Description Fields)
      → IsOf (pool_sensor pool.0 d) (new_pool_sensor py host_id via pool d)
  unfolding new_pool_sensor IsOf
  new_pool_sensor-IsOf (guid, pool) d =
      Holds-bind _ (λ _. Unit) (as_dict pool) _ (λ e _. tt)
        (λ fs _.
          Holds-bind _ (λ _. Unit) (pool_device_info py host_id fs via) _ (λ e _. tt)
            (λ i _. Holds-ok _ (λ _. Unit) _ refl))

  new_disk_sensor-IsOf :
      (disk : Key × Fields) (d : Description Fields)
      → IsOf (disk_sensor disk.0 d) (new_disk_sensor py host_id via disk d)
  unfolding new_disk_sensor IsOf
  new_disk_sensor-IsOf (id, disk) d = Holds-ok _ (λ _. Unit) _ refl

  module _ (up : Bool) (runtime : Runtimes) where
    IsUpSensor : Added Sensor → Type 0
    IsUpSensor = IsUp (sensor_available up runtime) up

    dataset_entities-IsUp :
        (pools_by_name : Dict Key Value) (ds : Key × Value)
        → Kept up runtime.datasets ds
        → Every IsUpSensor (dataset_entities py host_id via runtime.info pools_by_name ds)
    unfolding dataset_entities new_dataset_sensor Every IsUpSensor IsOf sensor_available
    dataset_entities-IsUp pools_by_name (id, ds) k =
        Holds-bind _ (λ _. Unit) (as_dict ds) _ (λ e _. tt)
          (λ fs _.
            Holds-bind _ (λ _. Unit) (hash_key (get fs "pool")) _ (λ e _. tt)
              (λ pool _.
                Holds-bind _ (λ _. Unit)
                  (dataset_device py host_id via runtime.info (Dict.lookup pool pools_by_name)) _
                  (λ e _. tt)
                  (λ device _.
                    row-IsUp (sensor_available up runtime) up runtime.datasets (dataset_sensors py)
                      (id, ds) (λ d. dataset_sensor id d) _ (λ d. Holds-ok _ (λ _. Unit) _ refl)
                      (λ d. refl) k)))

    datasets_of-IsUp : Every IsUpSensor (datasets_of py host_id via runtime)
    unfolding datasets_of Every IsUpSensor
    datasets_of-IsUp =
        Holds-bind _ (λ _. Unit) (fold_result by_name [] runtime.pools) _ (λ e _. tt)
          (λ pools _.
            add_all-IsUp (sensor_available up runtime) up runtime.datasets
              (dataset_entities py host_id via runtime.info pools) (dataset_entities-IsUp pools))

    pools-IsUp :
        Every IsUpSensor (
          add_all
            (λ x. add_each (new_pool_sensor py host_id via x) (pool_sensors py))
            runtime.pools)
    unfolding IsUpSensor sensor_available
    pools-IsUp = add_all-IsUp _ up runtime.pools _ (λ x.
        row-IsUp _ up runtime.pools (pool_sensors py) x (λ d. pool_sensor x.0 d) _
          (new_pool_sensor-IsOf x) (λ d. refl))

    disks-IsUp :
        Every IsUpSensor (
          add_all
            (λ x. add_each (new_disk_sensor py host_id via x) (disk_sensors py))
            runtime.disks)
    unfolding IsUpSensor sensor_available
    disks-IsUp = add_all-IsUp _ up runtime.disks _ (λ x.
        row-IsUp _ up runtime.disks (disk_sensors py) x (λ d. disk_sensor x.0 d) _
          (new_disk_sensor-IsOf x) (λ d. refl))

    apps-IsUp :
        Every IsUpSensor
          (add_all (λ x. add_each (new_app_sensor py host_id via x) (app_sensors py)) runtime.apps)
    unfolding IsUpSensor sensor_available new_app_sensor
    apps-IsUp = add_all-IsUp _ up runtime.apps _ (λ x.
        row-IsUp _ up runtime.apps (app_sensors py) x (λ d. app_sensor x.0 d) _
          (λ d. on_app-IsOf py host_id via _ _ x) (λ d. refl))

    vms-IsUp :
        Every IsUpSensor
          (add_all (λ x. add_each (new_vm_sensor py host_id via x) (vm_sensors py)) runtime.vms)
    unfolding IsUpSensor sensor_available new_vm_sensor
    vms-IsUp = add_all-IsUp _ up runtime.vms _ (λ x.
        row-IsUp _ up runtime.vms (vm_sensors py) x (λ d. vm_sensor x.0 d) _
          (λ d. on_vm-IsOf py host_id via _ _ x) (λ d. refl))

    pub sensors-IsUp :
        Every (IsUp (sensor_available up runtime) up) (sensors py host_id via runtime)
    unfolding sensors new_system_sensor new_alerts_sensor new_reporting_sensor Every IsUpSensor
        sensor_available
    sensors-IsUp =
        Holds-then _ _ _ _
          (fixed-IsUp _ up (system_sensors py) (λ d. system_sensor d) _
            (λ d. on_hub-IsOf py host_id via _ _ _) (λ d. refl))
          (λ system h.
            Holds-then _ _ _ _
              (one-IsUp _ up alerts_sensor _ (on_hub-IsOf py host_id via _ _ _) refl)
              (λ alerts i.
                Holds-then _ _ _ _
                  (add_if-Every _ _ _ (
                    fixed-IsUp _ up (reporting_sensors py) (λ d. reporting_sensor d) _
                      (λ d. on_hub-IsOf py host_id via _ _ _) (λ d. refl)))
                  (λ reporting j. Holds-then _ _ _ _ pools-IsUp (λ pools k.
                    Holds-then _ _ _ _ (add_if-Every _ _ _ disks-IsUp) (λ disks l.
                      Holds-then _ _ _ _ (add_if-Every _ _ _ datasets_of-IsUp) (λ datasets m.
                        Holds-then _ _ _ _ (add_if-Every _ _ _ apps-IsUp) (λ apps n.
                          Holds-then _ _ _ _ (add_if-Every _ _ _ vms-IsUp) (λ vms o.
                            Holds-ok _ _ _ (
                              All-append _ system _ h (
                                i,
                                All-append _ reporting _ j (
                                    All-append _ pools _ k (
                                      All-append _ disks _ l
                                        (All-append _ datasets _ m (All-append _ apps vms n o)))),
                              ))))))))))
