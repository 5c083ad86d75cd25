-- ===== src/Platforms/Sensors.antt =====
-- The `async_setup_entry` of sensor.py, with the constructors of its entities and their values.
use ha_truenas_ng.Base.{Bool, String, ◌<>◌, Option, none, some, List, [], ◌∷◌, ◌++◌}
use ha_truenas_ng.Base.Dict
use ha_truenas_ng.Base.Dict.{Dict}
use ha_truenas_ng.Result.{Result, ok, fold_result, ◌>>=◌}
use ha_truenas_ng.Value.{Value, str, Fields, end}
use ha_truenas_ng.Value.Access.{as_dict, get}
use ha_truenas_ng.Value.Key.{Key, key_eq, hash_key}
use ha_truenas_ng.Value.Runtime.{Runtime}
use ha_truenas_ng.Coordinator.Reporting.{ReportingData}
use ha_truenas_ng.Entity.{
  available, DeviceInfo, hub_device_info, pool_device_info, disk_device_info,
}
use ha_truenas_ng.Sensor.Tables.{
  Description, system_sensors, reporting_sensors, pool_sensors, disk_sensors, dataset_sensors,
  app_sensors, vm_sensors,
}
use ha_truenas_ng.Platforms.{Added, Runtimes, add_each, add_if, on_hub, on_app, on_vm}

-- `for x in xs: for d in ds: entities.append(...)`, where `f` makes the entities of one `x`.
unfoldable pub add_all : {A B : Type 0} → (A → Result (List B)) → List A → Result (List B)
add_all f [] = ok []
add_all f (x ∷ xs) = do ys ← f x; zs ← add_all f xs; ok (ys ++ zs)

unfoldable pub suffix_of : Description Fields → String
suffix_of d = "_" <> d.key

pub data Sensor : Type 0 where
  system_sensor : Description Fields → Sensor
  alerts_sensor : Sensor
  reporting_sensor : Description (ReportingData) → Sensor
  pool_sensor disk_sensor dataset_sensor app_sensor vm_sensor : Key → Description Fields → Sensor

-- The `available` of each class; `up` is Home Assistant's own part.
unfoldable pub sensor_available : Bool → Runtimes → Sensor → Bool
sensor_available up runtime (pool_sensor guid _) = available up guid runtime.pools
sensor_available up runtime (disk_sensor id _) = available up id runtime.disks
sensor_available up runtime (dataset_sensor id _) = available up id runtime.datasets
sensor_available up runtime (app_sensor name _) = available up name runtime.apps
sensor_available up runtime (vm_sensor vm_id _) = available up vm_id runtime.vms
sensor_available up runtime _ = up

-- `native_value` over a table of the coordinator: an object that has left it reads as `{}`.
pub native_value : Description Fields → Option Value → Result Value
native_value d none = d.value_fn end
native_value d (some v) = do fs ← as_dict v; d.value_fn fs

-- `pools_by_name`
unfoldable pub by_name : Dict Key Value → Key × Value → Result (Dict Key Value)
by_name pools (_, pool) = do
  fs ← as_dict pool
  key ← hash_key (get fs "name")
  ok (Dict.insert key pool pools)

module _ (py : Runtime) (host_id : String) (via : Option String) where
  -- `TrueNASSystemSensor(...)`, `TrueNASAlertsSensor(...)`, `TrueNASReportingSensor(...)`
  unfoldable pub new_system_sensor : Value → Description Fields → Result (Added Sensor)
  new_system_sensor info d = on_hub py host_id via info (system_sensor d) ("_system_" <> d.key)

  unfoldable pub new_alerts_sensor : Value → Result (Added Sensor)
  new_alerts_sensor info = on_hub py host_id via info alerts_sensor "_alerts_active"

  unfoldable pub new_reporting_sensor : Value → Description ReportingData → Result (Added Sensor)
  new_reporting_sensor info d =
      on_hub py host_id via info (reporting_sensor d) ("_system_" <> d.key)

  -- `TrueNASPoolSensor(...)`: a pool without a guid or a name has none.
  unfoldable pub new_pool_sensor : Key × Value → Description Fields → Result (Added Sensor)
  new_pool_sensor (guid, pool) d = do
    fs ← as_dict pool
    device ← pool_device_info py host_id fs via
    ok (record {
      entity = pool_sensor guid d;
      unique_id = host_id <> ("_pool_" <> (py.str_of_key guid <> suffix_of d));
      device_info = device;
    })

  -- `TrueNASDiskSensor(...)`. Of the value that a disk's key was made from its text is kept.
  unfoldable pub new_disk_sensor : Key × Fields → Description Fields → Result (Added Sensor)
  new_disk_sensor (id, disk) d = ok (record {
    entity = disk_sensor id d;
    unique_id = host_id <> ("_disk_" <> (py.str_of_key id <> suffix_of d));
    device_info = disk_device_info py host_id disk (some (str (py.str_of_key id))) via;
  })

  -- `TrueNASDatasetSensor(...)`
  unfoldable pub new_dataset_sensor : Key → DeviceInfo → Description Fields → Result (Added Sensor)
  new_dataset_sensor id device d = ok (record {
    entity = dataset_sensor id d;
    unique_id = host_id <> ("_dataset_" <> (py.str_of_key id <> suffix_of d));
    device_info = device;
  })

  -- `TrueNASAppSensor(...)`, `TrueNASVMSensor(...)`
  unfoldable pub new_app_sensor : Key × Value → Description Fields → Result (Added Sensor)
  new_app_sensor (name, app) d = on_app py host_id via (app_sensor name d) (suffix_of d) (name, app)

  unfoldable pub new_vm_sensor : Key × Value → Description Fields → Result (Added Sensor)
  new_vm_sensor (vm_id, vm) d = on_vm py host_id via (vm_sensor vm_id d) (suffix_of d) (vm_id, vm)

  -- The device of the pool that a dataset names, if there is one, or else the hub.
  unfoldable pub dataset_device : Value → Option Value → Result DeviceInfo
  dataset_device info (some pool) = do fs ← as_dict pool; pool_device_info py host_id fs via
  dataset_device info none = do fs ← as_dict info; ok (hub_device_info py host_id fs)

  unfoldable pub dataset_entities :
      Value → Dict Key Value → Key × Value → Result (List (Added Sensor))
  dataset_entities info pools_by_name (id, ds) = do
    fs ← as_dict ds
    pool ← hash_key (get fs "pool")
    device ← dataset_device info (Dict.lookup pool pools_by_name)
    add_each (new_dataset_sensor id device) (dataset_sensors py)

  unfoldable pub datasets_of : Runtimes → Result (List (Added Sensor))
  datasets_of runtime = do
    pools_by_name ← fold_result by_name [] runtime.pools
    add_all (dataset_entities runtime.info pools_by_name) runtime.datasets

  unfoldable pub sensors : Runtimes → Result (List (Added Sensor))
  sensors runtime = do
    of_system ← add_each (new_system_sensor runtime.info) (system_sensors py)
    alerts ← new_alerts_sensor runtime.info
    reporting ←
        add_if runtime.enable_reporting
          (add_each (new_reporting_sensor runtime.info) (reporting_sensors py))
    of_pools ← add_all (λ x. add_each (new_pool_sensor x) (pool_sensors py)) runtime.pools
    of_disks ←
        add_if runtime.enable_disks
          (add_all (λ x. add_each (new_disk_sensor x) (disk_sensors py)) runtime.disks)
    of_datasets ← add_if runtime.enable_datasets (datasets_of runtime)
    of_apps ←
        add_if runtime.enable_apps
          (add_all (λ x. add_each (new_app_sensor x) (app_sensors py)) runtime.apps)
    of_vms ←
        add_if runtime.enable_vms
          (add_all (λ x. add_each (new_vm_sensor x) (vm_sensors py)) runtime.vms)
    ok (
        of_system
        ++ (alerts
            ∷ (reporting ++ (of_pools ++ (of_disks ++ (of_datasets ++ (of_apps ++ of_vms)))))))
