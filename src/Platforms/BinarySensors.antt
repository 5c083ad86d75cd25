-- ===== src/Platforms/BinarySensors.antt =====
-- The platform of binary_sensor.py.
use ha_truenas_ng.Base.{Bool, String, ◌<>◌, Option, some, List, [], ◌∷◌, ◌++◌}
use ha_truenas_ng.Result.{Result, ok, ◌>>=◌}
use ha_truenas_ng.Value.{Value, str, Fields}
use ha_truenas_ng.Value.Access.{as_dict}
use ha_truenas_ng.Value.Key.{Key}
use ha_truenas_ng.Value.Runtime.{Runtime}
use ha_truenas_ng.Entity.{available, pool_device_info, disk_device_info}
use ha_truenas_ng.Platforms.{Added, Runtimes, add_each, add_if, on_hub}

pub data BinarySensor : Type 0 where
  pool_health disk_problem service_running : Key → BinarySensor
  critical_alert : BinarySensor

-- The `available` of each class; `up` is Home Assistant's own part.
unfoldable pub binary_sensor_available : Bool → Runtimes → BinarySensor → Bool
binary_sensor_available up runtime (pool_health guid) = available up guid runtime.pools
binary_sensor_available up runtime (disk_problem id) = available up id runtime.disks
binary_sensor_available up runtime (service_running name) = available up name runtime.services
binary_sensor_available up runtime critical_alert = up

module _ (py : Runtime) (host_id : String) (via : Option String) where
  -- `TrueNASPoolHealthBinarySensor(...)`: a pool without a guid or a name has none.
  unfoldable pub new_pool_health : Key × Value → Result (Added BinarySensor)
  new_pool_health (guid, pool) = do
    fs ← as_dict pool
    device ← pool_device_info py host_id fs via
    ok (record {
      entity = pool_health guid;
      unique_id = host_id <> ("_pool_" <> (py.str_of_key guid <> "_health"));
      device_info = device;
    })

  -- `TrueNASDiskProblemBinarySensor(...)`. Of the value that a disk's key was made from its text is
  -- kept.
  unfoldable pub new_disk_problem : Key × Fields → Result (Added BinarySensor)
  new_disk_problem (id, disk) = ok (record {
    entity = disk_problem id;
    unique_id = host_id <> ("_disk_" <> (py.str_of_key id <> "_problem"));
    device_info = disk_device_info py host_id disk (some (str (py.str_of_key id))) via;
  })

  -- `TrueNASServiceRunningBinarySensor(...)`
  unfoldable pub new_service_running : Value → Key × Value → Result (Added BinarySensor)
  unfolding on_hub
  new_service_running info (name, _) =
      on_hub py host_id via info (service_running name)
        ("_service_" <> (py.str_of_key name <> "_running"))

  -- `TrueNASCriticalAlertBinarySensor(...)`
  unfoldable pub new_critical_alert : Value → Result (Added BinarySensor)
  unfolding on_hub
  new_critical_alert info = on_hub py host_id via info critical_alert "_alerts_critical"

  unfoldable pub binary_sensors : Runtimes → Result (List (Added BinarySensor))
  binary_sensors runtime = do
    of_pools ← add_each new_pool_health runtime.pools
    of_disks ← add_if runtime.enable_disks (add_each new_disk_problem runtime.disks)
    of_services ← add_each (new_service_running runtime.info) runtime.services
    alerts ← new_critical_alert runtime.info
    ok (of_pools ++ (of_disks ++ (of_services ++ (alerts ∷ []))))
