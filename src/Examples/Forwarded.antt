-- ===== src/Examples/Forwarded.antt =====
-- What the platforms add for an entry that was set up on that server.
use ha_truenas_ng.Coordinator.Storage as Storage
use ha_truenas_ng.Coordinator.Datasets as Datasets
use ha_truenas_ng.Coordinator.System as System
use ha_truenas_ng.Coordinator.Versions as Versions
use ha_truenas_ng.Coordinator.Reporting as Reporting
use ha_truenas_ng.Repairs.{async_sync_alert_issues, wanted_issues, severity_of}
use ha_truenas_ng.Coordinator.Degrading.{fetch_apps, fetch_vms}
use ha_truenas_ng.Base.Dict.{lookup, insert}
use ha_truenas_ng.Coordinator.Reporting.{derive, latest, cpu_temp_of, memory_of_value}
use ha_truenas_ng.Coordinator.Datasets.{flatten, visit}
use ha_truenas_ng.Coordinator.Topology.{walk_topology_errors, visit_category}
use ha_truenas_ng.Coordinator.{update_data}
use ha_truenas_ng.Client.{connect, external, call, ensure_connected, raw_call}
use ha_truenas_ng.Action.{continue, handle}
use ha_truenas_ng.Base.{◌≡◌, refl, true, none, some, [], ◌∷◌, string_eq}
use ha_truenas_ng.Base.Int.{pos}
use ha_truenas_ng.Result.{ok, fold_result}
use ha_truenas_ng.Value.{null, bool, str, int, arr, nil, cons, dict, Fields, field, end}
use ha_truenas_ng.Value.Access.{
  find, subscript_of, iterate, as_dict, dict_or_empty, truthy, iterate_or_empty,
}
use ha_truenas_ng.Value.Key.{text, number, hash_key}
use ha_truenas_ng.Setup.{options_of, coordinators_of, setup_client, identify, connect_and_identify}
use ha_truenas_ng.Setup.Entry.{
  Hass, Refreshed, RuntimeData, async_setup_entry, prepare, refresh_all, first_refresh, runtime_of,
}
use ha_truenas_ng.Platforms.BinarySensors.{binary_sensor_available, binary_sensors}
use ha_truenas_ng.Platforms.Buttons.{button_available, buttons}
use ha_truenas_ng.Platforms.Answers.Entry.{async_setup_entry-IsForwarded}
use ha_truenas_ng.Platforms.Forwarded.{runtimes_of, IsForwarded}
use ha_truenas_ng.Platforms.Sensors.{sensor_available, sensors}
use ha_truenas_ng.Platforms.Switches.{switch_available, switches}
use ha_truenas_ng.Platforms.Updates.{update_available, updates}
use ha_truenas_ng.Examples.{config}
use ha_truenas_ng.Examples.Entries.{alert, kept}
use ha_truenas_ng.Examples.Setups.{info, home, unregistered}
use ha_truenas_ng.Examples.Stores.{exact, exact-PrintsKeys, tank, store, store-AnswersAs}

abbrev started : Hass exact store config home kept "e1"
started = record {
  client = record { client = none; world = 0 };
  issues = ([], tt);
  services = unregistered;
}

abbrev chosen : Fields
chosen = field "enable_datasets" (bool true) end

abbrev read : Refreshed
read = record {
  storage = record { pools = (text "7", tank) ∷ []; disks = [] };
  datasets =
      (text "tank/home", dict (field "id" (str "tank/home") (field "pool" (str "tank") end))) ∷ [];
  system = record {
    info = info;
    alerts = arr (cons (dict alert) nil);
    services = (text "nfs", dict (field "service" (str "nfs") end)) ∷ [];
  };
  reporting = record {
    cpu_percent = null;
    cpu_temp = null;
    memory_used = none;
    memory_free = none;
    memory_used_percent = none;
  };
  update = record { installed_version = null; latest_version = null; raw_status = dict end };
  apps = [];
  vms = (number (pos 3), dict (field "id" (int (pos 3)) end)) ∷ [];
}

abbrev runtime : RuntimeData
runtime = record {
  host_id = "nas-1";
  hub_device_id = "hub";
  physmem = int (pos 16);
  coordinators = coordinators_of (options_of chosen);
  refreshed = read;
  options = options_of chosen;
}

returned : (async_setup_entry exact store config home kept "e1" chosen started).0 ≡ ok runtime
unfolding async_setup_entry prepare continue setup_client identify handle connect_and_identify
    connect external call ensure_connected raw_call string_eq subscript_of find refresh_all
    first_refresh update_data Storage.fetch Storage.assemble iterate fold_result hash_key as_dict
    walk_topology_errors dict_or_empty truthy visit_category iterate_or_empty Datasets.fetch flatten
    visit System.fetch System.assemble Reporting.fetch derive latest lookup cpu_temp_of
    memory_of_value Versions.fetch Versions.assemble fetch_apps fetch_vms runtime_of
    async_sync_alert_issues wanted_issues severity_of insert
returned = refl

async_setup_entry-IsForwarded_example :
    IsForwarded
      (sensor_available true (runtimes_of runtime))
      true
      (sensors exact "nas-1" (some "hub") (runtimes_of runtime))
    × IsForwarded
        (binary_sensor_available true (runtimes_of runtime))
        true
        (binary_sensors exact "nas-1" (some "hub") (runtimes_of runtime))
    × IsForwarded
        (switch_available true (runtimes_of runtime))
        true
        (switches exact "nas-1" (some "hub") (runtimes_of runtime))
    × IsForwarded
        (button_available true (runtimes_of runtime))
        true
        (buttons exact "nas-1" (some "hub") (runtimes_of runtime))
    × IsForwarded
        (update_available true (runtimes_of runtime))
        true
        (updates exact "nas-1" (some "hub") (runtimes_of runtime))
async_setup_entry-IsForwarded_example =
    async_setup_entry-IsForwarded exact exact-PrintsKeys store store-AnswersAs config home kept "e1"
      chosen started runtime returned true
