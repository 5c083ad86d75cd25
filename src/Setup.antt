-- ===== src/Setup.antt =====
-- __init__.py: setting an entry up and unloading it.
pub mod Failures
pub mod Entry
use ha_truenas_ng.Base.{
  ℕ, String, Bool, true, false, Option, none, some, List, [], ◌∷◌, if◌then◌else◌,
}
use ha_truenas_ng.Base.Int.{ℤ, pos}
use ha_truenas_ng.Result.{
  Exc, Result, ok, err, auth_error, connection_error, truenas_error, entry_auth_failed,
  entry_not_ready, message, ◌>>=◌ as ◌▷◌,
}
use ha_truenas_ng.Action.{Action, pure, raise, lift, catch, ◌>>=◌, ◌>>◌}
use ha_truenas_ng.Value.{Value, int, bool, Fields}
use ha_truenas_ng.Value.Access.{get_or, subscript_of}
use ha_truenas_ng.Coordinator.Polling.{
  Polling, seconds, storage_coordinator, dataset_coordinator, system_coordinator,
  reporting_coordinator, update_coordinator, apps_coordinator, vms_coordinator,
}
use ha_truenas_ng.Client
use ha_truenas_ng.Client.{Config, State}
use ha_truenas_ng.Client.Upstream.{Library}

-- The intervals and the toggles of an entry's options (const.py has the defaults).
pub record Options : Type 0 where
  pub interval_storage : Value
  pub interval_datasets : Value
  pub interval_system : Value
  pub interval_reporting : Value
  pub interval_update : Value
  pub interval_apps : Value
  pub interval_vms : Value
  pub enable_datasets : Value
  pub enable_disks : Value
  pub enable_reporting : Value
  pub enable_service_controls : Value
  pub enable_apps : Value
  pub enable_vms : Value

abbrev pub min_scan_interval : ℤ
min_scan_interval = pos 5

-- `opts.get(CONF_..., DEFAULT_...)`
unfoldable pub options_of : Fields → Options
options_of opts = record {
  interval_storage = get_or opts "interval_storage" (seconds 30);
  interval_datasets = get_or opts "interval_datasets" (seconds 300);
  interval_system = get_or opts "interval_system" (seconds 60);
  interval_reporting = get_or opts "interval_reporting" (seconds 20);
  interval_update = get_or opts "interval_update" (seconds 21600);
  interval_apps = get_or opts "interval_apps" (seconds 60);
  interval_vms = get_or opts "interval_vms" (seconds 60);
  enable_datasets = get_or opts "enable_datasets" (bool false);
  enable_disks = get_or opts "enable_disks" (bool true);
  enable_reporting = get_or opts "enable_reporting" (bool true);
  enable_service_controls = get_or opts "enable_service_controls" (bool true);
  enable_apps = get_or opts "enable_apps" (bool true);
  enable_vms = get_or opts "enable_vms" (bool true);
}

-- The coordinators that the setup builds.
unfoldable pub coordinators_of : Options → List Polling
coordinators_of o =
    storage_coordinator o.interval_storage
    ∷ dataset_coordinator o.interval_datasets
    ∷ system_coordinator o.interval_system
    ∷ reporting_coordinator o.interval_reporting
    ∷ update_coordinator o.interval_update
    ∷ apps_coordinator o.interval_apps
    ∷ vms_coordinator o.interval_vms
    ∷ []

module _ (L : Library) (c : Config) where
  -- `client.call(method)`
  abbrev pub query : String → Action (State L) Value
  query method = Client.call L c method [] false none

  unfoldable pub connect_and_identify : Action (State L) (Value × Value)
  connect_and_identify = do
    Client.connect L c
    info ← query "system.info"
    host_id ← query "system.host_id"
    pure (info, host_id)

  -- The two `except` clauses: close the client, and tell Home Assistant what to do.
  abbrev pub give_up : Exc → Action (State L) (Value × Value)
  give_up (auth_error m) = do Client.close L; raise (entry_auth_failed m)
  give_up (connection_error m) = do Client.close L; raise (entry_not_ready m)
  give_up (truenas_error m) = do Client.close L; raise (entry_not_ready m)
  give_up e = raise e

  -- The first part of `async_setup_entry`.
  unfoldable pub identify : Action (State L) (Value × Value)
  identify = catch connect_and_identify give_up

  -- `info["physmem"]`, which the setup reads next
  unfoldable pub setup_client : Action (State L) (Value × Value × Value)
  setup_client = do
    found ← identify
    physmem ← lift (subscript_of (found.0) "physmem")
    pure (found.0, found.1, physmem)

  -- `async_unload_entry`, once Home Assistant has said whether the platforms were unloaded: the
  -- client is closed, and the services are then unregistered (services.py).
  abbrev pub closed_if : Bool → Action (State L) Bool
  closed_if true = do Client.close L; pure true
  closed_if false = pure false

  unfoldable pub async_unload_entry : Bool → Action (State L) Bool
  async_unload_entry unload_ok = closed_if unload_ok
