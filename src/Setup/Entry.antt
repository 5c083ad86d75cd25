-- ===== src/Setup/Entry.antt =====
-- __init__.py, `async_setup_entry`, with the coordinators' first refreshes, the alert issues and the
-- services. Home Assistant's part of a first refresh is what it raises in place of what the
-- coordinator raised. What the platforms are handed is in Platforms/Forwarded, and the listener of
-- the alerts in Repairs/Listener; the listener that reloads an entry is Home Assistant's.
pub mod Outcomes
pub mod Leaks
pub mod Tables
pub mod Indexed
use ha_truenas_ng.Base.{String, List, false, none, some}
use ha_truenas_ng.Base.Int.{ℤ}
use ha_truenas_ng.Base.Dict.{Dict}
use ha_truenas_ng.Result.{Exc, Result, ok, err, type_error, ◌>>=◌ as ◌▷◌}
use ha_truenas_ng.Action.{Action, pure, raise, lift, catch, ◌>>=◌, ◌>>◌}
use ha_truenas_ng.Value.{Value, int, bool, Fields}
use ha_truenas_ng.Value.Access.{as_dict}
use ha_truenas_ng.Value.Key.{Key}
use ha_truenas_ng.Value.Runtime.{Runtime}
use ha_truenas_ng.Client
use ha_truenas_ng.Client.{Config, State}
use ha_truenas_ng.Client.Upstream.{Library}
use ha_truenas_ng.Coordinator.{Caller, update_data}
use ha_truenas_ng.Coordinator.Polling.{Polling}
use ha_truenas_ng.Coordinator.Storage as Storage
use ha_truenas_ng.Coordinator.Storage.{StorageData}
use ha_truenas_ng.Coordinator.Datasets as Datasets
use ha_truenas_ng.Coordinator.System as System
use ha_truenas_ng.Coordinator.System.{SystemData}
use ha_truenas_ng.Coordinator.Reporting as Reporting
use ha_truenas_ng.Coordinator.Reporting.{ReportingData}
use ha_truenas_ng.Coordinator.Versions as Versions
use ha_truenas_ng.Coordinator.Versions.{UpdateData}
use ha_truenas_ng.Coordinator.Degrading.{fetch_apps, fetch_vms}
use ha_truenas_ng.Entity.{DeviceInfo, hub_device_info}
use ha_truenas_ng.Repairs.{async_sync_alert_issues}
use ha_truenas_ng.Repairs.Issues.{Registry}
use ha_truenas_ng.Services.{Registered, async_register_services}
use ha_truenas_ng.Setup.{Options, options_of, coordinators_of, setup_client}

-- The coordinators' data after the first refreshes.
pub record Refreshed : Type 0 where
  pub storage : StorageData
  pub datasets : Dict Key Value
  pub system : SystemData
  pub reporting : ReportingData
  pub update : UpdateData
  pub apps : Dict Key Value
  pub vms : Dict Key Value

-- `TrueNASRuntimeData` but for the client, which is in the state.
pub record RuntimeData : Type 0 where
  pub host_id : String
  pub hub_device_id : String
  pub physmem : Value
  pub coordinators : List Polling
  pub refreshed : Refreshed
  pub options : Options

-- What Home Assistant does of a setup: what its first refresh raises in place of what the coordinator
-- raised, the identifier that the device registry gives a device, and what
-- `async_forward_entry_setups` raises once the platforms are handed the entry.
pub record Host : Type 0 where
  pub refresh_error : Exc → Exc
  pub device_id : DeviceInfo → String
  pub forward : RuntimeData → Result (Unit {0})

module _ (py : Runtime) (L : Library) (c : Config) (host : Host) where
  -- `client.call(method, *params)`, as the coordinators use it.
  abbrev pub caller : Caller (State L)
  caller method params = Client.call L c method params false none

  -- `async_config_entry_first_refresh`
  unfoldable pub first_refresh : {A : Type 0} → Action (State L) A → Action (State L) A
  first_refresh fetch = catch (update_data fetch) (λ e. raise (host.refresh_error e))

  unfoldable pub refresh_all : Value → Action (State L) Refreshed
  refresh_all physmem = do
    storage ← first_refresh (Storage.fetch caller)
    datasets ← first_refresh (Datasets.fetch caller)
    system ← first_refresh (System.fetch caller)
    reporting ← first_refresh (Reporting.fetch py caller physmem)
    update ← first_refresh (Versions.fetch caller)
    apps ← first_refresh (fetch_apps caller)
    vms ← first_refresh (fetch_vms caller)
    pure (record {
      storage = storage;
      datasets = datasets;
      system = system;
      reporting = reporting;
      update = update;
      apps = apps;
      vms = vms;
    })

  -- `dr.async_get(hass).async_get_or_create(...)` for the hub.
  unfoldable pub runtime_of : Fields → Value → Value → Value → Refreshed → Result RuntimeData
  runtime_of opts info host_id physmem refreshed = as_dict info ▷ λ fs. ok (record {
    host_id = py.str_of host_id;
    hub_device_id = host.device_id (hub_device_info py (py.str_of host_id) fs);
    physmem = physmem;
    coordinators = coordinators_of (options_of opts);
    refreshed = refreshed;
    options = options_of opts;
  })

  -- What happens over the client.
  unfoldable pub prepare : Fields → Action (State L) RuntimeData
  prepare opts = do
    found ← setup_client L c
    refreshed ← refresh_all (found.2)
    lift (runtime_of opts (found.0) (found.1) (found.2) refreshed)

  module _ (R : Registry) (entry_id : String) where
    -- The client, the issue registry and the services that are registered.
    pub record Hass : Type 0 where
      pub client : State L
      pub issues : R.State
      pub services : Registered

    abbrev pub synced :
        Registered → RuntimeData → State L → Result (Unit {0}) × R.State → Result RuntimeData × Hass
    synced services runtime s (ok _, issues) = (
      (host.forward runtime ▷ λ _. ok runtime),
      record { client = s; issues = issues; services = async_register_services services },
    )
    synced services runtime s (err e, issues) =
        (err e, record { client = s; issues = issues; services = services })

    -- The issues are synced, the services are registered, and then the platforms are set up.
    abbrev pub published : Hass → Result RuntimeData × State L → Result RuntimeData × Hass
    published h (ok runtime, s) =
        synced h.services runtime s
          (async_sync_alert_issues R entry_id (some runtime.refreshed.system.alerts) h.issues)
    published h (err e, s) = (err e, record h { client = s })

    unfoldable pub async_setup_entry : Fields → Action Hass RuntimeData
    async_setup_entry opts h = published h (prepare opts h.client)
