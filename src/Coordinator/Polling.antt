-- ===== src/Coordinator/Polling.antt =====
-- coordinator.py, the constructors: the name of each coordinator and the seconds between its polls,
-- `interval or SCAN_INTERVAL_...`, with the defaults of const.py. Home Assistant polls by them.
use ha_truenas_ng.Base.{ℕ, String}
use ha_truenas_ng.Base.Int.{pos}
use ha_truenas_ng.Value.{Value, int}
use ha_truenas_ng.Value.Access.{or_value}

-- What `TrueNASBaseCoordinator.__init__` hands to Home Assistant.
pub record Polling : Type 0 where
  pub name : String
  pub update_interval : Value

abbrev pub seconds : ℕ → Value
seconds n = int (pos n)

abbrev pub base_coordinator : String → Value → Polling
base_coordinator name interval_seconds = record { name = name; update_interval = interval_seconds }

unfoldable pub storage_coordinator : Value → Polling
storage_coordinator interval = base_coordinator "TrueNAS Storage" (or_value interval (seconds 30))

unfoldable pub dataset_coordinator : Value → Polling
dataset_coordinator interval = base_coordinator "TrueNAS Datasets" (or_value interval (seconds 300))

unfoldable pub system_coordinator : Value → Polling
system_coordinator interval = base_coordinator "TrueNAS System" (or_value interval (seconds 60))

unfoldable pub reporting_coordinator : Value → Polling
reporting_coordinator interval =
    base_coordinator "TrueNAS Reporting" (or_value interval (seconds 20))

unfoldable pub update_coordinator : Value → Polling
update_coordinator interval = base_coordinator "TrueNAS Update" (or_value interval (seconds 21600))

unfoldable pub apps_coordinator : Value → Polling
apps_coordinator interval = base_coordinator "TrueNAS Apps" (or_value interval (seconds 60))

unfoldable pub vms_coordinator : Value → Polling
vms_coordinator interval = base_coordinator "TrueNAS VMs" (or_value interval (seconds 60))
