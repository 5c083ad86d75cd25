-- ===== src/Setup/Entry/Indexed.antt =====
-- What a setup that returned holds in its tables.
use ha_truenas_ng.Base.{◌≡◌, String}
use ha_truenas_ng.Result.{ok}
use ha_truenas_ng.Result.Holds.{Holds, Holds-ok, Holds-bind, ok-Holds}
use ha_truenas_ng.Action.Returns.{Returns-any}
use ha_truenas_ng.Value.{Value, Fields}
use ha_truenas_ng.Value.Runtime.{Runtime}
use ha_truenas_ng.Client.{Config}
use ha_truenas_ng.Client.Upstream.{Library}
use ha_truenas_ng.Coordinator.Storage.{index_all}
use ha_truenas_ng.Coordinator.System as System
use ha_truenas_ng.Coordinator.System.{SystemData}
use ha_truenas_ng.Coordinator.Indexed.{
  IsIndexed, IsStored, index_all-IsIndexed, empty-IsIndexed, flatten-IsIndexed, assemble-IsStored,
}
use ha_truenas_ng.Repairs.Issues.{Registry}
use ha_truenas_ng.Coordinator.Facts.{Facts}
use ha_truenas_ng.Setup.Entry.Tables.{async_setup_entry-HasFacts}
use ha_truenas_ng.Setup.Entry.{Refreshed, RuntimeData, Host, Hass, async_setup_entry}

-- Every table holds its objects under the field that names them, and no name twice.
pub record IsRefreshed (r : Refreshed) : Type 0 where
  pub storage : IsStored r.storage
  pub datasets : IsIndexed "id" r.datasets
  pub services : IsIndexed "service" r.system.services
  pub apps : IsIndexed "name" r.apps
  pub vms : IsIndexed "id" r.vms

system-IsIndexed :
    (info alerts raw : Value)
    → Holds (λ d. IsIndexed "service" d.services) (λ _. Unit) (System.assemble info alerts raw)
unfolding System.assemble
system-IsIndexed info alerts raw =
    Holds-bind (λ d. IsIndexed "service" d.services) (λ _. Unit) (index_all "service" raw) _
      (λ e _. tt)
      (λ services p.
        Holds-ok (λ d. IsIndexed "service" d.services) (λ _. Unit) _
          (ok-Holds (IsIndexed "service") (λ _. Unit) _ (index_all-IsIndexed "service" raw) p))

-- Whatever the calls answer.
facts : Facts
facts = record {
  Answer = λ _ _. Unit;
  Stored = IsStored;
  Flat = IsIndexed "id";
  Served = λ d. IsIndexed "service" d.services;
  Apps = IsIndexed "name";
  Vms = IsIndexed "id";
  assemble_lem = λ pools disks temps _ _. assemble-IsStored pools disks temps;
  flatten_lem = λ raw _. flatten-IsIndexed raw;
  system_lem = λ info alerts raw _ _. system-IsIndexed info alerts raw;
  apps_lem = λ raw _. index_all-IsIndexed "name" raw;
  vms_lem = λ raw _. index_all-IsIndexed "id" raw;
  no_apps = empty-IsIndexed "name";
  no_vms = empty-IsIndexed "id";
}

-- A setup that returned.
pub async_setup_entry-IsRefreshed :
    (py : Runtime) (L : Library) (c : Config) (host : Host) (R : Registry) (entry_id : String)
    (opts : Fields) (h : Hass py L c host R entry_id) {r : RuntimeData}
    → (async_setup_entry py L c host R entry_id opts h).0 ≡ ok r
    → IsRefreshed r.refreshed
unfolding facts
async_setup_entry-IsRefreshed py L c host R entry_id opts h p =
    let t =
      async_setup_entry-HasFacts facts py L c host (λ method params s. Returns-any _) R entry_id
        opts h p in
    record {
      storage = t.storage;
      datasets = t.datasets;
      services = t.system;
      apps = t.apps;
      vms = t.vms;
    }
