-- ===== src/Platforms/Answers/Entry.antt =====
-- From the answers of the API, through the setup, to what the platforms add.
use ha_truenas_ng.Base.{◌≡◌, refl, String, Bool, false, none, some, All}
use ha_truenas_ng.Result.{ok}
use ha_truenas_ng.Result.Holds.{Holds, Holds-ok, Holds-bind, ok-Holds}
use ha_truenas_ng.Value.{Value, Fields}
use ha_truenas_ng.Value.Runtime.{Runtime}
use ha_truenas_ng.Client.{Config}
use ha_truenas_ng.Client.Answers.{AnswersAs, call-Answer}
use ha_truenas_ng.Client.Upstream.{Library}
use ha_truenas_ng.Coordinator.Storage.{index_all}
use ha_truenas_ng.Coordinator.System as System
use ha_truenas_ng.Coordinator.System.{SystemData}
use ha_truenas_ng.Repairs.Issues.{Registry}
use ha_truenas_ng.Setup.Entry.{Refreshed, RuntimeData, Host, Hass, async_setup_entry}
use ha_truenas_ng.Coordinator.Facts.{Facts}
use ha_truenas_ng.Setup.Entry.Tables.{HasFacts, async_setup_entry-HasFacts}
use ha_truenas_ng.Platforms.Answers.{IsAnswer, Each, HasText}
use ha_truenas_ng.Platforms.Answers.Stored.{AreDisks, ArePools, AreStored, assemble-AreStored}
use ha_truenas_ng.Platforms.Answers.Tables.{
  AreDatasets, flatten-AreDatasets, index_all-IsText, index_all-IsNumber,
}
use ha_truenas_ng.Platforms.BinarySensors.{binary_sensor_available, binary_sensors}
use ha_truenas_ng.Platforms.Buttons.{button_available, buttons}
use ha_truenas_ng.Platforms.Forwarded.{
  runtimes_of, IsAnswered, IsForwarded, runtimes_of-IsForwarded,
}
use ha_truenas_ng.Platforms.Ids.Names.{PrintsKeys, IsText, IsNumber}
use ha_truenas_ng.Platforms.Sensors.{sensor_available, sensors}
use ha_truenas_ng.Platforms.Switches.{switch_available, switches}
use ha_truenas_ng.Platforms.Total.{IsDict}
use ha_truenas_ng.Platforms.Updates.{update_available, updates}

AreServed : SystemData → Type 0
AreServed d = IsDict d.info × All (λ x. IsText x.0) d.services

assemble-AreServed :
    (info alerts raw : Value)
    → IsDict info
    → Each (HasText "service") raw
    → Holds AreServed (λ _. Unit) (System.assemble info alerts raw)
unfolding System.assemble AreServed
assemble-AreServed info alerts raw i each =
    Holds-bind _ (λ _. Unit) (index_all "service" raw) _ (λ e _. tt)
      (λ services p.
        Holds-ok _ (λ _. Unit) _
          (
            i,
            ok-Holds (All (λ x. IsText x.0)) (λ _. Unit) _ (index_all-IsText "service" raw each) p,
          ))

documented : Facts
documented = record {
  Answer = IsAnswer;
  Stored = AreStored;
  Flat = AreDatasets;
  Served = AreServed;
  Apps = All (λ x. IsText x.0);
  Vms = All (λ x. IsNumber x.0);
  assemble_lem =
      λ pools disks temps p d. assemble-AreStored pools disks temps (p.pools refl) (d.disks refl);
  flatten_lem = λ raw a. flatten-AreDatasets raw (a.datasets refl);
  system_lem =
      λ info alerts raw i a. assemble-AreServed info alerts raw (i.info refl) (a.services refl);
  apps_lem = λ raw a. index_all-IsText "name" raw (a.apps refl);
  vms_lem = λ raw a. index_all-IsNumber "id" raw (a.vms refl);
  no_apps = tt;
  no_vms = tt;
}

documented-IsAnswered : (r : Refreshed) → HasFacts documented r → IsAnswered r
unfolding documented AreStored ArePools AreDisks AreDatasets AreServed
documented-IsAnswered r f = record {
  info = f.system.0;
  pools = f.storage.0;
  disks = f.storage.1;
  services = f.system.1;
  datasets = f.datasets;
  apps = f.apps;
  vms = f.vms;
}

module _ (py : Runtime) (laws : PrintsKeys py) (L : Library) (answers : AnswersAs L IsAnswer)
    (c : Config) (host : Host) (R : Registry) (entry_id : String) where
  -- If Python prints a text as itself and two numbers as two texts, and what the library answers to
  -- each method has the shape that the API documents, then after every setup that returned each of
  -- the five platforms returns too; what it adds has distinct ids, and is available exactly if Home
  -- Assistant's own part of it is, as long as the data is what it was added from.
  pub async_setup_entry-IsForwarded :
      (opts : Fields) (h : Hass py L c host R entry_id) (r : RuntimeData)
      → (async_setup_entry py L c host R entry_id opts h).0 ≡ ok r
      → (up : Bool)
      → IsForwarded
          (sensor_available up (runtimes_of r))
          up
          (sensors py r.host_id (some r.hub_device_id) (runtimes_of r))
        × IsForwarded
            (binary_sensor_available up (runtimes_of r))
            up
            (binary_sensors py r.host_id (some r.hub_device_id) (runtimes_of r))
        × IsForwarded
            (switch_available up (runtimes_of r))
            up
            (switches py r.host_id (some r.hub_device_id) (runtimes_of r))
        × IsForwarded
            (button_available up (runtimes_of r))
            up
            (buttons py r.host_id (some r.hub_device_id) (runtimes_of r))
        × IsForwarded
            (update_available up (runtimes_of r))
            up
            (updates py r.host_id (some r.hub_device_id) (runtimes_of r))
  unfolding documented
  async_setup_entry-IsForwarded opts h r p up =
      runtimes_of-IsForwarded py laws L c host R entry_id opts h r p
        (documented-IsAnswered r.refreshed (
          async_setup_entry-HasFacts documented py L c host
            (λ method params s. call-Answer L IsAnswer answers c method params false none s) R
            entry_id opts h p))
        up
