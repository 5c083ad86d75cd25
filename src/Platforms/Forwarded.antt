-- ===== src/Platforms/Forwarded.antt =====
-- From the setup to the platforms: what __init__.py hands to the platforms (`TrueNASRuntimeData`, and
-- the forwarding at the end of `async_setup_entry`), and what they do with it.
use ha_truenas_ng.Base.{◌≡◌, String, Bool, some, List, [], ◌∷◌, All}
use ha_truenas_ng.Base.Dict.{Dict}
use ha_truenas_ng.Result.{Result, ok}
use ha_truenas_ng.Result.Holds.{Holds, Holds-total}
use ha_truenas_ng.Value.{Value, str, dict, Fields}
use ha_truenas_ng.Value.Access.{find, truthy}
use ha_truenas_ng.Value.Key.{Key}
use ha_truenas_ng.Value.Runtime.{Runtime}
use ha_truenas_ng.Client.{Config}
use ha_truenas_ng.Client.Upstream.{Library}
use ha_truenas_ng.Coordinator.Indexed.{IsNamedBy, IsIndexed, IsStored}
use ha_truenas_ng.Repairs.Issues.{Registry}
use ha_truenas_ng.Setup.Entry.{Refreshed, RuntimeData, Host, Hass, async_setup_entry}
use ha_truenas_ng.Setup.Entry.Indexed.{IsRefreshed, async_setup_entry-IsRefreshed}
use ha_truenas_ng.Platforms.{Added, Runtimes}
use ha_truenas_ng.Platforms.Available.{IsUp}
use ha_truenas_ng.Platforms.BinarySensors.{binary_sensor_available, binary_sensors}
use ha_truenas_ng.Platforms.Buttons.{button_available, buttons}
use ha_truenas_ng.Platforms.Ids.{unique_ids, IsNamed}
use ha_truenas_ng.Platforms.Ids.Names.{
  PrintsKeys, IsText, IsNumber, IsText-PrintsApart, IsNumber-PrintsApart, names-Nodup,
}
use ha_truenas_ng.Platforms.Prefixes.{All-imp}
use ha_truenas_ng.Platforms.Sensors.{sensor_available, sensors}
use ha_truenas_ng.Platforms.Soundness.{IsSound, platforms-IsSound}
use ha_truenas_ng.Platforms.Switches.{switch_available, switches}
use ha_truenas_ng.Platforms.Total.{IsDict, IsPool, IsDataset, IsComplete, Total}
use ha_truenas_ng.Platforms.Total.Entities.{
  switches-Total, updates-Total, buttons-Total, binary_sensors-Total,
}
use ha_truenas_ng.Platforms.Total.Sensors.{sensors-Total}
use ha_truenas_ng.Platforms.Updates.{update_available, updates}
use mathlib.Core.List.{Nodup}
use mathlib.Core.Path.{subst}

-- What the platforms read of `entry.runtime_data`: the coordinators' data, and the toggles, which
-- are tested for truth.
unfoldable pub runtimes_of : RuntimeData → Runtimes
runtimes_of r =
    let read = r.refreshed in
    record {
      info = read.system.info;
      pools = read.storage.pools;
      disks = read.storage.disks;
      services = read.system.services;
      datasets = read.datasets;
      apps = read.apps;
      vms = read.vms;
      enable_datasets = truthy r.options.enable_datasets;
      enable_disks = truthy r.options.enable_disks;
      enable_reporting = truthy r.options.enable_reporting;
      enable_service_controls = truthy r.options.enable_service_controls;
      enable_apps = truthy r.options.enable_apps;
      enable_vms = truthy r.options.enable_vms;
    }

-- What the API documents of its answers: a pool has an id and a name, a dataset the name of its
-- pool; a virtual machine is known by a number, everything else by a text.
pub record IsPoolAnswer (v : Value) : Type 0 where
  pub fields : Fields
  pub id : Value
  pub name : String
  pub is_dict : v ≡ dict fields
  pub has_id : find "id" fields ≡ some id
  pub has_name : find "name" fields ≡ some (str name)

pub record IsAnswered (read : Refreshed) : Type 0 where
  pub info : IsDict read.system.info
  pub pools : All (λ x. IsText x.0 × IsPoolAnswer x.1) read.storage.pools
  pub disks : All (λ x. IsText x.0) read.storage.disks
  pub services : All (λ x. IsText x.0) read.system.services
  pub datasets : All (λ x. IsText x.0 × IsDataset x.1) read.datasets
  pub apps : All (λ x. IsText x.0) read.apps
  pub vms : All (λ x. IsNumber x.0) read.vms

-- A platform returns; what it adds has distinct ids, and is available exactly if `up` is.
pub IsForwarded : {A : Type 0} → (A → Bool) → Bool → Result (List (Added A)) → Type 0
IsForwarded available_in up =
    Holds (λ xs. Nodup (unique_ids xs) × All (IsUp available_in up) xs) (λ _. ⊥)

Total-IsForwarded :
    {A : Type 0} (available_in : A → Bool) (up : Bool) (m : Result (List (Added A)))
    → Total m
    → IsSound available_in up m
    → IsForwarded available_in up m
unfolding IsForwarded IsSound Total
Total-IsForwarded available_in up m h k = Holds-total _ m h k

named-IsDict : (field_name : String) (x : Key × Value) → IsNamedBy field_name x → IsDict x.1
named-IsDict field_name x n = record { fields = n.fields; is_dict = n.is_dict }

dict_fields : (v : Value) (fs gs : Fields) → v ≡ dict fs → v ≡ dict gs → fs ≡ gs
dict_fields v fs gs p q = cc

answer-IsPool :
    (xs : Dict Key Value)
    → All (IsNamedBy "guid") xs
    → All (λ x. IsText x.0 × IsPoolAnswer x.1) xs
    → All (λ x. IsPool x.1) xs
answer-IsPool [] h k = tt
answer-IsPool ((_, v) ∷ xs) (n, h) ((_, p), k) =
    let same : n.fields ≡ p.fields = dict_fields v n.fields p.fields n.is_dict p.is_dict in
    (
      record {
        fields = p.fields;
        id = p.id;
        guid = n.name;
        name = p.name;
        is_dict = p.is_dict;
        has_id = p.has_id;
        has_guid = subst (λ fs. find "guid" fs ≡ some n.name) same n.has_field;
        has_name = p.has_name;
      },
      answer-IsPool xs h k,
    )

module _ (r : RuntimeData) (t : IsRefreshed r.refreshed) (a : IsAnswered r.refreshed) where
  runtimes_of-IsComplete : IsComplete (runtimes_of r)
  unfolding runtimes_of IsStored IsIndexed
  runtimes_of-IsComplete = record {
    info = a.info;
    pools = answer-IsPool r.refreshed.storage.pools t.storage.0.1 a.pools;
    datasets = All-imp (λ x (_, d). d) r.refreshed.datasets a.datasets;
    apps = All-imp (named-IsDict "name") r.refreshed.apps t.apps.1;
    vms = All-imp (named-IsDict "id") r.refreshed.vms t.vms.1;
  }

  runtimes_of-IsNamed : (py : Runtime) → PrintsKeys py → IsNamed py (runtimes_of r)
  unfolding runtimes_of IsStored IsIndexed
  runtimes_of-IsNamed py laws =
      let apart = IsText-PrintsApart py laws in
      record {
        pools =
            names-Nodup py IsText apart r.refreshed.storage.pools t.storage.0.0
              (All-imp (λ x (k, _). k) r.refreshed.storage.pools a.pools);
        disks = names-Nodup py IsText apart r.refreshed.storage.disks t.storage.1 a.disks;
        services = names-Nodup py IsText apart r.refreshed.system.services t.services.0 a.services;
        datasets =
            names-Nodup py IsText apart r.refreshed.datasets t.datasets.0
              (All-imp (λ x (k, _). k) r.refreshed.datasets a.datasets);
        apps = names-Nodup py IsText apart r.refreshed.apps t.apps.0 a.apps;
        vms = names-Nodup py IsNumber (IsNumber-PrintsApart py laws) r.refreshed.vms t.vms.0 a.vms;
      }

module _ (py : Runtime) (laws : PrintsKeys py) (L : Library) (c : Config) (host : Host)
    (R : Registry) (entry_id : String) where
  -- If the setup returned, and its coordinators read objects with the fields that the API
  -- documents, then each of the five platforms returns too; what it adds has distinct ids, and is
  -- available exactly if Home Assistant's own part of it is.
  pub runtimes_of-IsForwarded :
      (opts : Fields) (h : Hass py L c host R entry_id) (r : RuntimeData)
      → (async_setup_entry py L c host R entry_id opts h).0 ≡ ok r
      → IsAnswered r.refreshed
      → (up : Bool)
      → IsForwarded
          (sensor_available up (runtimes_of r))
          up
          (sensors py r.host_id (some r.hub_device_id) (runtimes_of r))
        × IsForwarded
            (binary_sensor_available up (runtimes_of r))
            up
            (binary_sensors py r.host_id (some r.hub_device_id) (runtimes_of r))
        × IsForwarded
            (switch_available up (runtimes_of r))
            up
            (switches py r.host_id (some r.hub_device_id) (runtimes_of r))
        × IsForwarded
            (button_available up (runtimes_of r))
            up
            (buttons py r.host_id (some r.hub_device_id) (runtimes_of r))
        × IsForwarded
            (update_available up (runtimes_of r))
            up
            (updates py r.host_id (some r.hub_device_id) (runtimes_of r))
  runtimes_of-IsForwarded opts h r p a up =
      let t = async_setup_entry-IsRefreshed py L c host R entry_id opts h p in
      let made = runtimes_of-IsComplete r t a in
      let via = some r.hub_device_id in
      let (f, b, s, u, o) =
        platforms-IsSound py r.host_id via (runtimes_of r) (runtimes_of-IsNamed r t a py laws) up in
      (
        Total-IsForwarded _ up _ (sensors-Total py r.host_id via (runtimes_of r) made) f,
        Total-IsForwarded _ up _ (binary_sensors-Total py r.host_id via (runtimes_of r) made) b,
        Total-IsForwarded _ up _ (switches-Total py r.host_id via (runtimes_of r) made) s,
        Total-IsForwarded _ up _ (buttons-Total py r.host_id via (runtimes_of r) made) u,
        Total-IsForwarded _ up _ (updates-Total py r.host_id via (runtimes_of r) made) o,
      )
