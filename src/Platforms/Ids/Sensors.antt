-- ===== src/Platforms/Ids/Sensors.antt =====
-- The unique ids that sensor.py gives to what it adds.
use ha_truenas_ng.Base.{◌≡◌, refl, String, ◌<>◌, true, Option, List, [], ◌∷◌}
use ha_truenas_ng.Base.Dict
use ha_truenas_ng.Base.Dict.{Dict}
use ha_truenas_ng.Result.{Result, fold_result}
use ha_truenas_ng.Result.Holds.{Holds, Holds-ok, Holds-bind}
use ha_truenas_ng.Value.{Value, Fields}
use ha_truenas_ng.Value.Access.{as_dict, get}
use ha_truenas_ng.Value.Key.{Key, hash_key, key_eq}
use ha_truenas_ng.Value.Runtime.{Runtime}
use ha_truenas_ng.Entity.{pool_device_info}
use ha_truenas_ng.Platforms.{Added, Runtimes, add_each}
use ha_truenas_ng.Platforms.Grids.{backwards, ends_apart, row, fixed-IsApart}
use ha_truenas_ng.Platforms.Ids.{
  unique_ids, HasDistinctIds, IsNamed, IsId, IsId-bind, IsAdded, IsAdded-of, IsAdded-bind,
  add_if-IsAdded, add_each-ids, join, ok-HasDistinctIds, on_hub-IsId, on_app-IsId, on_vm-IsId,
}
use ha_truenas_ng.Platforms.Ids.Rows.{add_each-row, add_all-IsAdded}
use ha_truenas_ng.Platforms.Prefixes.{clash, clash_all, clash_each}
use ha_truenas_ng.Platforms.Sensors.{
  Sensor, add_all, suffix_of, system_sensor, alerts_sensor, reporting_sensor, app_sensor, vm_sensor,
  by_name, new_system_sensor, new_alerts_sensor, new_reporting_sensor, new_pool_sensor,
  new_disk_sensor, new_dataset_sensor, new_app_sensor, new_vm_sensor, dataset_device,
  dataset_entities, datasets_of, sensors,
}
use ha_truenas_ng.Sensor.Tables.{
  Description, described, system_sensors, reporting_sensors, pool_sensors, disk_sensors,
  dataset_sensors, app_sensors, vm_sensors,
}
use mathlib.Core.List.{map}

module _ (py : Runtime) (host_id : String) (via : Option String) where
  -- The sensors of a table whose ids stand in its rows.
  fixed-IsAdded :
      {X : Type 0} (name : X → String) (make : X → Result (Added Sensor)) (xs : List X)
      → ends_apart (map name xs) ≡ true
      → ((x : X) → IsId py host_id (name x) (make x))
      → IsAdded py host_id (map name xs) (add_each make xs)
  fixed-IsAdded name make xs c h =
      IsAdded-of py host_id (map name xs) (map (λ t. host_id <> t) (map name xs)) (add_each make xs)
        (add_each-ids py host_id name (λ t. t) make h xs) (fixed-IsApart host_id (map name xs) c)

  new_pool_sensor-IsId :
      (pool : Key × Value) (d : Description Fields)
      → IsId py host_id
          ("_pool_" <> (py.str_of_key pool.0 <> suffix_of d))
          (new_pool_sensor py host_id via pool d)
  unfolding new_pool_sensor IsId
  new_pool_sensor-IsId (guid, pool) d =
      Holds-bind _ (λ _. Unit) (as_dict pool) _ (λ e _. tt)
        (λ fs _.
          Holds-bind _ (λ _. Unit) (pool_device_info py host_id fs via) _ (λ e _. tt)
            (λ i _. Holds-ok _ (λ _. Unit) _ refl))

  new_disk_sensor-IsId :
      (disk : Key × Fields) (d : Description Fields)
      → IsId py host_id
          ("_disk_" <> (py.str_of_key disk.0 <> suffix_of d))
          (new_disk_sensor py host_id via disk d)
  unfolding new_disk_sensor IsId
  new_disk_sensor-IsId (id, disk) d = Holds-ok _ (λ _. Unit) _ refl

  -- The sensors of one dataset, whatever device they stand on.
  dataset_entities-row :
      (info : Value) (pools_by_name : Dict Key Value) (ds : Key × Value)
      → Holds
          (λ xs.
            unique_ids xs
            ≡ row host_id "_dataset_" (map suffix_of (dataset_sensors py)) (py.str_of_key ds.0))
          (λ _. Unit)
          (dataset_entities py host_id via info pools_by_name ds)
  unfolding dataset_entities new_dataset_sensor IsId
  dataset_entities-row info pools_by_name (id, ds) =
      Holds-bind _ (λ _. Unit) (as_dict ds) _ (λ e _. tt)
        (λ fs _.
          Holds-bind _ (λ _. Unit) (hash_key (get fs "pool")) _ (λ e _. tt)
            (λ pool _.
              Holds-bind _ (λ _. Unit)
                (dataset_device py host_id via info (Dict.lookup pool pools_by_name)) _ (λ e _. tt)
                (λ device _.
                  add_each-row py host_id "_dataset_" (py.str_of_key id)
                    (new_dataset_sensor py host_id via id device)
                    (λ d. Holds-ok _ (λ _. Unit) _ refl) (dataset_sensors py))))

  module _ (runtime : Runtimes) (named : IsNamed py runtime) where
    system-IsAdded :
        (info : Value)
        → IsAdded py host_id
            (map (λ d. "_system_" <> d.key) (system_sensors py))
            (add_each (new_system_sensor py host_id via info) (system_sensors py))
    unfolding new_system_sensor system_sensors described ends_apart backwards clash clash_all
    system-IsAdded info =
        fixed-IsAdded (λ d. "_system_" <> d.key) _ (system_sensors py) refl
          (λ d. on_hub-IsId py host_id via info (system_sensor d) ("_system_" <> d.key))

    reporting-IsAdded :
        (info : Value)
        → IsAdded py host_id
            (map (λ d. "_system_" <> d.key) (reporting_sensors py))
            (add_each (new_reporting_sensor py host_id via info) (reporting_sensors py))
    unfolding new_reporting_sensor reporting_sensors described ends_apart backwards clash clash_all
    reporting-IsAdded info =
        fixed-IsAdded (λ d. "_system_" <> d.key) _ (reporting_sensors py) refl
          (λ d. on_hub-IsId py host_id via info (reporting_sensor d) ("_system_" <> d.key))

    pools-IsAdded :
        IsAdded py host_id ("_pool_" ∷ []) (
          add_all
            (λ x. add_each (new_pool_sensor py host_id via x) (pool_sensors py))
            runtime.pools)
    unfolding pool_sensors described suffix_of ends_apart backwards clash clash_all
    pools-IsAdded =
        add_all-IsAdded py host_id "_pool_" (map suffix_of (pool_sensors py)) _ runtime.pools refl
          named.pools
          (λ x.
            add_each-row py host_id "_pool_" (py.str_of_key x.0) _ (new_pool_sensor-IsId x)
              (pool_sensors py))

    disks-IsAdded :
        IsAdded py host_id ("_disk_" ∷ []) (
          add_all
            (λ x. add_each (new_disk_sensor py host_id via x) (disk_sensors py))
            runtime.disks)
    unfolding disk_sensors described suffix_of ends_apart backwards clash clash_all
    disks-IsAdded =
        add_all-IsAdded py host_id "_disk_" (map suffix_of (disk_sensors py)) _ runtime.disks refl
          named.disks
          (λ x.
            add_each-row py host_id "_disk_" (py.str_of_key x.0) _ (new_disk_sensor-IsId x)
              (disk_sensors py))

    datasets-IsAdded : IsAdded py host_id ("_dataset_" ∷ []) (datasets_of py host_id via runtime)
    unfolding datasets_of IsAdded dataset_sensors described suffix_of ends_apart backwards clash
        clash_all
    datasets-IsAdded =
        Holds-bind _ (λ _. Unit) (fold_result by_name [] runtime.pools) _ (λ e _. tt)
          (λ pools _.
            add_all-IsAdded py host_id "_dataset_" (map suffix_of (dataset_sensors py)) _
              runtime.datasets refl named.datasets (dataset_entities-row runtime.info pools))

    apps-IsAdded :
        IsAdded py host_id
          ("_app_" ∷ [])
          (add_all (λ x. add_each (new_app_sensor py host_id via x) (app_sensors py)) runtime.apps)
    unfolding new_app_sensor app_sensors described suffix_of ends_apart backwards clash clash_all
    apps-IsAdded =
        add_all-IsAdded py host_id "_app_" (map suffix_of (app_sensors py)) _ runtime.apps refl
          named.apps
          (λ x.
            add_each-row py host_id "_app_" (py.str_of_key x.0) _
              (λ d. on_app-IsId py host_id via (app_sensor x.0 d) (suffix_of d) x) (app_sensors py))

    vms-IsAdded :
        IsAdded py host_id
          ("_vm_" ∷ [])
          (add_all (λ x. add_each (new_vm_sensor py host_id via x) (vm_sensors py)) runtime.vms)
    unfolding new_vm_sensor vm_sensors described suffix_of ends_apart backwards clash clash_all
    vms-IsAdded =
        add_all-IsAdded py host_id "_vm_" (map suffix_of (vm_sensors py)) _ runtime.vms refl
          named.vms
          (λ x.
            add_each-row py host_id "_vm_" (py.str_of_key x.0) _
              (λ d. on_vm-IsId py host_id via (vm_sensor x.0 d) (suffix_of d) x) (vm_sensors py))

    pub sensors-HasDistinctIds : HasDistinctIds (sensors py host_id via runtime)
    unfolding sensors new_alerts_sensor system_sensors reporting_sensors described HasDistinctIds
        clash clash_all clash_each
    sensors-HasDistinctIds =
        IsAdded-bind py host_id _ _ _ _ (system-IsAdded runtime.info) (λ system h.
          IsId-bind py host_id _ "_alerts_active" _ _
            (on_hub-IsId py host_id via runtime.info alerts_sensor "_alerts_active")
            (λ alerts i.
              IsAdded-bind py host_id _ _ _ _
                (add_if-IsAdded py host_id _ _ _ (reporting-IsAdded runtime.info))
                (λ reporting j. IsAdded-bind py host_id _ _ _ _ pools-IsAdded (λ pools k.
                  IsAdded-bind py host_id _ _ _ _ (add_if-IsAdded py host_id _ _ _ disks-IsAdded)
                    (λ disks l.
                      IsAdded-bind py host_id _ _ _ _
                        (add_if-IsAdded py host_id _ _ _ datasets-IsAdded)
                        (λ datasets m.
                          IsAdded-bind py host_id _ _ _ _
                            (add_if-IsAdded py host_id _ _ _ apps-IsAdded)
                            (λ apps n.
                              IsAdded-bind py host_id _ _ _ _
                                (add_if-IsAdded py host_id _ _ _ vms-IsAdded)
                                (λ vms o. ok-HasDistinctIds py host_id _ _ (
                                  join py host_id _ _ system _ refl h (
                                    join py host_id _ _ (alerts ∷ []) _ refl i (
                                      join py host_id _ _ reporting _ refl j (
                                        join py host_id _ _ pools _ refl k (
                                          join py host_id _ _ disks _ refl l (
                                            join py host_id _ _ datasets _ refl m
                                              (join py host_id _ _ apps vms refl n o)))))))))))))))
