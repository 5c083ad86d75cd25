-- ===== src/Platforms/Total/Sensors.antt =====
-- What the sensors are made of is all that they need: among it the pools, by which the datasets
-- find their devices.
use ha_truenas_ng.Base.{◌≡◌, refl, String, Option, none, some, [], All}
use ha_truenas_ng.Base.Dict
use ha_truenas_ng.Base.Dict.{Dict, insert-All, lookup-All}
use ha_truenas_ng.Result.{ok, fold_result}
use ha_truenas_ng.Result.Holds.{Holds, Holds-ok, Holds-bind, Holds-fold, err-Holds, ok-Holds}
use ha_truenas_ng.Value.{Value, str, Fields}
use ha_truenas_ng.Value.Access.{as_dict, find, get}
use ha_truenas_ng.Value.Key.{Key, text, hash_key, key_eq}
use ha_truenas_ng.Value.Runtime.{Runtime}
use ha_truenas_ng.Entity.{pool_device_info}
use ha_truenas_ng.Platforms.{Runtimes, add_each}
use ha_truenas_ng.Platforms.Total.{
  IsPool, IsDict, IsDataset, IsComplete, Total, Total-ok, Total-then, Total-of, as_dict-Total,
  as_dict_of-Total, same_fields, add_if-Total, add_all-Total, each-Total, all-Total, on_hub-Total,
  on_app-Total, on_vm-Total, pool_device_info-Total,
}
use ha_truenas_ng.Platforms.Sensors.{
  add_all, by_name, new_system_sensor, new_alerts_sensor, new_reporting_sensor, new_pool_sensor,
  new_disk_sensor, new_dataset_sensor, new_app_sensor, new_vm_sensor, dataset_device,
  dataset_entities, datasets_of, sensors,
}
use ha_truenas_ng.Sensor.Tables.{
  Description, system_sensors, reporting_sensors, pool_sensors, disk_sensors, dataset_sensors,
  app_sensors, vm_sensors,
}

ArePools : Dict Key Value → Type 0
ArePools = All (λ x. IsPool x.1)

-- A text that a dict has is a key.
name_key :
    (key t : String) (fs : Fields)
    → find key fs ≡ some (str t)
    → hash_key (get fs key) ≡ ok (text t)
unfolding get hash_key
name_key key t fs h = rw h refl

by_name-ArePools :
    (pools : Dict Key Value) (x : Key × Value)
    → IsPool x.1
    → ArePools pools
    → Holds ArePools (λ _. ⊥) (by_name pools x)
unfolding by_name ArePools Total
by_name-ArePools pools (key, pool) p h =
    Holds-bind ArePools (λ _. ⊥) (as_dict pool) _
      (λ e q.
        err-Holds (λ _. Unit) (λ _. ⊥) (as_dict pool) (as_dict_of-Total pool p.fields p.is_dict) q)
      (λ fs q.
        let r : fs ≡ p.fields = same_fields pool fs p.fields q p.is_dict in
        rw (name_key "name" p.name fs (rw r p.has_name)) (
          Holds-ok ArePools (λ _. ⊥) _ (insert-All (λ x. IsPool x.1) (text p.name) pool pools p h)))

module _ (py : Runtime) (host_id : String) (via : Option String) where
  new_pool_sensor-Total :
      (pool : Key × Value) (d : Description Fields)
      → IsPool pool.1
      → Total (new_pool_sensor py host_id via pool d)
  unfolding new_pool_sensor
  new_pool_sensor-Total (guid, pool) d p =
      Total-then (as_dict pool) _ (as_dict_of-Total pool p.fields p.is_dict) (λ fs h.
        Total-then (pool_device_info py host_id fs via) _
          (pool_device_info-Total py host_id via pool fs p h) (λ i _. Total-ok _))

  dataset_device-Total :
      (info : Value) (pool : Option Value)
      → IsDict info
      → ((v : Value) → pool ≡ some v → IsPool v)
      → Total (dataset_device py host_id via info pool)
  unfolding dataset_device
  dataset_device-Total info (some v) i h =
      let p : IsPool v = h v refl in
      Total-then (as_dict v) _ (as_dict_of-Total v p.fields p.is_dict)
        (λ fs q. pool_device_info-Total py host_id via v fs p q)
  dataset_device-Total info none i h =
      Total-then (as_dict info) _ (as_dict-Total info i) (λ fs _. Total-ok _)

  module _ (runtime : Runtimes) (c : IsComplete runtime) where
    dataset_entities-Total :
        (pools_by_name : Dict Key Value) (ds : Key × Value)
        → ArePools pools_by_name
        → IsDataset ds.1
        → Total (dataset_entities py host_id via runtime.info pools_by_name ds)
    unfolding dataset_entities new_dataset_sensor ArePools
    dataset_entities-Total pools_by_name (id, ds) h d =
        Total-then (as_dict ds) _ (as_dict_of-Total ds d.fields d.is_dict) (λ fs q.
          let r : fs ≡ d.fields = same_fields ds fs d.fields q d.is_dict in
          Total-then (hash_key (get fs "pool")) _
            (Total-of _ _ (name_key "pool" d.pool fs (rw r d.has_pool)))
            (λ pool _.
              Total-then
                (dataset_device py host_id via runtime.info (Dict.lookup pool pools_by_name)) _
                (dataset_device-Total runtime.info (Dict.lookup pool pools_by_name) c.info
                  (λ v e. lookup-All (λ x. IsPool x.1) pool v pools_by_name h e))
                (λ device _. each-Total _ (λ x. Total-ok _) (dataset_sensors py))))

    datasets_of-Total : Total (datasets_of py host_id via runtime)
    unfolding datasets_of ArePools Total
    datasets_of-Total =
        let named : Holds ArePools (λ _. ⊥) (fold_result by_name [] runtime.pools) =
          Holds-fold ArePools (λ _. ⊥) (λ x. IsPool x.1) by_name
            (λ pools x p h. by_name-ArePools pools x p h) [] runtime.pools c.pools tt in
        Holds-bind (λ _. Unit) (λ _. ⊥) (fold_result by_name [] runtime.pools) _
          (λ e q. err-Holds ArePools (λ _. ⊥) (fold_result by_name [] runtime.pools) named q)
          (λ pools q.
            add_all-Total (λ x. IsDataset x.1) (dataset_entities py host_id via runtime.info pools)
              (λ ds d.
                dataset_entities-Total pools ds
                  (ok-Holds ArePools (λ _. ⊥) (fold_result by_name [] runtime.pools) named q) d)
              runtime.datasets c.datasets)

    pools-Total :
        Total (
          add_all
            (λ x. add_each (new_pool_sensor py host_id via x) (pool_sensors py))
            runtime.pools)
    pools-Total =
        add_all-Total (λ x. IsPool x.1) _
          (λ x p. each-Total _ (λ d. new_pool_sensor-Total x d p) (pool_sensors py)) runtime.pools
          c.pools

    disks-Total :
        Total (
          add_all
            (λ x. add_each (new_disk_sensor py host_id via x) (disk_sensors py))
            runtime.disks)
    unfolding new_disk_sensor
    disks-Total = all-Total _ (λ x. each-Total _ (λ d. Total-ok _) (disk_sensors py)) runtime.disks

    apps-Total :
        Total
          (add_all (λ x. add_each (new_app_sensor py host_id via x) (app_sensors py)) runtime.apps)
    unfolding new_app_sensor
    apps-Total =
        add_all-Total (λ x. IsDict x.1) _
          (λ x p. each-Total _ (λ d. on_app-Total py host_id via _ _ x p) (app_sensors py))
          runtime.apps c.apps

    vms-Total :
        Total (add_all (λ x. add_each (new_vm_sensor py host_id via x) (vm_sensors py)) runtime.vms)
    unfolding new_vm_sensor
    vms-Total =
        add_all-Total (λ x. IsDict x.1) _
          (λ x p. each-Total _ (λ d. on_vm-Total py host_id via _ _ x p) (vm_sensors py))
          runtime.vms c.vms

    pub sensors-Total : Total (sensors py host_id via runtime)
    unfolding sensors new_system_sensor new_alerts_sensor new_reporting_sensor
    sensors-Total =
        Total-then _ _
          (each-Total _ (λ d. on_hub-Total py host_id via _ _ _ c.info) (system_sensors py))
          (λ system _. Total-then _ _ (on_hub-Total py host_id via _ _ _ c.info) (λ alerts _.
            Total-then _ _
              (add_if-Total _ _ (
                each-Total _ (λ d. on_hub-Total py host_id via _ _ _ c.info)
                  (reporting_sensors py)))
              (λ reporting _. Total-then _ _ pools-Total (λ pools _.
                Total-then _ _ (add_if-Total _ _ disks-Total) (λ disks _.
                  Total-then _ _ (add_if-Total _ _ datasets_of-Total) (λ datasets _.
                    Total-then _ _ (add_if-Total _ _ apps-Total) (λ apps _.
                      Total-then _ _ (add_if-Total _ _ vms-Total) (λ vms _. Total-ok _))))))))
