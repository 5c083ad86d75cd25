-- ===== src/Platforms/Ids/Distinct.antt =====
-- The unique ids of each platform: those of the entities of a table are told apart by their names,
-- and those of two kinds by what stands before the name.
use ha_truenas_ng.Base.{refl, String, ◌<>◌, Option, [], ◌∷◌}
use ha_truenas_ng.Result.Holds.{Holds-ok, Holds-bind}
use ha_truenas_ng.Value.{Value, Fields}
use ha_truenas_ng.Value.Access.{as_dict, subscript_of}
use ha_truenas_ng.Value.Key.{Key}
use ha_truenas_ng.Value.Runtime.{Runtime}
use ha_truenas_ng.Entity.{pool_device_info}
use ha_truenas_ng.Platforms.{Runtimes}
use ha_truenas_ng.Platforms.Ids.{
  HasDistinctIds, IsNamed, IsId, IsId-bind, add_each-bind, add_if-bind, join, ok-HasDistinctIds,
  on_hub-IsId, on_app-IsId, on_vm-IsId,
}
use ha_truenas_ng.Platforms.Prefixes.{clash, clash_all, clash_each}
use ha_truenas_ng.Platforms.BinarySensors.{
  service_running, critical_alert, new_pool_health, new_disk_problem, new_service_running,
  new_critical_alert, binary_sensors,
}
use ha_truenas_ng.Platforms.Buttons.{
  system_button, restart_button, redeploy_button, vm_restart_button, new_scrub_button,
  new_system_button, new_restart_button, new_redeploy_button, new_vm_restart_button, buttons,
}
use ha_truenas_ng.Platforms.Switches.{
  app_switch, vm_switch, service_switch, new_service_switch, new_app_switch, new_vm_switch,
  switches,
}
use ha_truenas_ng.Platforms.Updates.{os_update, app_update, new_os_update, new_app_update, updates}

module _ (py : Runtime) (host_id : String) (via : Option String) where
  new_pool_health-IsId :
      (pool : Key × Value)
      → IsId py host_id
          ("_pool_" <> (py.str_of_key pool.0 <> "_health"))
          (new_pool_health py host_id via pool)
  unfolding new_pool_health IsId
  new_pool_health-IsId (guid, pool) =
      Holds-bind _ (λ _. Unit) (as_dict pool) _ (λ e _. tt)
        (λ fs _.
          Holds-bind _ (λ _. Unit) (pool_device_info py host_id fs via) _ (λ e _. tt)
            (λ d _. Holds-ok _ (λ _. Unit) _ refl))

  new_disk_problem-IsId :
      (disk : Key × Fields)
      → IsId py host_id
          ("_disk_" <> (py.str_of_key disk.0 <> "_problem"))
          (new_disk_problem py host_id via disk)
  unfolding new_disk_problem IsId
  new_disk_problem-IsId (id, disk) = Holds-ok _ (λ _. Unit) _ refl

  new_scrub_button-IsId :
      (pool : Key × Value)
      → IsId py host_id
          ("_pool_" <> (py.str_of_key pool.0 <> "_scrub"))
          (new_scrub_button py host_id via pool)
  unfolding new_scrub_button IsId
  new_scrub_button-IsId (guid, pool) =
      Holds-bind _ (λ _. Unit) (subscript_of pool "id") _ (λ e _. tt)
        (λ id _.
          Holds-bind _ (λ _. Unit) (as_dict pool) _ (λ e _. tt)
            (λ fs _.
              Holds-bind _ (λ _. Unit) (pool_device_info py host_id fs via) _ (λ e _. tt)
                (λ d _. Holds-ok _ (λ _. Unit) _ refl)))

  module _ (runtime : Runtimes) (named : IsNamed py runtime) where
    pub switches-HasDistinctIds : HasDistinctIds (switches py host_id via runtime)
    unfolding switches new_service_switch new_app_switch new_vm_switch HasDistinctIds clash
        clash_all clash_each
    switches-HasDistinctIds =
        add_if-bind py host_id _ "_service_" "_switch" _ runtime.services _ _ named.services
          (λ x. on_hub-IsId py host_id via _ (service_switch x.0) _)
          (λ xs h.
            add_if-bind py host_id _ "_app_" "_switch" _ runtime.apps _ _ named.apps
              (λ x. on_app-IsId py host_id via (app_switch x.0) _ x)
              (λ ys k.
                add_if-bind py host_id _ "_vm_" "_switch" _ runtime.vms _ _ named.vms
                  (λ x. on_vm-IsId py host_id via (vm_switch x.0) _ x)
                  (λ zs l.
                    ok-HasDistinctIds py host_id _ _
                      (join py host_id _ _ xs _ refl h (join py host_id _ _ ys zs refl k l)))))

    pub updates-HasDistinctIds : HasDistinctIds (updates py host_id via runtime)
    unfolding updates new_os_update new_app_update HasDistinctIds clash clash_all clash_each
    updates-HasDistinctIds =
        IsId-bind py host_id _ "_os_update" _ _ (on_hub-IsId py host_id via _ os_update _) (λ os h.
          add_if-bind py host_id _ "_app_" "_update" _ runtime.apps _ _ named.apps
            (λ x. on_app-IsId py host_id via (app_update x.0) _ x)
            (λ ys k. ok-HasDistinctIds py host_id _ _ (join py host_id _ _ (os ∷ []) ys refl h k)))

    pub buttons-HasDistinctIds : HasDistinctIds (buttons py host_id via runtime)
    unfolding buttons new_system_button new_restart_button new_redeploy_button new_vm_restart_button
        HasDistinctIds clash clash_all clash_each
    buttons-HasDistinctIds =
        add_each-bind py host_id _ "_pool_" "_scrub" _ runtime.pools _ named.pools
          new_scrub_button-IsId
          (λ xs h.
            IsId-bind py host_id _ "_system_reboot" _ _
              (on_hub-IsId py host_id via _ (system_button "system.reboot") "_system_reboot")
              (λ reboot i.
                IsId-bind py host_id _ "_system_shutdown" _ _
                  (on_hub-IsId py host_id via _ (system_button "system.shutdown")
                    "_system_shutdown")
                  (λ shutdown j.
                    add_if-bind py host_id _ "_service_" "_restart" _ runtime.services _ _
                      named.services (λ x. on_hub-IsId py host_id via _ (restart_button x.0) _)
                      (λ ys k.
                        add_if-bind py host_id _ "_app_" "_redeploy" _ runtime.apps _ _ named.apps
                          (λ x. on_app-IsId py host_id via (redeploy_button x.0) _ x)
                          (λ zs l.
                            add_if-bind py host_id _ "_vm_" "_restart" _ runtime.vms _ _ named.vms
                              (λ x. on_vm-IsId py host_id via (vm_restart_button x.0) _ x)
                              (λ ws m. ok-HasDistinctIds py host_id _ _ (
                                join py host_id _ _ xs _ refl h (
                                  join py host_id _ _ (reboot ∷ []) _ refl i (
                                    join py host_id _ _ (shutdown ∷ []) _ refl j (
                                      join py host_id _ _ ys _ refl k
                                        (join py host_id _ _ zs ws refl l m)))))))))))

    pub binary_sensors-HasDistinctIds : HasDistinctIds (binary_sensors py host_id via runtime)
    unfolding binary_sensors new_service_running new_critical_alert HasDistinctIds clash clash_all
        clash_each
    binary_sensors-HasDistinctIds =
        add_each-bind py host_id _ "_pool_" "_health" _ runtime.pools _ named.pools
          new_pool_health-IsId
          (λ xs h.
            add_if-bind py host_id _ "_disk_" "_problem" _ runtime.disks _ _ named.disks
              new_disk_problem-IsId
              (λ ys k.
                add_each-bind py host_id _ "_service_" "_running" _ runtime.services _
                  named.services (λ x. on_hub-IsId py host_id via _ (service_running x.0) _)
                  (λ zs l.
                    IsId-bind py host_id _ "_alerts_critical" _ _
                      (on_hub-IsId py host_id via _ critical_alert _)
                      (λ alerts m. ok-HasDistinctIds py host_id _ _ (
                        join py host_id _ _ xs _ refl h (
                          join py host_id _ _ ys _ refl k
                            (join py host_id _ _ zs (alerts ∷ []) refl l m)))))))
