-- ===== src/Platforms/Total/Entities.antt =====
-- What the switches, buttons, updates and binary sensors are made of is all that they need.
use ha_truenas_ng.Base.{String, Option}
use ha_truenas_ng.Value.{Value, Fields}
use ha_truenas_ng.Value.Access.{as_dict, subscript_of}
use ha_truenas_ng.Value.Key.{Key}
use ha_truenas_ng.Value.Runtime.{Runtime}
use ha_truenas_ng.Entity.{pool_device_info}
use ha_truenas_ng.Platforms.{Runtimes}
use ha_truenas_ng.Platforms.Total.{
  IsPool, IsDict, IsComplete, Total, Total-ok, Total-then, as_dict_of-Total, subscript_of-Total,
  add_if-Total, add_each-Total, each-Total, on_hub-Total, on_app-Total, on_vm-Total,
  pool_device_info-Total,
}
use ha_truenas_ng.Platforms.BinarySensors.{
  new_pool_health, new_disk_problem, new_service_running, new_critical_alert, binary_sensors,
}
use ha_truenas_ng.Platforms.Buttons.{
  new_scrub_button, new_system_button, new_restart_button, new_redeploy_button,
  new_vm_restart_button, buttons,
}
use ha_truenas_ng.Platforms.Switches.{new_service_switch, new_app_switch, new_vm_switch, switches}
use ha_truenas_ng.Platforms.Updates.{new_os_update, new_app_update, updates}

module _ (py : Runtime) (host_id : String) (via : Option String) where
  new_pool_health-Total :
      (pool : Key × Value) → IsPool pool.1 → Total (new_pool_health py host_id via pool)
  unfolding new_pool_health
  new_pool_health-Total (guid, pool) p =
      Total-then (as_dict pool) _ (as_dict_of-Total pool p.fields p.is_dict) (λ fs h.
        Total-then (pool_device_info py host_id fs via) _
          (pool_device_info-Total py host_id via pool fs p h) (λ d _. Total-ok _))

  new_disk_problem-Total : (disk : Key × Fields) → Total (new_disk_problem py host_id via disk)
  unfolding new_disk_problem
  new_disk_problem-Total (id, disk) = Total-ok _

  new_scrub_button-Total :
      (pool : Key × Value) → IsPool pool.1 → Total (new_scrub_button py host_id via pool)
  unfolding new_scrub_button
  new_scrub_button-Total (guid, pool) p =
      Total-then (subscript_of pool "id") _
        (subscript_of-Total pool p.fields "id" p.id p.is_dict p.has_id)
        (λ id _. Total-then (as_dict pool) _ (as_dict_of-Total pool p.fields p.is_dict) (λ fs h.
          Total-then (pool_device_info py host_id fs via) _
            (pool_device_info-Total py host_id via pool fs p h) (λ d _. Total-ok _)))

module _ (py : Runtime) (host_id : String) (via : Option String) (runtime : Runtimes)
    (c : IsComplete runtime) where
  pub switches-Total : Total (switches py host_id via runtime)
  unfolding switches new_service_switch new_app_switch new_vm_switch
  switches-Total =
      Total-then _ _
        (add_if-Total _ _
          (each-Total _ (λ x. on_hub-Total py host_id via _ _ _ c.info) runtime.services))
        (λ xs _.
          Total-then _ _
            (add_if-Total _ _ (
              add_each-Total (λ x. IsDict x.1) _ (λ x. on_app-Total py host_id via _ _ x)
                runtime.apps c.apps))
            (λ ys _.
              Total-then _ _
                (add_if-Total _ _ (
                  add_each-Total (λ x. IsDict x.1) _ (λ x. on_vm-Total py host_id via _ _ x)
                    runtime.vms c.vms))
                (λ zs _. Total-ok _)))

  pub updates-Total : Total (updates py host_id via runtime)
  unfolding updates new_os_update new_app_update
  updates-Total = Total-then _ _ (on_hub-Total py host_id via _ _ _ c.info) (λ os _.
      Total-then _ _
        (add_if-Total _ _ (
          add_each-Total (λ x. IsDict x.1) _ (λ x. on_app-Total py host_id via _ _ x) runtime.apps
            c.apps))
        (λ ys _. Total-ok _))

  pub buttons-Total : Total (buttons py host_id via runtime)
  unfolding buttons new_system_button new_restart_button new_redeploy_button new_vm_restart_button
  buttons-Total =
      Total-then _ _
        (add_each-Total (λ x. IsPool x.1) _ (new_scrub_button-Total py host_id via) runtime.pools
          c.pools)
        (λ xs _. Total-then _ _ (on_hub-Total py host_id via _ _ _ c.info) (λ reboot _.
          Total-then _ _ (on_hub-Total py host_id via _ _ _ c.info) (λ shutdown _.
            Total-then _ _
              (add_if-Total _ _
                (each-Total _ (λ x. on_hub-Total py host_id via _ _ _ c.info) runtime.services))
              (λ ys _.
                Total-then _ _
                  (add_if-Total _ _ (
                    add_each-Total (λ x. IsDict x.1) _ (λ x. on_app-Total py host_id via _ _ x)
                      runtime.apps c.apps))
                  (λ zs _.
                    Total-then _ _
                      (add_if-Total _ _ (
                        add_each-Total (λ x. IsDict x.1) _ (λ x. on_vm-Total py host_id via _ _ x)
                          runtime.vms c.vms))
                      (λ ws _. Total-ok _))))))

  pub binary_sensors-Total : Total (binary_sensors py host_id via runtime)
  unfolding binary_sensors new_service_running new_critical_alert
  binary_sensors-Total =
      Total-then _ _
        (add_each-Total (λ x. IsPool x.1) _ (new_pool_health-Total py host_id via) runtime.pools
          c.pools)
        (λ xs _.
          Total-then _ _
            (add_if-Total _ _ (each-Total _ (new_disk_problem-Total py host_id via) runtime.disks))
            (λ ys _.
              Total-then _ _
                (each-Total _ (λ x. on_hub-Total py host_id via _ _ _ c.info) runtime.services)
                (λ zs _.
                  Total-then _ _ (on_hub-Total py host_id via _ _ _ c.info)
                    (λ alerts _. Total-ok _))))
