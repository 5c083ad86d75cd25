-- ===== src/Platforms/Available/Entities.antt =====
-- What each platform adds is available where it was added.
use ha_truenas_ng.Base.{refl, String, Bool, Option, [], ◌∷◌}
use ha_truenas_ng.Result.Holds.{Holds, Holds-ok, Holds-bind, Holds-then}
use ha_truenas_ng.Value.{Value, Fields}
use ha_truenas_ng.Value.Access.{as_dict, subscript_of}
use ha_truenas_ng.Value.Key.{Key}
use ha_truenas_ng.Value.Runtime.{Runtime}
use ha_truenas_ng.Entity.{pool_device_info}
use ha_truenas_ng.Platforms.{Runtimes}
use ha_truenas_ng.Platforms.Available.{
  IsUp, Every, Every-each, IsOf, add_if-Every, one-IsUp, add_each-IsUp, on_hub-IsOf, on_app-IsOf,
  on_vm-IsOf,
}
use ha_truenas_ng.Platforms.Prefixes.{All-append}
use ha_truenas_ng.Platforms.BinarySensors.{
  pool_health, disk_problem, service_running, critical_alert, binary_sensor_available,
  new_pool_health, new_disk_problem, new_service_running, new_critical_alert, binary_sensors,
}
use ha_truenas_ng.Platforms.Buttons.{
  system_button, restart_button, redeploy_button, vm_restart_button, button_available,
  new_scrub_button, new_system_button, new_restart_button, new_redeploy_button,
  new_vm_restart_button, buttons,
}
use ha_truenas_ng.Platforms.Switches.{
  app_switch, vm_switch, service_switch, switch_available, new_service_switch, new_app_switch,
  new_vm_switch, switches,
}
use ha_truenas_ng.Platforms.Updates.{
  os_update, app_update, update_available, new_os_update, new_app_update, updates,
}

module _ (py : Runtime) (host_id : String) (via : Option String) where
  new_pool_health-IsOf :
      (pool : Key × Value) → IsOf (pool_health pool.0) (new_pool_health py host_id via pool)
  unfolding new_pool_health IsOf
  new_pool_health-IsOf (guid, pool) =
      Holds-bind _ (λ _. Unit) (as_dict pool) _ (λ e _. tt)
        (λ fs _.
          Holds-bind _ (λ _. Unit) (pool_device_info py host_id fs via) _ (λ e _. tt)
            (λ d _. Holds-ok _ (λ _. Unit) _ refl))

  new_disk_problem-IsOf :
      (disk : Key × Fields) → IsOf (disk_problem disk.0) (new_disk_problem py host_id via disk)
  unfolding new_disk_problem IsOf
  new_disk_problem-IsOf (id, disk) = Holds-ok _ (λ _. Unit) _ refl

  -- A scrub button is of its pool, and is always there.
  new_scrub_button-IsUp :
      (up : Bool) (runtime : Runtimes) (pool : Key × Value)
      → Holds
          (IsUp (button_available up runtime) up)
          (λ _. Unit)
          (new_scrub_button py host_id via pool)
  unfolding new_scrub_button button_available IsUp
  new_scrub_button-IsUp up runtime (guid, pool) =
      Holds-bind _ (λ _. Unit) (subscript_of pool "id") _ (λ e _. tt)
        (λ id _.
          Holds-bind _ (λ _. Unit) (as_dict pool) _ (λ e _. tt)
            (λ fs _.
              Holds-bind _ (λ _. Unit) (pool_device_info py host_id fs via) _ (λ e _. tt)
                (λ d _. Holds-ok _ (λ _. Unit) _ refl)))

module _ (py : Runtime) (host_id : String) (via : Option String) (up : Bool)
    (runtime : Runtimes) where
  pub switches-IsUp :
      Every (IsUp (switch_available up runtime) up) (switches py host_id via runtime)
  unfolding switches new_service_switch new_app_switch new_vm_switch Every switch_available
  switches-IsUp =
      Holds-then _ _ _ _
        (add_if-Every _ _ _ (
          add_each-IsUp _ up runtime.services (λ x. service_switch x.0) _
            (λ x. on_hub-IsOf py host_id via _ _ _) (λ x. refl)))
        (λ xs h.
          Holds-then _ _ _ _
            (add_if-Every _ _ _ (
              add_each-IsUp _ up runtime.apps (λ x. app_switch x.0) _
                (λ x. on_app-IsOf py host_id via _ _ x) (λ x. refl)))
            (λ ys k.
              Holds-then _ _ _ _
                (add_if-Every _ _ _ (
                  add_each-IsUp _ up runtime.vms (λ x. vm_switch x.0) _
                    (λ x. on_vm-IsOf py host_id via _ _ x) (λ x. refl)))
                (λ zs l. Holds-ok _ _ _ (All-append _ xs _ h (All-append _ ys zs k l)))))

  pub updates-IsUp : Every (IsUp (update_available up runtime) up) (updates py host_id via runtime)
  unfolding updates new_os_update new_app_update Every update_available
  updates-IsUp =
      Holds-then _ _ _ _ (one-IsUp _ up os_update _ (on_hub-IsOf py host_id via _ _ _) refl)
        (λ os h.
          Holds-then _ _ _ _
            (add_if-Every _ _ _ (
              add_each-IsUp _ up runtime.apps (λ x. app_update x.0) _
                (λ x. on_app-IsOf py host_id via _ _ x) (λ x. refl)))
            (λ ys k. Holds-ok _ _ (os ∷ ys) (h, k)))

  pub buttons-IsUp : Every (IsUp (button_available up runtime) up) (buttons py host_id via runtime)
  unfolding buttons new_system_button new_restart_button new_redeploy_button new_vm_restart_button
      Every button_available
  buttons-IsUp =
      Holds-then _ _ _ _
        (Every-each _ _ (new_scrub_button-IsUp py host_id via up runtime) runtime.pools)
        (λ xs h.
          Holds-then _ _ _ _
            (one-IsUp _ up (system_button "system.reboot") _ (on_hub-IsOf py host_id via _ _ _)
              refl)
            (λ reboot i.
              Holds-then _ _ _ _
                (one-IsUp _ up (system_button "system.shutdown") _
                  (on_hub-IsOf py host_id via _ _ _) refl)
                (λ shutdown j.
                  Holds-then _ _ _ _
                    (add_if-Every _ _ _ (
                      add_each-IsUp _ up runtime.services (λ x. restart_button x.0) _
                        (λ x. on_hub-IsOf py host_id via _ _ _) (λ x. refl)))
                    (λ ys k.
                      Holds-then _ _ _ _
                        (add_if-Every _ _ _ (
                          add_each-IsUp _ up runtime.apps (λ x. redeploy_button x.0) _
                            (λ x. on_app-IsOf py host_id via _ _ x) (λ x. refl)))
                        (λ zs l.
                          Holds-then _ _ _ _
                            (add_if-Every _ _ _ (
                              add_each-IsUp _ up runtime.vms (λ x. vm_restart_button x.0) _
                                (λ x. on_vm-IsOf py host_id via _ _ x) (λ x. refl)))
                            (λ ws m. Holds-ok _ _ _ (
                              All-append _ xs _ h
                                (i, (j, All-append _ ys _ k (All-append _ zs ws l m))))))))))

  pub binary_sensors-IsUp :
      Every (IsUp (binary_sensor_available up runtime) up) (binary_sensors py host_id via runtime)
  unfolding binary_sensors new_service_running new_critical_alert Every binary_sensor_available
  binary_sensors-IsUp =
      Holds-then _ _ _ _
        (add_each-IsUp _ up runtime.pools (λ x. pool_health x.0) _
          (new_pool_health-IsOf py host_id via) (λ x. refl))
        (λ xs h.
          Holds-then _ _ _ _
            (add_if-Every _ _ _ (
              add_each-IsUp _ up runtime.disks (λ x. disk_problem x.0) _
                (new_disk_problem-IsOf py host_id via) (λ x. refl)))
            (λ ys k.
              Holds-then _ _ _ _
                (add_each-IsUp _ up runtime.services (λ x. service_running x.0) _
                  (λ x. on_hub-IsOf py host_id via _ _ _) (λ x. refl))
                (λ zs l.
                  Holds-then _ _ _ _
                    (one-IsUp _ up critical_alert _ (on_hub-IsOf py host_id via _ _ _) refl)
                    (λ alerts m. Holds-ok _ _ _ (
                      All-append _ xs _ h
                        (All-append _ ys _ k (All-append _ zs (alerts ∷ []) l (m, tt))))))))
