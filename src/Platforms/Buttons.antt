-- ===== src/Platforms/Buttons.antt =====
-- The platform of button.py.
use ha_truenas_ng.Base.{Bool, String, ◌<>◌, Option, List, ◌∷◌, ◌++◌}
use ha_truenas_ng.Result.{Result, ok, ◌>>=◌}
use ha_truenas_ng.Value.{Value}
use ha_truenas_ng.Value.Access.{as_dict, subscript_of}
use ha_truenas_ng.Value.Key.{Key}
use ha_truenas_ng.Value.Runtime.{Runtime}
use ha_truenas_ng.Entity.{available, pool_device_info}
use ha_truenas_ng.Platforms.{Added, Runtimes, add_each, add_if, on_hub, on_app, on_vm}

-- The scrub button keeps the pool's `id`, and a system button its method.
pub data Button : Type 0 where
  scrub_button : Key → Value → Button
  system_button : String → Button
  restart_button redeploy_button vm_restart_button : Key → Button

-- The `available` of each class; `up` is Home Assistant's own part.
unfoldable pub button_available : Bool → Runtimes → Button → Bool
button_available up runtime (restart_button name) = available up name runtime.services
button_available up runtime (redeploy_button name) = available up name runtime.apps
button_available up runtime (vm_restart_button vm_id) = available up vm_id runtime.vms
button_available up runtime _ = up

module _ (py : Runtime) (host_id : String) (via : Option String) where
  -- `TrueNASScrubButton(...)`: a pool without an id, a guid or a name has none.
  unfoldable pub new_scrub_button : Key × Value → Result (Added Button)
  new_scrub_button (guid, pool) = do
    pool_id ← subscript_of pool "id"
    fs ← as_dict pool
    device ← pool_device_info py host_id fs via
    ok (record {
      entity = scrub_button guid pool_id;
      unique_id = host_id <> ("_pool_" <> (py.str_of_key guid <> "_scrub"));
      device_info = device;
    })

  -- `TrueNASSystemButton(...)`
  unfoldable pub new_system_button : Value → String → String → Result (Added Button)
  unfolding on_hub
  new_system_button info key method =
      on_hub py host_id via info (system_button method) ("_system_" <> key)

  -- `TrueNASServiceRestartButton(...)`
  unfoldable pub new_restart_button : Value → Key × Value → Result (Added Button)
  unfolding on_hub
  new_restart_button info (name, _) =
      on_hub py host_id via info (restart_button name)
        ("_service_" <> (py.str_of_key name <> "_restart"))

  -- `TrueNASAppRedeployButton(...)`
  unfoldable pub new_redeploy_button : Key × Value → Result (Added Button)
  unfolding on_app
  new_redeploy_button (name, app) =
      on_app py host_id via (redeploy_button name) "_redeploy" (name, app)

  -- `TrueNASVMRestartButton(...)`
  unfoldable pub new_vm_restart_button : Key × Value → Result (Added Button)
  unfolding on_vm
  new_vm_restart_button (vm_id, vm) =
      on_vm py host_id via (vm_restart_button vm_id) "_restart" (vm_id, vm)

  unfoldable pub buttons : Runtimes → Result (List (Added Button))
  buttons runtime = do
    scrubs ← add_each new_scrub_button runtime.pools
    reboot ← new_system_button runtime.info "reboot" "system.reboot"
    shutdown ← new_system_button runtime.info "shutdown" "system.shutdown"
    of_services ←
        add_if runtime.enable_service_controls
          (add_each (new_restart_button runtime.info) runtime.services)
    of_apps ← add_if runtime.enable_apps (add_each new_redeploy_button runtime.apps)
    of_vms ← add_if runtime.enable_vms (add_each new_vm_restart_button runtime.vms)
    ok (scrubs ++ (reboot ∷ shutdown ∷ (of_services ++ (of_apps ++ of_vms))))
