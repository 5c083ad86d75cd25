-- ===== src/Platforms/Switches.antt =====
-- The platform of switch.py.
use ha_truenas_ng.Base.{Bool, String, ◌<>◌, Option, List, ◌++◌}
use ha_truenas_ng.Result.{Result, ok, ◌>>=◌}
use ha_truenas_ng.Value.{Value}
use ha_truenas_ng.Value.Key.{Key}
use ha_truenas_ng.Value.Runtime.{Runtime}
use ha_truenas_ng.Entity.{available}
use ha_truenas_ng.Platforms.{Added, Runtimes, add_each, add_if, on_hub, on_app, on_vm}

pub data Switch : Type 0 where
  service_switch app_switch vm_switch : Key → Switch

-- The `available` of each class; `up` is Home Assistant's own part.
unfoldable pub switch_available : Bool → Runtimes → Switch → Bool
switch_available up runtime (service_switch name) = available up name runtime.services
switch_available up runtime (app_switch name) = available up name runtime.apps
switch_available up runtime (vm_switch vm_id) = available up vm_id runtime.vms

module _ (py : Runtime) (host_id : String) (via : Option String) where
  -- `TrueNASServiceSwitch(...)`, `TrueNASAppSwitch(...)`, `TrueNASVMSwitch(...)`
  unfoldable pub new_service_switch : Value → Key × Value → Result (Added Switch)
  unfolding on_hub
  new_service_switch info (name, _) =
      on_hub py host_id via info (service_switch name)
        ("_service_" <> (py.str_of_key name <> "_switch"))

  unfoldable pub new_app_switch : Key × Value → Result (Added Switch)
  unfolding on_app
  new_app_switch (name, app) = on_app py host_id via (app_switch name) "_switch" (name, app)

  unfoldable pub new_vm_switch : Key × Value → Result (Added Switch)
  unfolding on_vm
  new_vm_switch (vm_id, vm) = on_vm py host_id via (vm_switch vm_id) "_switch" (vm_id, vm)

  unfoldable pub switches : Runtimes → Result (List (Added Switch))
  switches runtime = do
    of_services ←
        add_if runtime.enable_service_controls
          (add_each (new_service_switch runtime.info) runtime.services)
    of_apps ← add_if runtime.enable_apps (add_each new_app_switch runtime.apps)
    of_vms ← add_if runtime.enable_vms (add_each new_vm_switch runtime.vms)
    ok (of_services ++ (of_apps ++ of_vms))
