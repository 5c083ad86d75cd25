-- ===== src/Control.antt =====
-- The entities that act on the system: switch.py, button.py and the installers of update.py.
-- `call` is the client's `call` with its `job` flag; `refresh` is the coordinator's
-- `async_request_refresh`, which Home Assistant provides.
pub mod Outcomes
use ha_truenas_ng.Base.{
  String, ◌<>◌, Bool, true, false, Option, none, some, List, [], ◌∷◌, ◌++◌, if◌then◌else◌,
}
use ha_truenas_ng.Base.Dict
use ha_truenas_ng.Base.Dict.{Dict}
use ha_truenas_ng.Result.{
  Exc, Result, ok, connection_error, home_assistant_error, is_truenas_error, message, ◌>>=◌ as ◌▷◌,
}
use ha_truenas_ng.Action.{Action, pure, raise, catch, ◌>>=◌, ◌>>◌}
use ha_truenas_ng.Value.{Value, str, null, Fields}
use ha_truenas_ng.Value.Access.{get, truthy, or_value, as_dict, is_str, dict_or_empty, subscript}
use ha_truenas_ng.Value.Key.{Key, key_eq}
use ha_truenas_ng.Value.Runtime.{Runtime}
use ha_truenas_ng.BinarySensor.{when_present}
use ha_truenas_ng.Coordinator.Versions.{UpdateData}
use mathlib.Core.List.{map}

abbrev pub reboot_reason : String
reboot_reason = "Initiated from Home Assistant"

-- `except TrueNASError as err: raise HomeAssistantError(f"{what}: {err}")`
abbrev pub report {ℓ} : {S A : Type ℓ} → String → Exc → Action S A
report what e =
    if is_truenas_error e
    then raise (home_assistant_error (what <> (": " <> message e)))
    else raise e

module _ {S : Type 0} (py : Runtime) (call : String → List Value → Bool → Action S Value)
    (refresh : Action S (Unit {0})) where
  -- A request whose failure is reported, and a refresh after its success.
  unfoldable pub control : String → String → List Value → Bool → Action S (Unit {0})
  unfolding message
  control what method params job = do catch (call method params job) (report what); refresh

  -- switch.py. A service is named by a text, an app by a text, a VM by its number.
  unfoldable pub service_control : String → Value → Action S (Unit {0})
  service_control verb service =
      control ("Failed to " <> (py.lower verb <> (" TrueNAS service " <> py.str_of service)))
        "service.control" (str verb ∷ service ∷ []) true

  unfoldable pub service_turn_on : Value → Action S (Unit {0})
  service_turn_on service = service_control "START" service

  unfoldable pub service_turn_off : Value → Action S (Unit {0})
  service_turn_off service = service_control "STOP" service

  unfoldable pub app_control : String → Value → Action S (Unit {0})
  app_control method app =
      control ("Failed to " <> (method <> (" TrueNAS app " <> py.str_of app))) method (app ∷ [])
        true

  unfoldable pub app_turn_on : Value → Action S (Unit {0})
  app_turn_on app = app_control "app.start" app

  unfoldable pub app_turn_off : Value → Action S (Unit {0})
  app_turn_off app = app_control "app.stop" app

  unfoldable pub vm_call : String → Bool → Value → Action S (Unit {0})
  vm_call method job vm =
      control ("Failed to " <> (method <> (" TrueNAS VM " <> py.str_of vm))) method (vm ∷ []) job

  unfoldable pub vm_turn_on : Value → Action S (Unit {0})
  vm_turn_on vm = vm_call "vm.start" false vm

  unfoldable pub vm_turn_off : Value → Action S (Unit {0})
  vm_turn_off vm = vm_call "vm.stop" true vm

  -- button.py. Neither a scrub nor a system button reports a failure or refreshes.
  unfoldable pub scrub_press : Value → Action S (Unit {0})
  scrub_press pool_id = do call "pool.scrub" (pool_id ∷ str "START" ∷ []) true; pure tt

  unfoldable pub system_press : String → Action S (Unit {0})
  system_press method = do call method (str reboot_reason ∷ []) true; pure tt

  unfoldable pub service_restart_press : Value → Action S (Unit {0})
  service_restart_press service =
      control ("Failed to restart TrueNAS service " <> py.str_of service) "service.control"
        (str "RESTART" ∷ service ∷ []) true

  unfoldable pub app_redeploy_press : Value → Action S (Unit {0})
  app_redeploy_press app =
      control ("Failed to redeploy TrueNAS app " <> py.str_of app) "app.redeploy" (app ∷ []) true

  unfoldable pub vm_restart_press : Value → Action S (Unit {0})
  vm_restart_press vm =
      control ("Failed to restart TrueNAS VM " <> py.str_of vm) "vm.restart" (vm ∷ []) true

  -- update.py. A lost connection counts as the update being underway.
  abbrev pub underway : Exc → Action S (Unit {0})
  underway (connection_error m) = pure tt
  underway e = report "TrueNAS update failed" e

  unfoldable pub os_install : Action S (Unit {0})
  unfolding message
  os_install = catch (do call "update.run" [] true; pure tt) underway

  unfoldable pub app_install : Value → Action S (Unit {0})
  app_install app =
      control ("Failed to upgrade TrueNAS app " <> py.str_of app) "app.upgrade" (app ∷ []) true

-- The states that the switches show.
unfoldable service_switch_is_on : Dict Key Value → Key → Result (Option Bool)
service_switch_is_on services name =
    when_present (λ v. as_dict v ▷ λ service. ok (is_str (get service "state") "RUNNING"))
      (Dict.lookup name services)

unfoldable pub app_is_on : Dict Key Value → Key → Result (Option Bool)
app_is_on apps name =
    when_present (λ v. as_dict v ▷ λ app. ok (is_str (get app "state") "RUNNING"))
      (Dict.lookup name apps)

unfoldable pub vm_is_on : Dict Key Value → Key → Result (Option Bool)
vm_is_on vms id =
    when_present
      (λ v. as_dict v ▷ λ vm.
        dict_or_empty vm "status" ▷ λ status. ok (is_str (get status "state") "RUNNING"))
      (Dict.lookup id vms)

-- The versions that the updates show.
unfoldable os_installed_version : UpdateData → Value
os_installed_version update = update.installed_version

unfoldable os_latest_version : UpdateData → Value
os_latest_version update = update.latest_version

-- `self.coordinator.data.get(self._app) or {}`
abbrev pub app_or_empty : Option Value → Result Fields
app_or_empty none = ok Fields.end
app_or_empty (some v) = if truthy v then as_dict v else ok Fields.end

unfoldable pub app_installed_version : Dict Key Value → Key → Result Value
app_installed_version apps name =
    app_or_empty (Dict.lookup name apps) ▷ λ app. ok (get app "version")

abbrev pub newest : Fields → Value
newest app =
    if truthy (get app "upgrade_available")
    then or_value (get app "latest_version") (get app "version")
    else get app "version"

unfoldable pub app_latest_version : Dict Key Value → Key → Result Value
app_latest_version apps name = app_or_empty (Dict.lookup name apps) ▷ λ app. ok (newest app)
