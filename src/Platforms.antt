-- ===== src/Platforms.antt =====
-- The `async_setup_entry` of each platform, with the constructors of its entities: what it adds, in
-- order, or the exception that a constructor raises. Here is what the platforms share.
pub mod Switches
pub mod Buttons
pub mod Updates
pub mod BinarySensors
pub mod Sensors
pub mod Prefixes
pub mod Ids
pub mod Available
pub mod Grids
pub mod Soundness
pub mod Total
pub mod Forwarded
pub mod Answers
use ha_truenas_ng.Base.{String, ◌<>◌, Bool, Option, none, some, List, [], ◌∷◌, ◌++◌, if◌then◌else◌}
use ha_truenas_ng.Base.Dict.{Dict}
use ha_truenas_ng.Result.{Result, ok, ◌>>=◌}
use ha_truenas_ng.Value.{Value, Fields}
use ha_truenas_ng.Value.Access.{as_dict}
use ha_truenas_ng.Value.Key.{Key}
use ha_truenas_ng.Value.Runtime.{Runtime}
use ha_truenas_ng.Entity.{DeviceInfo, hub_device_info, app_device_info, vm_device_info}

-- An entity that was made: what it is, its unique id and its device.
pub record Added (A : Type 0) : Type 0 where
  pub entity : A
  pub unique_id : String
  pub device_info : DeviceInfo

-- `for x in xs: entities.append(...)`
unfoldable pub add_each {ℓ} : {A : Type ℓ} {B : Type 0} → (A → Result B) → List A → Result (List B)
add_each make [] = ok []
add_each make (x ∷ xs) = do y ← make x; ys ← add_each make xs; ok (y ∷ ys)

-- Entities behind a toggle.
unfoldable pub add_if : {B : Type 0} → Bool → Result (List B) → Result (List B)
add_if enabled added = if enabled then added else ok []

-- The data of the coordinators, and the toggles, that the platforms read.
pub record Runtimes : Type 0 where
  pub info : Value
  pub pools : Dict Key Value
  pub disks : Dict Key Fields
  pub services : Dict Key Value
  pub datasets : Dict Key Value
  pub apps : Dict Key Value
  pub vms : Dict Key Value
  pub enable_datasets : Bool
  pub enable_disks : Bool
  pub enable_reporting : Bool
  pub enable_service_controls : Bool
  pub enable_apps : Bool
  pub enable_vms : Bool

module _ (py : Runtime) (host_id : String) (via : Option String) where
  -- An entity of the hub's device, of an app's or of a VM's.
  unfoldable pub on_hub : {A : Type 0} → Value → A → String → Result (Added A)
  on_hub info entity id = do
    fs ← as_dict info
    ok (record {
      entity = entity;
      unique_id = host_id <> id;
      device_info = hub_device_info py host_id fs;
    })

  unfoldable pub on_app : {A : Type 0} → A → String → Key × Value → Result (Added A)
  on_app entity suffix (name, app) = do
    fs ← as_dict app
    ok (record {
      entity = entity;
      unique_id = host_id <> ("_app_" <> (py.str_of_key name <> suffix));
      device_info = app_device_info py host_id fs via;
    })

  unfoldable pub on_vm : {A : Type 0} → A → String → Key × Value → Result (Added A)
  on_vm entity suffix (vm_id, vm) = do
    fs ← as_dict vm
    ok (record {
      entity = entity;
      unique_id = host_id <> ("_vm_" <> (py.str_of_key vm_id <> suffix));
      device_info = vm_device_info py host_id fs via;
    })
