-- ===== src/Examples/Platforms.antt =====
-- A system with a pool, two services, an app and a virtual machine, and what the platforms add for it.
use ha_truenas_ng.Base.{String, true, false, none, [], ◌∷◌, refl, ◌≡◌}
use ha_truenas_ng.Base.Int.{pos}
use ha_truenas_ng.Value.{str, int, dict, field, end}
use ha_truenas_ng.Value.Access.{as_dict}
use ha_truenas_ng.Result.{ok, ◌>>=◌}
use ha_truenas_ng.Value.Key.{Key, text}
use ha_truenas_ng.Value.Runtime.{Runtime}
use ha_truenas_ng.Platforms.{Runtimes, on_hub, on_app, on_vm, add_each, add_if}
use ha_truenas_ng.Platforms.BinarySensors.{binary_sensor_available, binary_sensors}
use ha_truenas_ng.Platforms.Buttons.{button_available, buttons}
use ha_truenas_ng.Platforms.Sensors.{sensor_available, sensors}
use ha_truenas_ng.Platforms.Switches.{
  switch_available, switches, new_service_switch, new_app_switch, new_vm_switch,
}
use ha_truenas_ng.Platforms.Updates.{update_available, updates}
use ha_truenas_ng.Platforms.Ids.{IsNamed, names, unique_ids}
use ha_truenas_ng.Platforms.Soundness.{IsSound, platforms-IsSound}
use ha_truenas_ng.Examples.{python}
use package.text.Mathlib.TextEquality.{eq_iff}
use mathlib.Core.Path.{Path}
use mathlib.Core.List.{Mem}
use mathlib.Core.List.Memᴰ
use mathlib.Core.Logic.{∥∥₁_elim}
use mathlib.Core.HLevel.{⊥_prop}
use mathlib.Mathlib.Data.List.Nodup as Distinct

abbrev text_of : Key → String
text_of (text s) = s
text_of _ = "1"

-- The runtime of the examples, with keys printed as they are.
abbrev printing : Runtime
printing = record {
  int_of_str = python.int_of_str;
  float_of_str = python.float_of_str;
  float_of_int = python.float_of_int;
  div_int = python.div_int;
  mul_float = python.mul_float;
  round = python.round;
  mean = python.mean;
  from_timestamp = python.from_timestamp;
  str_of = python.str_of;
  str_of_key = text_of;
  strip = python.strip;
  lower = python.lower;
}

abbrev small : Runtimes
small = record {
  info = dict end;
  pools =
      (
        text "7",
        dict (field "id" (int (pos 1)) (field "guid" (str "7") (field "name" (str "tank") end))),
      )
      ∷ [];
  disks = (text "WD-1", end) ∷ [];
  services = (text "cifs", dict end) ∷ (text "nfs", dict end) ∷ [];
  datasets = (text "tank/home", dict (field "pool" (str "tank") end)) ∷ [];
  apps = (text "plex", dict end) ∷ [];
  vms = (text "3", dict end) ∷ [];
  enable_datasets = true;
  enable_disks = true;
  enable_reporting = true;
  enable_service_controls = true;
  enable_apps = true;
  enable_vms = true;
}

cifs_alone : ¬ Mem {A = String} "cifs" ("nfs" ∷ [])
cifs_alone m = ∥∥₁_elim m ⊥_prop (λ d. differ (Memᴰ.eq_of_singleton d))
  where
    differ : Path String "cifs" "nfs" → ⊥
    differ e = let h : false ≡ true = (eq_iff "cifs" "nfs").1 e in cc

-- What the switches of this system are called.
switch_ids :
    (do xs ← switches printing "nas" none small; ok (unique_ids xs))
    ≡ ok (
        "nas_service_cifs_switch" ∷ "nas_service_nfs_switch" ∷ "nas_app_plex_switch"
        ∷ "nas_vm_3_switch" ∷ [])
unfolding switches new_service_switch new_app_switch new_vm_switch on_hub on_app on_vm add_each
    add_if as_dict unique_ids
switch_ids = refl

small_names : IsNamed printing small
unfolding names
small_names = record {
  pools = Distinct.Nodup-singleton "7";
  disks = Distinct.Nodup-singleton "WD-1";
  services = Distinct.cons cifs_alone (Distinct.Nodup-singleton "nfs");
  datasets = Distinct.Nodup-singleton "tank/home";
  apps = Distinct.Nodup-singleton "plex";
  vms = Distinct.Nodup-singleton "3";
}

platforms-IsSound_example :
    IsSound (sensor_available true small) true (sensors printing "nas" none small)
    × IsSound (binary_sensor_available true small) true (binary_sensors printing "nas" none small)
    × IsSound (switch_available true small) true (switches printing "nas" none small)
    × IsSound (button_available true small) true (buttons printing "nas" none small)
    × IsSound (update_available true small) true (updates printing "nas" none small)
platforms-IsSound_example = platforms-IsSound printing "nas" none small small_names true
