-- ===== src/Entity.antt =====
-- entity.py: what entities share, and the devices that they belong to.
use ha_truenas_ng.Base.{String, ◌<>◌, Bool, ◌&&◌, Option, none, some}
use ha_truenas_ng.Base.Dict
use ha_truenas_ng.Base.Dict.{Dict}
use ha_truenas_ng.Result.{Result, ok, ◌>>=◌}
use ha_truenas_ng.Value.{Value, null, str, Fields}
use ha_truenas_ng.Value.Access.{get, get_or, or_value, subscript}
use ha_truenas_ng.Value.Key.{Key, key_eq}
use ha_truenas_ng.Value.Runtime.{Runtime}

abbrev pub domain : String
domain = "truenas_ng"

abbrev pub manufacturer : String
manufacturer = "iXsystems"

-- `DeviceInfo`: the identifier is paired with the domain; the model is a value of the API or a name.
pub record DeviceInfo : Type 0 where
  pub identifier : String × String
  pub name : String
  pub made_by : String
  pub model : Value
  pub sw_version : Value
  pub via_device_id : Option String

-- `super().available and key in table`; Home Assistant's part is `up`.
unfoldable pub available {ℓ} : {V : Type ℓ} → Bool → Key → Dict Key V → Bool
available up key table = up && Dict.has_key key table

module _ (py : Runtime) (host_id : String) where
  pub hub_device_info : Fields → DeviceInfo
  hub_device_info info = record {
    identifier = (domain, host_id);
    name = py.strip ("TrueNAS " <> py.str_of (get_or info "hostname" (str "")));
    made_by = manufacturer;
    model = or_value (get info "system_product") (str "TrueNAS");
    sw_version = get info "version";
    via_device_id = none;
  }

  -- A pool without a guid or a name has no device.
  unfoldable pub pool_device_info : Fields → Option String → Result DeviceInfo
  pool_device_info pool via = do
    guid ← subscript pool "guid"
    name ← subscript pool "name"
    ok (record {
      identifier = (domain, host_id <> ("_pool_" <> py.str_of guid));
      name = "Pool " <> py.str_of name;
      made_by = manufacturer;
      model = str "ZFS Pool";
      sw_version = null;
      via_device_id = via;
    })

  -- The identifier that is given, or the first of serial, identifier and name that the disk has.
  abbrev disk_id : Fields → Option Value → Value
  disk_id disk (some id) = id
  disk_id disk none =
      or_value (or_value (or_value (get disk "serial") (get disk "identifier")) (get disk "name"))
        (str "")

  pub disk_device_info : Fields → Option Value → Option String → DeviceInfo
  disk_device_info disk given via =
      let id = disk_id disk given in
      record {
        identifier = (domain, host_id <> ("_disk_" <> py.str_of id));
        name = "Disk " <> py.str_of (get_or disk "name" id);
        made_by = manufacturer;
        model = get disk "model";
        sw_version = null;
        via_device_id = via;
      }

  pub app_device_info : Fields → Option String → DeviceInfo
  app_device_info app via =
      let name = py.str_of (get_or app "name" (str "")) in
      record {
        identifier = (domain, host_id <> ("_app_" <> name));
        name = "App " <> name;
        made_by = manufacturer;
        model = str "TrueNAS App";
        sw_version = get app "human_version";
        via_device_id = via;
      }

  pub vm_device_info : Fields → Option String → DeviceInfo
  vm_device_info vm via = record {
    identifier = (domain, host_id <> ("_vm_" <> py.str_of (get vm "id")));
    name = "VM " <> py.str_of (get_or vm "name" (str ""));
    made_by = manufacturer;
    model = str "TrueNAS VM";
    sw_version = null;
    via_device_id = via;
  }
