-- ===== src/Diagnostics.antt =====
-- diagnostics.py: what a diagnostics download holds, with the disks under their device names, so that
-- no serial number stands as a key. The redaction of values is Home Assistant's, a parameter.
pub mod Names
use ha_truenas_ng.Base.{String, Option, none, some, [], if◌then◌else◌}
use ha_truenas_ng.Base.Dict
use ha_truenas_ng.Base.Dict.{Dict}
use ha_truenas_ng.Result.{Result, ok, fold_result, ◌>>=◌}
use ha_truenas_ng.Value.{Value, Fields}
use ha_truenas_ng.Value.Access.{get, truthy, or_value}
use ha_truenas_ng.Value.Key.{Key, key_eq, hash_key}
use ha_truenas_ng.Coordinator.Storage.{StorageData}
use ha_truenas_ng.Coordinator.System.{SystemData}
use ha_truenas_ng.Coordinator.Reporting.{ReportingData}

unfoldable pub device_name : Fields → Value
device_name disk = or_value (get disk "name") (get disk "devname")

unfoldable pub add_by_name : Dict Key Fields → Fields → Result (Dict Key Fields)
add_by_name result disk =
    let added : Result (Dict Key Fields) = (do
      key ← hash_key (device_name disk)
      ok (Dict.insert key disk result)) in
    if truthy (device_name disk) then added else ok result

unfoldable pub disks_by_name : Dict Key Fields → Result (Dict Key Fields)
unfolding add_by_name
disks_by_name disks = fold_result add_by_name [] (Dict.values disks)

-- The entry, and the data of the coordinators that a download reads: `none` before the first refresh.
pub record Snapshot : Type 0 where
  pub title : String
  pub unique_id : Option String
  pub data_of_entry : Fields
  pub storage : Option StorageData
  pub system : Option SystemData
  pub reporting : Option ReportingData
  pub datasets : Option (Dict Key Value)

-- `storage_dict`: the storage with its disks under other keys.
unfoldable pub storage_dict : Option StorageData → Result (Option StorageData)
storage_dict none = ok none
storage_dict (some storage) = do
  disks ← disks_by_name storage.disks
  ok (some (record storage { disks = disks }))

-- `raw`
unfoldable pub raw_of : Snapshot → Result Snapshot
unfolding storage_dict
raw_of runtime = do
  storage ← storage_dict runtime.storage
  ok (record runtime { storage = storage })

module _ {Download : Type 0} (redact : Snapshot → Download) where
  unfoldable pub async_get_config_entry_diagnostics : Snapshot → Result Download
  async_get_config_entry_diagnostics runtime = do raw ← raw_of runtime; ok (redact raw)
