-- ===== src/Sensor/Tables.antt =====
-- sensor.py: the tables of sensor descriptions, and the entities that they give rise to.
use ha_truenas_ng.Base.{ℕ, String, Bool, true, false, Option, none, some, List, [], ◌∷◌}
use ha_truenas_ng.Result.{Result, ok, ◌>>=◌}
use ha_truenas_ng.Value.{Value, Fields}
use ha_truenas_ng.Value.Access.{get, dict_or_empty}
use ha_truenas_ng.Value.Runtime.{Runtime}
use ha_truenas_ng.Coordinator.Reporting.{ReportingData}
use ha_truenas_ng.Sensor.{
  shown_int, shown_float, parsed, uptime, int_sensor, loadavg, pool_used_pct, scrub_finished,
  dataset_used_pct, dataset_compressratio,
}

pub data DeviceClass : Type 0 where
  data_size temperature timestamp : DeviceClass

pub data Measure : Type 0 where
  bytes gibibytes tebibytes megabytes percentage celsius : Measure

-- A description: what it reads, and how Home Assistant shows it.
pub record Description (A : Type 0) : Type 0 where
  pub key : String
  pub translation_key : String
  pub device_class : Option DeviceClass
  pub native_unit : Option Measure
  pub suggested_unit : Option Measure
  pub display_precision : Option ℕ
  pub measurement : Bool
  pub diagnostic : Bool
  pub enabled_default : Bool
  pub value_fn : A → Result Value

-- The defaults of a description.
unfoldable pub described : {A : Type 0} → String → String → (A → Result Value) → Description A
described key translation_key value_fn = record {
  key = key;
  translation_key = translation_key;
  device_class = none;
  native_unit = none;
  suggested_unit = none;
  display_precision = none;
  measurement = false;
  diagnostic = false;
  enabled_default = true;
  value_fn = value_fn;
}

module _ (py : Runtime) where
  -- `SYSTEM_SENSORS`
  unfoldable pub system_sensors : List (Description Fields)
  system_sensors =
      record (described "version" "version" (λ x. ok (get x "version"))) { diagnostic = true }
      ∷ record (described "hostname" "hostname" (λ x. ok (get x "hostname"))) { diagnostic = true }
      ∷ record (described "model" "model" (λ x. ok (get x "model"))) { diagnostic = true }
      ∷ record (described "cores" "cores" (λ x. int_sensor py (get x "cores"))) {
        measurement = true;
        diagnostic = true;
      }
      ∷ record (described "memory_total" "memory_total" (λ x. int_sensor py (get x "physmem"))) {
        device_class = some data_size;
        native_unit = some bytes;
        suggested_unit = some gibibytes;
        display_precision = some 1;
        diagnostic = true;
      }
      ∷ record (described "uptime" "uptime" (λ x. uptime py x)) { device_class = some timestamp }
      ∷ record (described "load_1m" "load_1m" (λ x. ok (loadavg x 0))) {
        display_precision = some 2;
        measurement = true;
      }
      ∷ record (described "load_5m" "load_5m" (λ x. ok (loadavg x 1))) {
        display_precision = some 2;
        measurement = true;
      }
      ∷ record (described "load_15m" "load_15m" (λ x. ok (loadavg x 2))) {
        display_precision = some 2;
        measurement = true;
      }
      ∷ record (described "ecc_memory" "ecc_memory" (λ x. ok (get x "ecc_memory"))) {
        diagnostic = true;
      }
      ∷ []

  -- `REPORTING_SENSORS`
  unfoldable pub reporting_sensors : List (Description ReportingData)
  reporting_sensors =
      record (described "cpu_percent" "cpu_percent" (λ x. ok x.cpu_percent)) {
        native_unit = some percentage;
        display_precision = some 1;
        measurement = true;
      }
      ∷ record (described "cpu_temp" "cpu_temp" (λ x. ok x.cpu_temp)) {
        device_class = some temperature;
        native_unit = some celsius;
        display_precision = some 1;
        measurement = true;
      }
      ∷ record (described "memory_used" "memory_used" (λ x. ok (shown_int x.memory_used))) {
        device_class = some data_size;
        native_unit = some bytes;
        suggested_unit = some gibibytes;
        display_precision = some 1;
        measurement = true;
      }
      ∷ record (described "memory_free" "memory_free" (λ x. ok (shown_int x.memory_free))) {
        device_class = some data_size;
        native_unit = some bytes;
        suggested_unit = some gibibytes;
        display_precision = some 1;
        measurement = true;
      }
      ∷ record (described "memory_used_pct" "memory_used_pct"
          (λ x. ok (shown_float x.memory_used_percent))) {
            native_unit = some percentage;
            display_precision = some 1;
            measurement = true;
          }
      ∷ []

  -- `POOL_SENSORS`
  unfoldable pub pool_sensors : List (Description Fields)
  pool_sensors =
      (described "status" "pool_status" (λ x. ok (get x "status")))
      ∷ record (described "used" "pool_used" (λ x. int_sensor py (get x "allocated"))) {
        device_class = some data_size;
        native_unit = some bytes;
        suggested_unit = some tebibytes;
        display_precision = some 2;
        measurement = true;
      }
      ∷ record (described "free" "pool_free" (λ x. int_sensor py (get x "free"))) {
        device_class = some data_size;
        native_unit = some bytes;
        suggested_unit = some tebibytes;
        display_precision = some 2;
        measurement = true;
      }
      ∷ record (described "total" "pool_total" (λ x. int_sensor py (get x "size"))) {
        device_class = some data_size;
        native_unit = some bytes;
        suggested_unit = some tebibytes;
        display_precision = some 2;
      }
      ∷ record (described "used_pct" "pool_used_pct" (λ x. pool_used_pct py x)) {
        native_unit = some percentage;
        display_precision = some 1;
        measurement = true;
      }
      ∷ record (described "fragmentation" "pool_fragmentation"
          (λ x. int_sensor py (get x "fragmentation"))) {
            native_unit = some percentage;
            measurement = true;
          }
      ∷ (described "scrub_state" "pool_scrub_state"
          (λ x. (dict_or_empty x "scan" >>= λ scan. ok (get scan "state"))))
      ∷ record (described "scrub_finished" "pool_scrub_finished" (λ x. scrub_finished py x)) {
        device_class = some timestamp;
      }
      ∷ record (described "scrub_errors" "pool_scrub_errors"
          (λ x. (dict_or_empty x "scan" >>= λ scan. int_sensor py (get scan "errors")))) {
            measurement = true;
          }
      ∷ []

  -- `DISK_SENSORS`
  unfoldable pub disk_sensors : List (Description Fields)
  disk_sensors =
      record (described "temp" "disk_temp" (λ x. ok (get x "temperature"))) {
        device_class = some temperature;
        native_unit = some celsius;
        measurement = true;
      }
      ∷ record (described "read_errors" "disk_read_errors"
          (λ x. (dict_or_empty x "errors" >>= λ errors. ok (get errors "read")))) {
            measurement = true;
          }
      ∷ record (described "write_errors" "disk_write_errors"
          (λ x. (dict_or_empty x "errors" >>= λ errors. ok (get errors "write")))) {
            measurement = true;
          }
      ∷ record (described "checksum_errors" "disk_checksum_errors"
          (λ x. (dict_or_empty x "errors" >>= λ errors. ok (get errors "checksum")))) {
            measurement = true;
          }
      ∷ []

  -- `DATASET_SENSORS`
  unfoldable pub dataset_sensors : List (Description Fields)
  dataset_sensors =
      record (described "used" "dataset_used" (λ x. int_sensor py (parsed (get x "used")))) {
        device_class = some data_size;
        native_unit = some bytes;
        suggested_unit = some gibibytes;
        display_precision = some 1;
        measurement = true;
        enabled_default = false;
      }
      ∷ record (described "available" "dataset_available"
          (λ x. int_sensor py (parsed (get x "available")))) {
            device_class = some data_size;
            native_unit = some bytes;
            suggested_unit = some gibibytes;
            display_precision = some 1;
            measurement = true;
            enabled_default = false;
          }
      ∷ record (described "quota" "dataset_quota" (λ x. int_sensor py (parsed (get x "quota")))) {
        device_class = some data_size;
        native_unit = some bytes;
        suggested_unit = some gibibytes;
        display_precision = some 1;
        enabled_default = false;
      }
      ∷ record (described "used_pct" "dataset_used_pct" (λ x. dataset_used_pct py x)) {
        native_unit = some percentage;
        display_precision = some 1;
        measurement = true;
        enabled_default = false;
      }
      ∷ record (described "compressratio" "dataset_compressratio"
          (λ x. dataset_compressratio py x)) {
            display_precision = some 2;
            measurement = true;
            enabled_default = false;
          }
      ∷ record (described "snapshots" "dataset_snapshots"
          (λ x. int_sensor py (get x "snapshot_count"))) {
            measurement = true;
            enabled_default = false;
          }
      ∷ []

  -- `APP_SENSORS`
  unfoldable pub app_sensors : List (Description Fields)
  app_sensors =
      record (described "state" "app_state" (λ x. ok (get x "state"))) {
        diagnostic = true;
        enabled_default = false;
      }
      ∷ record (described "version" "app_version" (λ x. ok (get x "human_version"))) {
        diagnostic = true;
        enabled_default = false;
      }
      ∷ []

  -- `VM_SENSORS`
  unfoldable pub vm_sensors : List (Description Fields)
  vm_sensors =
      record (described "state" "vm_state"
        (λ x. (dict_or_empty x "status" >>= λ status. ok (get status "state")))) {
          diagnostic = true;
          enabled_default = false;
        }
      ∷ record (described "memory" "vm_memory" (λ x. int_sensor py (get x "memory"))) {
        device_class = some data_size;
        native_unit = some megabytes;
        suggested_unit = some gibibytes;
        display_precision = some 1;
        diagnostic = true;
        enabled_default = false;
      }
      ∷ record (described "vcpus" "vm_vcpus" (λ x. int_sensor py (get x "vcpus"))) {
        measurement = true;
        diagnostic = true;
        enabled_default = false;
      }
      ∷ []
