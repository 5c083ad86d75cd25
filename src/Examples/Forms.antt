-- ===== src/Examples/Forms.antt =====
-- Forms and downloads.
use ha_truenas_ng.Base.{
  ◌≡◌, refl, ap, ◌∙◌, false, true, none, some, List, [], ◌∷◌, String, Option, All, arith, string_eq,
}
use ha_truenas_ng.Base.Int.{pos}
use ha_truenas_ng.Base.Dict
use ha_truenas_ng.Base.Dict.{Dict}
use ha_truenas_ng.Result.{ok, fold_result, bind-ok, ok-injective, ◌>>=◌}
use ha_truenas_ng.Result.Latest.{latest}
use ha_truenas_ng.Value.{Value, str, int, bool, null, arr, dict, cons, nil, Fields, field, end}
use ha_truenas_ng.Value.Runtime.{to_int, int_of}
use ha_truenas_ng.ConfigFlow.{interval}
use mathlib.Core.Path.{subst}
use ha_truenas_ng.Value.Access.{find, get_or, value_or, get, or_value, truthy}
use ha_truenas_ng.Value.Key.{Key, text, key_eq, hash_key}
use ha_truenas_ng.Coordinator.Storage.{StorageData}
use ha_truenas_ng.Diagnostics.{
  Snapshot, async_get_config_entry_diagnostics, raw_of, disks_by_name, add_by_name, device_name,
}
use ha_truenas_ng.Diagnostics.Names.{by_device_name, async_get_config_entry_diagnostics-names}
use ha_truenas_ng.Repairs.{issue_of}
use ha_truenas_ng.Repairs.RoundTrip.{
  IsFixed, after_sync, async_step_confirm-async_sync_alert_issues,
}
use ha_truenas_ng.Repairs.Issues.{warning}
use ha_truenas_ng.Setup.{options_of}
use ha_truenas_ng.ConfigFlow.Options.{
  Row, accept, is_key_of, distinct_keys, Accepted, Voluptuous, Validates, submit, schema_of,
  options_entry,
}
use ha_truenas_ng.ConfigFlow.Bounds.{IsTuned, submit-IsTuned}
use ha_truenas_ng.Examples.{python}
use ha_truenas_ng.Examples.Entries.{alert, wanted, wanted_lem, kept, lawful, dismisses}

first_wanted :
    Dict.lookup (text "u1") wanted
    ≡ some (record { uuid = str "u1"; alert = alert; severity = warning })
unfolding Dict.lookup key_eq string_eq
first_wanted = refl

-- Confirming the issue of an alert.
async_step_confirm-async_sync_alert_issues_example :
    IsFixed kept lawful "e1"
      (λ id. some dismisses)
      (str "u1")
      (text "u1")
      (after_sync kept "e1" (arr (cons (dict alert) nil)) ([], tt))
      tt
      tt
      (issue_of "e1" (record { uuid = str "u1"; alert = alert; severity = warning }))
async_step_confirm-async_sync_alert_issues_example =
    async_step_confirm-async_sync_alert_issues kept lawful "e1" (λ id. some dismisses)
      (arr (cons (dict alert) nil)) wanted
      (record { uuid = str "u1"; alert = alert; severity = warning }) (text "u1") (str "u1")
      ([], tt) tt tt dismisses null wanted_lem first_wanted refl refl

-- A validator that goes through the rows of a schema.
abbrev with_row : Row → Option Value → Option Fields → Option Fields
with_row row (some w) (some rest) = some (field row.key w rest)
with_row row _ _ = none

check_rows : Voluptuous
check_rows [] input = ok (some end)
check_rows (row ∷ rows) input = do
  w ← accept python row.validator (value_or row.default (find row.key input))
  rest ← check_rows rows input
  ok (with_row row w rest)

kept_rows :
    (row : Row) (w : Value) (rows : List Row) (input out : Fields)
    → is_key_of row.key rows ≡ false
    → All (Accepted python input out) rows
    → All (Accepted python input (field row.key w out)) rows
unfolding is_key_of find
kept_rows row w [] input out h a = tt
kept_rows row w (r ∷ rows) input out h ((v, p, q), a) =
    ((v, p, ground arith), kept_rows row w rows input out (ground arith) a)

row_kept :
    (row : Row) (w : Option Value) (rest : Option Fields) (out : Fields)
    → with_row row w rest ≡ some out
    → (v : Value) × (fs : Fields) × (w ≡ some v) × (rest ≡ some fs) × (field row.key v fs ≡ out)
row_kept row (some v) (some fs) out h = (v, fs, refl, refl, ground arith)
row_kept row (some v) none out h = cc
row_kept row none none out h = cc
row_kept row none (some fs) out h = cc

found_first : (key : String) (v : Value) (fs : Fields) → find key (field key v fs) ≡ some v
unfolding find
found_first key v fs = ground arith

fresh_row :
    (row : Row) (rows : List Row)
    → distinct_keys (row ∷ rows) ≡ true
    → (is_key_of row.key rows ≡ false) × (distinct_keys rows ≡ true)
unfolding distinct_keys
fresh_row row rows h = ground arith

checks : Validates python check_rows
unfolding check_rows
checks [] input out d h = tt
checks (row ∷ rows) input out d h =
    let (w, p, k) =
      bind-ok (accept python row.validator (value_or row.default (find row.key input))) _ h in
    let (rest, q, l) = bind-ok (check_rows rows input) _ k in
    let (v, fs, a, b, e) = row_kept row w rest out (ok-injective l) in
    let (fresh, distinct) = fresh_row row rows d in
    subst (λ o. All (Accepted python input o) (row ∷ rows)) e
      (
        (v, p ∙ ap ok a, found_first row.key v fs),
        kept_rows row v rows input fs fresh (checks rows input fs distinct (q ∙ ap ok b)),
      )

abbrev entered : Fields
entered = field "interval_storage" (int (pos 10)) end

-- What the form makes of one interval, and of the defaults of the others.
abbrev options : Fields
options = field "interval_storage" (int (pos 10)) (
    field "interval_datasets" (int (pos 300)) (
      field "interval_system" (int (pos 60)) (
        field "interval_reporting" (int (pos 20)) (
          field "interval_update" (int (pos 21600)) (
            field "interval_apps" (int (pos 60)) (
              field "interval_vms" (int (pos 60)) (
                field "enable_datasets" (bool false) (
                  field "enable_disks" (bool true) (
                    field "enable_reporting" (bool true) (
                      field "enable_service_controls" (bool true) (
                        field "enable_apps" (bool true)
                          (field "enable_vms" (bool true) end))))))))))))

submitted : submit check_rows end entered ≡ ok (some (options_entry options))
unfolding submit check_rows accept interval to_int int_of find get_or options_of schema_of string_eq
submitted = refl

submit-IsTuned_example : IsTuned (options_of options)
submit-IsTuned_example = submit-IsTuned python check_rows checks end entered options submitted

-- A download with one disk, whose name comes first.
abbrev sda : Fields
sda = field "serial" (str "S1") (field "name" (str "sda") end)

abbrev snapshot : Snapshot
snapshot = record {
  title = "nas";
  unique_id = some "h1";
  data_of_entry = end;
  storage = some (record { pools = []; disks = (text "S1", sda) ∷ [] });
  system = none;
  reporting = none;
  datasets = none;
}

abbrev shown : StorageData
shown = record { pools = []; disks = (text "sda", sda) ∷ [] }

downloaded :
    async_get_config_entry_diagnostics (λ raw. raw) snapshot
    ≡ ok (record snapshot { storage = some shown })
unfolding async_get_config_entry_diagnostics raw_of disks_by_name add_by_name device_name get find
    or_value truthy hash_key fold_result Dict.insert Dict.values string_eq
downloaded = refl

async_get_config_entry_diagnostics-names_example :
    (disks : Dict Key Fields) × (record snapshot { storage = some shown }
      ≡ record snapshot { storage = some (record { pools = []; disks = disks }) })
    × (Dict.lookup (text "sda") disks ≡ latest by_device_name (text "sda") (sda ∷ []) none)
unfolding Dict.values
async_get_config_entry_diagnostics-names_example =
    async_get_config_entry_diagnostics-names (λ raw. raw) snapshot
      (record { pools = []; disks = (text "S1", sda) ∷ [] })
      (record snapshot { storage = some shown }) (text "sda") refl downloaded
