-- ===== src/ConfigFlow/Options.antt =====
-- config_flow.py, TrueNASOptionsFlow: the form of the poll intervals and the toggles.
-- Voluptuous, which validates what the user entered against the form's schema before the step is
-- called with it, is a parameter.
use ha_truenas_ng.Base.{
  ◌≡◌, String, Bool, true, false, not, ◌&&◌, ◌||◌, ◌==◌, string_eq, Option, none, some, List, [],
  ◌∷◌, All,
}
use ha_truenas_ng.Base.Int.{ℤ}
use ha_truenas_ng.Result.{Result, ok, ◌>>=◌}
use ha_truenas_ng.Value.{Value, int, bool, Fields}
use ha_truenas_ng.Value.Access.{find, value_or}
use ha_truenas_ng.Value.Runtime.{Runtime}
use ha_truenas_ng.Setup.{Options, options_of}
use ha_truenas_ng.ConfigFlow.{interval}

-- What a field of the form accepts: `_interval`, or the type `bool`.
pub data Validator : Type 0 where
  interval_field bool_field : Validator

pub record Row : Type 0 where
  pub key : String
  pub default : Value
  pub validator : Validator

-- The schema, whose defaults are the options in force.
unfoldable pub schema_of : Options → List Row
schema_of o =
    record { key = "interval_storage"; default = o.interval_storage; validator = interval_field }
    ∷ record {
      key = "interval_datasets";
      default = o.interval_datasets;
      validator = interval_field;
    }
    ∷ record { key = "interval_system"; default = o.interval_system; validator = interval_field }
    ∷ record {
      key = "interval_reporting";
      default = o.interval_reporting;
      validator = interval_field;
    }
    ∷ record { key = "interval_update"; default = o.interval_update; validator = interval_field }
    ∷ record { key = "interval_apps"; default = o.interval_apps; validator = interval_field }
    ∷ record { key = "interval_vms"; default = o.interval_vms; validator = interval_field }
    ∷ record { key = "enable_datasets"; default = o.enable_datasets; validator = bool_field }
    ∷ record { key = "enable_disks"; default = o.enable_disks; validator = bool_field }
    ∷ record { key = "enable_reporting"; default = o.enable_reporting; validator = bool_field }
    ∷ record {
      key = "enable_service_controls";
      default = o.enable_service_controls;
      validator = bool_field;
    }
    ∷ record { key = "enable_apps"; default = o.enable_apps; validator = bool_field }
    ∷ record { key = "enable_vms"; default = o.enable_vms; validator = bool_field }
    ∷ []

-- A form, or the options that are saved.
pub data OptionsResult : Type 0 where
  options_form : List Row → OptionsResult
  options_entry : Fields → OptionsResult

-- `async_step_init`, which Home Assistant calls with validated input, or with none.
unfoldable pub async_step_init : Fields → Option Fields → OptionsResult
unfolding schema_of
async_step_init opts none = options_form (schema_of (options_of opts))
async_step_init opts (some user_input) = options_entry user_input

abbrev pub saved : Fields → Option Fields → Option OptionsResult
saved opts none = none
saved opts (some user_input) = some (async_step_init opts (some user_input))

-- No two rows have one key.
unfoldable pub is_key_of : String → List Row → Bool
is_key_of key [] = false
is_key_of key (row ∷ rows) = key == row.key || is_key_of key rows

unfoldable pub distinct_keys : List Row → Bool
unfolding is_key_of
distinct_keys [] = true
distinct_keys (row ∷ rows) = not (is_key_of row.key rows) && distinct_keys rows

abbrev pub Voluptuous : Type 0
Voluptuous = List Row → Fields → Result (Option Fields)

-- The user submits the form. `none` shows it again.
unfoldable pub submit : Voluptuous → Fields → Fields → Result (Option OptionsResult)
unfolding async_step_init
submit validate opts input = do
  user_input ← validate (schema_of (options_of opts)) input
  ok (saved opts user_input)

abbrev pub shown : Option ℤ → Option Value
shown none = none
shown (some n) = some (int n)

module _ (py : Runtime) where
  -- What a validator makes of a value: `none` refuses it.
  unfoldable pub accept : Validator → Value → Result (Option Value)
  accept interval_field v = interval py v >>= λ n. ok (shown n)
  accept bool_field (bool b) = ok (some (bool b))
  accept bool_field _ = ok none

  -- A row of a form that was accepted: the value that was entered, or else the default, passed its
  -- validator, and what that made of it is in the result.
  abbrev pub Accepted : Fields → Fields → Row → Type 0
  Accepted input out row =
      (w : Value) × (accept row.validator (value_or row.default (find row.key input)) ≡ ok (some w))
      × (find row.key out ≡ some w)

  -- What voluptuous promises: for a schema, a dict, whose keys differ, a result has an accepted value
  -- for every row.
  abbrev pub Validates : Voluptuous → Type 0
  Validates validate =
      (schema : List Row) (input out : Fields)
      → distinct_keys schema ≡ true
      → validate schema input ≡ ok (some out)
      → All (Accepted input out) schema
