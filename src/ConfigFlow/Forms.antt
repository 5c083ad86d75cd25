-- ===== src/ConfigFlow/Forms.antt =====
-- config_flow.py: the forms of the steps that ask for a host and a key, with the data that they
-- save, which __init__.py and the probe read as a Config.
-- Voluptuous, which validates what the user entered against a form's schema before the step is
-- called with it, is a parameter, and so is the merge of an entry's data with its updates.
pub mod Entry
pub mod Typed
use ha_truenas_ng.Base.{String, Bool, true, false, Option, none, some, List, [], ◌∷◌}
use ha_truenas_ng.Base.Int.{pos}
use ha_truenas_ng.Result.{Exc, Result, ok, err, ◌>>=◌}
use ha_truenas_ng.Value.{Value, int, bool, str, Fields, end, field}
use ha_truenas_ng.Value.Access.{find, get_or, put, subscript, truthy}
use ha_truenas_ng.Value.Runtime.{Runtime}
use ha_truenas_ng.Client.{Config}
use ha_truenas_ng.Client.Upstream.{Library}
use ha_truenas_ng.ConfigFlow.{
  FlowResult, show_form, error_of, async_step_user, async_step_reauth_confirm,
  async_step_reconfigure,
}

-- The types that the schemas name, and `isinstance`: a bool is an int.
pub data FieldType : Type 0 where
  str_type int_type bool_type : FieldType

unfoldable pub is_instance : FieldType → Value → Bool
is_instance str_type (str s) = true
is_instance int_type (int n) = true
is_instance int_type (bool b) = true
is_instance bool_type (bool b) = true
is_instance _ _ = false

-- `vol.Required(key, default=...): type`; without a default it is `vol.UNDEFINED`.
pub record Field : Type 0 where
  pub key : String
  pub default : Option Value
  pub of_type : FieldType

unfoldable pub user_schema : Fields → List Field
user_schema defaults =
    record { key = "host"; default = find "host" defaults; of_type = str_type }
    ∷ record {
      key = "port";
      default = some (get_or defaults "port" (int (pos 9443)));
      of_type = int_type;
    }
    ∷ record {
      key = "username";
      default = some (get_or defaults "username" (str "homeassistant"));
      of_type = str_type;
    }
    ∷ record { key = "api_key"; default = none; of_type = str_type }
    ∷ record {
      key = "verify_ssl";
      default = some (get_or defaults "verify_ssl" (bool true));
      of_type = bool_type;
    }
    ∷ []

abbrev pub reauth_schema : List Field
reauth_schema = record { key = "api_key"; default = none; of_type = str_type } ∷ []

-- A step that shows its form, with the data of the entry that it is for, and what was entered last.
pub data Step : Type 0 where
  user : (last : Option Fields) → Step
  reconfigure : (entry : Fields) → (last : Option Fields) → Step
  reauth : (entry : Fields) → Step

abbrev pub step_id : Step → String
step_id (user _) = "user"
step_id (reconfigure _ _) = "reconfigure"
step_id (reauth _) = "reauth_confirm"

-- `user_input or defaults`
abbrev or_fields : Option Fields → Fields → Fields
or_fields none fs = fs
or_fields (some end) fs = fs
or_fields (some last) fs = last

unfoldable pub schema_of_step : Step → List Field
unfolding user_schema
schema_of_step (user last) = user_schema (or_fields last end)
schema_of_step (reconfigure entry last) = user_schema (or_fields last entry)
schema_of_step (reauth entry) = reauth_schema

module _ (py : Runtime) where
  abbrev pub as_text : Value → String
  as_text (str s) = s
  as_text v = py.str_of v

  -- `TrueNASClient(host=data[CONF_HOST], ...)`
  unfoldable pub config_of : Fields → Result Config
  config_of data_of_entry = do
    host ← subscript data_of_entry "host"
    port ← subscript data_of_entry "port"
    username ← subscript data_of_entry "username"
    api_key ← subscript data_of_entry "api_key"
    verify_ssl ← subscript data_of_entry "verify_ssl"
    ok (record {
      host = as_text host;
      port = as_text port;
      username = as_text username;
      api_key = as_text api_key;
      verify_ssl = truthy verify_ssl;
    })

  -- The data that is probed.
  unfoldable pub probed_data : Step → Fields → Result Fields
  probed_data (reauth entry) user_input = do
    api_key ← subscript user_input "api_key"
    ok (put "api_key" api_key entry)
  probed_data _ user_input = ok user_input

  -- The data that is saved if the step saves any; `merge` is Home Assistant's.
  unfoldable pub saved_data : (Fields → Fields → Fields) → Step → Fields → Result Fields
  saved_data merge (user _) user_input = ok user_input
  saved_data merge (reconfigure entry _) user_input = ok (merge entry user_input)
  saved_data merge (reauth entry) user_input = do
    api_key ← subscript user_input "api_key"
    ok (merge entry (field "api_key" api_key end))

  module _ (L : Library) (is_configured : String → Bool) (unique_id : String) where
    unfoldable pub result_of : Step → Config → L.World → FlowResult
    result_of (user _) c w = (async_step_user py L is_configured (some c) w).0
    result_of (reconfigure _ _) c w = (async_step_reconfigure py L unique_id (some c) w).0
    result_of (reauth _) c w = (async_step_reauth_confirm py L unique_id c (some c.api_key) w).0

    -- The probe reads the data where every exception is caught.
    abbrev attempted : Step → Result Config → L.World → FlowResult
    attempted step (ok c) w = result_of step c w
    attempted step (err e) w = show_form (step_id step) (some (error_of e))

    -- A step with validated input: its result, and the data that it saves if it saves any.
    unfoldable pub submit_step :
        (Fields → Fields → Fields) → Step → Fields → L.World → Result (FlowResult × Fields)
    unfolding result_of
    submit_step merge step user_input w = do
      probed ← probed_data step user_input
      saved ← saved_data merge step user_input
      ok (attempted step (config_of probed) w, saved)
