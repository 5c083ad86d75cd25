-- ===== src/ConfigFlow/Forms/Entry.antt =====
-- What the schemas of config_flow.py make of what is entered, and what is read from an entry's data.
use ha_truenas_ng.Base.{
  ◌≡◌, refl, ap, ◌∙◌, arith, String, Bool, true, false, Option, none, some, List, [], ◌∷◌, All,
  ◌==◌, string_eq, not, ◌&&◌, ◌||◌, if◌then◌else◌,
}
use ha_truenas_ng.Result.{ok}
use ha_truenas_ng.Value.{Value, bool, str, Fields, end, field}
use ha_truenas_ng.Value.Access.{find, subscript, truthy}
use ha_truenas_ng.Value.Runtime.{Runtime}
use ha_truenas_ng.Client.{Config}
use ha_truenas_ng.ConfigFlow.Forms.{
  str_type, int_type, bool_type, is_instance, Field, user_schema, Step, user, reconfigure, reauth,
  schema_of_step, as_text, config_of,
}

-- The value that was entered, or else the default.
abbrev pub entered_or : Option Value → Option Value → Option Value
entered_or none w = w
entered_or (some v) w = some v

-- A field of a form that was accepted is there, with a value of its type.
abbrev pub Accepted : Fields → Fields → Field → Type 0
Accepted input out row =
    (w : Value) × (entered_or (find row.key input) row.default ≡ some w)
    × (is_instance row.of_type w ≡ true)
    × (find row.key out ≡ some w)

-- No two fields of a schema have one key: it is a dict.
unfoldable pub is_field_of : String → List Field → Bool
is_field_of key [] = false
is_field_of key (row ∷ rows) = key == row.key || is_field_of key rows

unfoldable pub is_dict : List Field → Bool
unfolding is_field_of
is_dict [] = true
is_dict (row ∷ rows) = not (is_field_of row.key rows) && is_dict rows

-- What voluptuous promises of a validation that gives a result.
abbrev pub Validates : (List Field → Fields → Option Fields) → Type 0
Validates validate =
    (schema : List Field) (input out : Fields)
    → is_dict schema ≡ true
    → validate schema input ≡ some out
    → All (Accepted input out) schema

pub schema_of_step-is_dict : (step : Step) → is_dict (schema_of_step step) ≡ true
unfolding schema_of_step user_schema is_dict string_eq
schema_of_step-is_dict (user last) = refl
schema_of_step-is_dict (reconfigure entry last) = refl
schema_of_step-is_dict (reauth entry) = refl

-- What Home Assistant promises of a merge: the updates win.
abbrev pub IsMerge : (Fields → Fields → Fields) → Type 0
IsMerge merge =
    (key : String) (entry updates : Fields)
    → find key (merge entry updates) ≡ entered_or (find key updates) (find key entry)

-- The data of an entry, with a value of the right type under each key.
pub record IsEntry (entry : Fields) : Type 0 where
  pub host : String
  pub port : Value
  pub username : String
  pub api_key : String
  pub verify_ssl : Bool
  pub has_host : find "host" entry ≡ some (str host)
  pub has_port : find "port" entry ≡ some port
  pub is_port : is_instance int_type port ≡ true
  pub has_username : find "username" entry ≡ some (str username)
  pub has_api_key : find "api_key" entry ≡ some (str api_key)
  pub has_verify_ssl : find "verify_ssl" entry ≡ some (bool verify_ssl)

pub str-typed : (w : Value) → is_instance str_type w ≡ true → (s : String) × (w ≡ str s)
unfolding is_instance
str-typed (str s) h = (s, refl)
str-typed _ h = cc

bool-typed : (w : Value) → is_instance bool_type w ≡ true → (b : Bool) × (w ≡ bool b)
unfolding is_instance
bool-typed (bool b) h = (b, refl)
bool-typed _ h = cc

pub user_schema-IsEntry :
    (defaults input out : Fields) → All (Accepted input out) (user_schema defaults) → IsEntry out
unfolding user_schema
user_schema-IsEntry defaults input out
      ((h, _, ht, hh), ((p, _, pt, ph), ((u, _, ut, uh), ((k, _, kt, kh), ((v, _, vt, vh), _))))) =
    let (host_name, a) = str-typed h ht in
    let (username, b) = str-typed u ut in
    let (api_key, c) = str-typed k kt in
    let (verify_ssl, d) = bool-typed v vt in
    record {
      host = host_name;
      port = p;
      username = username;
      api_key = api_key;
      verify_ssl = verify_ssl;
      has_host = hh ∙ ap some a;
      has_port = ph;
      is_port = pt;
      has_username = uh ∙ ap some b;
      has_api_key = kh ∙ ap some c;
      has_verify_ssl = vh ∙ ap some d;
    }

module _ (py : Runtime) where
  -- What the data of an entry is read as.
  abbrev pub read : {entry : Fields} → IsEntry entry → Config
  read e = record {
    host = e.host;
    port = as_text py e.port;
    username = e.username;
    api_key = e.api_key;
    verify_ssl = e.verify_ssl;
  }

  pub config_of-read : (entry : Fields) (e : IsEntry entry) → config_of py entry ≡ ok (read e)
  unfolding config_of subscript truthy
  config_of-read entry e =
      rw e.has_host
        (rw e.has_port (rw e.has_username (rw e.has_api_key (rw e.has_verify_ssl refl))))

  pub merge-IsEntry :
      (merge : Fields → Fields → Fields) (laws : IsMerge merge) (entry updates : Fields)
      (e : IsEntry updates)
      → (f : IsEntry (merge entry updates)) × (read e ≡ read f)
  merge-IsEntry merge laws entry updates e = (
    record {
      host = e.host;
      port = e.port;
      username = e.username;
      api_key = e.api_key;
      verify_ssl = e.verify_ssl;
      has_host = laws "host" entry updates ∙ ap (λ o. entered_or o (find "host" entry)) e.has_host;
      has_port = laws "port" entry updates ∙ ap (λ o. entered_or o (find "port" entry)) e.has_port;
      is_port = e.is_port;
      has_username =
          laws "username" entry updates
          ∙ ap (λ o. entered_or o (find "username" entry)) e.has_username;
      has_api_key =
          laws "api_key" entry updates
          ∙ ap (λ o. entered_or o (find "api_key" entry)) e.has_api_key;
      has_verify_ssl =
          laws "verify_ssl" entry updates
          ∙ ap (λ o. entered_or o (find "verify_ssl" entry)) e.has_verify_ssl;
    },
    refl,
  )

  -- Data that has a new key, and is that of an entry otherwise.
  pub with_key-IsEntry :
      (entry changed : Fields) (key : String)
      (same : (j : String)
        → find j changed ≡ (if j == "api_key" then some (str key) else find j entry))
      (e : IsEntry entry)
      → (f : IsEntry changed) × (read f ≡ record (read e) { api_key = key })
  unfolding string_eq
  with_key-IsEntry entry changed key same e = (
    record {
      host = e.host;
      port = e.port;
      username = e.username;
      api_key = key;
      verify_ssl = e.verify_ssl;
      has_host = same "host" ∙ e.has_host;
      has_port = same "port" ∙ e.has_port;
      is_port = e.is_port;
      has_username = same "username" ∙ e.has_username;
      has_api_key = same "api_key";
      has_verify_ssl = same "verify_ssl" ∙ e.has_verify_ssl;
    },
    refl,
  )

  pub find-updates :
      (j key : String) (entry : Fields)
      → entered_or (find j (field "api_key" (str key) end)) (find j entry)
        ≡ (if j == "api_key" then some (str key) else find j entry)
  unfolding find
  find-updates j key entry = ground arith
