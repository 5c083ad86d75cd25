-- ===== src/Services.antt =====
-- services.py: the two services that dismiss and restore alerts.
pub mod Targets
pub mod Lifecycle
use ha_truenas_ng.Base.{
  String, ◌<>◌, Bool, true, false, not, ◌&&◌, ◌||◌, Option, none, some, List, [], ◌∷◌, ◌==◌,
  string_eq, if◌then◌else◌,
}
use ha_truenas_ng.Result.{
  Exc, Result, ok, err, service_validation_error, message, home_assistant_error,
}
use ha_truenas_ng.Action.{Action, pure, catch, ◌>>=◌, ◌>>◌}
use ha_truenas_ng.Value.{Value, str}
use ha_truenas_ng.Control.{report}

-- A config entry, as Home Assistant keeps it.
pub record Entry : Type 0 where
  pub entry_id : String
  pub domain : String
  pub is_loaded : Bool

-- `hass.config_entries.async_entries(domain)` and `async_get_entry(entry_id)`
pub record ConfigEntries : Type 0 where
  pub async_entries : String → List Entry
  pub async_get_entry : String → Option Entry

unfoldable pub loaded_of : List Entry → List Entry
loaded_of [] = []
loaded_of (e ∷ es) = let rest = loaded_of es in if e.is_loaded then e ∷ rest else rest

-- `entry in loaded`: entries are the same object if they have one identifier.
unfoldable pub is_among : Entry → List Entry → Bool
is_among e [] = false
is_among e (x ∷ xs) = e.entry_id == x.entry_id || is_among e xs

abbrev pub no_entry : Result Entry
no_entry = err (service_validation_error "No loaded TrueNAS config entry")

abbrev pub checked_entry : String → List Entry → Option Entry → Result Entry
checked_entry id loaded none =
    err (service_validation_error ("No loaded TrueNAS config entry with id " <> id))
checked_entry id loaded (some e) =
    if not (e.domain == "truenas_ng") || not (is_among e loaded)
    then err (service_validation_error ("No loaded TrueNAS config entry with id " <> id))
    else ok e

abbrev pub only_entry : List Entry → Result Entry
only_entry [] = no_entry
only_entry (e ∷ []) = ok e
only_entry (e ∷ f ∷ es) =
    err (service_validation_error "Multiple TrueNAS config entries are loaded; specify entry_id")

-- The services that are registered for the domain.
pub record Registered : Type 0 where
  pub dismiss_alert : Bool
  pub restore_alert : Bool

unfoldable pub async_register_services : Registered → Registered
async_register_services r =
    if r.dismiss_alert then r else record { dismiss_alert = true; restore_alert = true }

unfoldable pub any_loaded : List Entry → Bool
any_loaded [] = false
any_loaded (e ∷ es) = e.is_loaded || any_loaded es

module _ (H : ConfigEntries) where
  abbrev pub resolve_by : List Entry → Option String → Result Entry
  resolve_by loaded (some id) = checked_entry id loaded (H.async_get_entry id)
  resolve_by loaded none = only_entry loaded

  unfoldable pub resolve_entry : Option String → Result Entry
  unfolding loaded_of is_among
  resolve_entry entry_id = resolve_by (loaded_of (H.async_entries "truenas_ng")) entry_id

  module _ {S : Type 0} (call : Entry → String → List Value → Action S Value)
      (refresh : Entry → Action S (Unit {0})) where
    abbrev run_on : String → String → Result Entry → Action S (Unit {0})
    run_on method uuid (err e) s = (err e, s)
    run_on method uuid (ok entry) s =
        (do
          catch (call entry method (str uuid ∷ [])) (report ("TrueNAS " <> (method <> " failed")))
          refresh entry)
          s

    unfoldable pub alert_action : String → Option String → String → Action S (Unit {0})
    unfolding message
    alert_action method entry_id uuid = run_on method uuid (resolve_entry entry_id)

  unfoldable pub async_unregister_services : Registered → Registered
  async_unregister_services r =
      if any_loaded (H.async_entries "truenas_ng")
      then r
      else record { dismiss_alert = false; restore_alert = false }
