-- ===== src/Repairs.antt =====
-- repairs.py: the alerts of the system as issues of Home Assistant's registry.
pub mod Issues
pub mod Sync
pub mod Flow
pub mod Shapes
pub mod RoundTrip
pub mod Listener
use ha_truenas_ng.Base.{
  String, Bool, true, false, not, ◌&&◌, Option, none, some, List, [], ◌∷◌, ◌==◌, string_eq,
  if◌then◌else◌,
}
use ha_truenas_ng.Base.Dict
use ha_truenas_ng.Base.Dict.{Dict}
use ha_truenas_ng.Result.{Result, ok, err, type_error, fold_result, ◌>>=◌}
use ha_truenas_ng.Action.{Action, pure, ◌>>=◌ as ◌▷◌}
use ha_truenas_ng.Value.{Value, str, null, arr, nil, dict, Fields, end, field}
use ha_truenas_ng.Value.Access.{get, get_or, truthy, or_value, as_dict, iterate, is_str, find}
use ha_truenas_ng.Value.Key.{Key, key_eq, hash_key}
use Issues.{Registry, Issue, Severity, warning, error}

abbrev pub domain : String
domain = "truenas_ng"

abbrev pub alert_translation_key : String
alert_translation_key = "truenas_alert"

-- `_SEVERITY_BY_LEVEL.get(level)`: a list or a dict cannot be looked up.
unfoldable pub severity_of : Value → Result (Option Severity)
severity_of (str level) =
    ok (
      if level == "WARNING" then some warning else if level == "CRITICAL" then some error else none)
severity_of (arr _) = err type_error
severity_of (dict _) = err type_error
severity_of _ = ok none

-- An alert that asks for an issue, with its severity.
pub record Wanted : Type 0 where
  pub uuid : Value
  pub alert : Fields
  pub severity : Severity

-- An alert without a uuid is passed over.
unfoldable pub want : Fields → Option Severity → Dict Key Wanted → Result (Dict Key Wanted)
want alert none wanted = ok wanted
want alert (some severity) wanted =
    let added : Result (Dict Key Wanted) = (do
      key ← hash_key (get alert "uuid")
      ok (
          Dict.insert key (record { uuid = get alert "uuid"; alert = alert; severity = severity })
            wanted)) in
    if truthy (get alert "uuid") then added else ok wanted

-- One round of the loop over the alerts.
unfoldable pub consider : Dict Key Wanted → Value → Result (Dict Key Wanted)
unfolding want
consider wanted v = do
  alert ← as_dict v
  let judged : Result (Dict Key Wanted) = (do
    severity ← severity_of (get alert "level")
    want alert severity wanted)
  if truthy (get alert "dismissed") then ok wanted else judged

unfoldable pub wanted_issues : Value → Result (Dict Key Wanted)
unfolding consider
wanted_issues alerts = do vs ← iterate alerts; fold_result consider [] vs

unfoldable pub issue_of : String → Wanted → Issue
issue_of entry_id w = record {
  is_fixable = true;
  severity = w.severity;
  translation_key = alert_translation_key;
  placeholder_alert = or_value (or_value (get w.alert "formatted") (get w.alert "text")) w.uuid;
  placeholder_class = get_or w.alert "klass" (str "");
  payload = some (field "uuid" w.uuid (field "entry_id" (str entry_id) end));
}

-- An issue that this entry made.
abbrev owner_is : String → Option Fields → Bool
owner_is entry_id none = false
owner_is entry_id (some payload) = is_str (get payload "entry_id") entry_id

unfoldable pub is_ours : String → String → Issue → Bool
is_ours entry_id in_domain issue =
    in_domain == domain
    && (issue.translation_key == alert_translation_key && owner_is entry_id issue.payload)

module _ (R : Registry) (entry_id : String) where
  open R use {State, create, delete, issues}

  -- `existing`
  unfoldable pub existing : List (String × Key × Issue) → List Key
  existing [] = []
  existing ((in_domain, id, issue) ∷ rest) =
      let ids = existing rest in if is_ours entry_id in_domain issue then id ∷ ids else ids

  unfoldable pub create_all : Dict Key Wanted → State → State
  create_all [] s = s
  create_all ((id, w) ∷ wanted) s = create_all wanted (create s domain id (issue_of entry_id w))

  -- The issues in `existing - wanted.keys()` go, in whatever order.
  unfoldable pub delete_all : Dict Key Wanted → List Key → State → State
  delete_all wanted [] s = s
  delete_all wanted (id ∷ ids) s =
      delete_all wanted ids (if Dict.has_key id wanted then s else delete s domain id)

  unfoldable pub reconcile : Dict Key Wanted → State → State
  unfolding create_all delete_all
  reconcile wanted s = delete_all wanted (existing (issues s)) (create_all wanted s)

  -- The alerts of a coordinator that has no data yet are none.
  abbrev pub alerts_of : Option Value → Value
  alerts_of none = arr nil
  alerts_of (some alerts) = alerts

  abbrev pub reconciled : Result (Dict Key Wanted) → Action State (Unit {0})
  reconciled (ok wanted) s = (ok tt, reconcile wanted s)
  reconciled (err e) s = (err e, s)

  unfoldable pub async_sync_alert_issues : Option Value → Action State (Unit {0})
  async_sync_alert_issues alerts = reconciled (wanted_issues (alerts_of alerts))
