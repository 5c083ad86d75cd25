-- ===== src/Coordinator/Versions.antt =====
-- coordinator.py, `_extract_new_version` and UpdateCoordinator.
use ha_truenas_ng.Base.{[], if◌then◌else◌}
use ha_truenas_ng.Result.{Result, ok, ◌>>=◌}
use ha_truenas_ng.Action.{Action, decode, ◌>>=◌ as ◌▷◌}
use ha_truenas_ng.Value.{Value, null, str, dict}
use ha_truenas_ng.Value.Access.{get, truthy, or_value, as_dict, dict_or_empty}
use ha_truenas_ng.Coordinator.{Caller}

-- A version that is not empty: a text, or the field of a dict that names it.
abbrev named_version : Value → Value
named_version (str s) = str s
named_version (dict fs) = or_value (get fs "version") (get fs "name")
named_version _ = null

unfoldable pub extract_new_version : Value → Value
extract_new_version new = if truthy new then named_version new else null

pub record UpdateData : Type 0 where
  pub installed_version : Value
  pub latest_version : Value
  pub raw_status : Value

unfoldable pub assemble : Value → Value → Result UpdateData
unfolding extract_new_version
assemble info status = do
  i ← as_dict info
  s ← as_dict status
  state ← dict_or_empty s "status"
  ok (record {
    installed_version = get i "version";
    latest_version = or_value (extract_new_version (get state "new_version")) (get i "version");
    raw_status = status;
  })

module _ {S : Type 0} (call : Caller S) where
  unfoldable pub fetch : Action S UpdateData
  fetch = call "system.info" [] ▷ λ info. decode (call "update.status" []) (assemble info)
