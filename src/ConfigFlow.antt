-- ===== src/ConfigFlow.antt =====
-- config_flow.py: adding, reauthenticating and reconfiguring an entry, and its options.
-- A step is given the Config that its form was read as, which is in ConfigFlow/Forms; the unique ids
-- of other entries are Home Assistant's.
pub mod Probes
pub mod Closing
pub mod Options
pub mod Bounds
pub mod Forms
use ha_truenas_ng.Base.{
  String, Bool, true, false, not, Option, none, some, List, [], ◌==◌, string_eq, if◌then◌else◌,
}
use ha_truenas_ng.Base.Int.{ℤ, ltb_ℤ}
use ha_truenas_ng.Result.{Exc, Result, ok, err, auth_error, connection_error, ◌>>=◌ as ◌▷◌}
use ha_truenas_ng.Action.{Action, pure, raise, catch, handle, ◌>>=◌, ◌>>◌}
use ha_truenas_ng.Value.{Value}
use ha_truenas_ng.Value.Runtime.{Runtime, to_int}
use ha_truenas_ng.Client
use ha_truenas_ng.Client.{Config, State}
use ha_truenas_ng.Client.Upstream.{Library}
use ha_truenas_ng.Setup.{query, min_scan_interval}

-- `errors["base"]`
pub data FormError : Type 0 where
  invalid_auth cannot_connect unknown : FormError

-- What a probe gives: the host's id, or the error that the form shows.
pub data Probe : Type 0 where
  host : String → Probe
  failed : FormError → Probe

pub data FlowResult : Type 0 where
  -- the form of a step, with an error if the last input failed
  show_form : String → Option FormError → FlowResult
  create_entry : String → Config → FlowResult
  abort_with : String → FlowResult
  -- the entry's data after an update, and a reload
  update_reload : Config → FlowResult

abbrev pub error_of : Exc → FormError
error_of (auth_error m) = invalid_auth
error_of (connection_error m) = cannot_connect
error_of e = unknown

-- `_interval`: `none` is a refused form; voluptuous's `Coerce` catches what `to_int` does.
abbrev pub in_range : Option ℤ → Option ℤ
in_range none = none
in_range (some n) = if ltb_ℤ n min_scan_interval then none else some n

unfoldable pub interval : Runtime → Value → Result (Option ℤ)
interval py v = to_int py v ▷ λ n. ok (in_range n)

module _ (py : Runtime) (L : Library) where
  -- `finally: client.close()`
  abbrev finally_close : Result Value → Action (State L) String
  finally_close (ok v) = do Client.close L; pure (py.str_of v)
  finally_close (err e) = do Client.close L; raise e

  abbrev identified : Config → Action (State L) Value
  identified c = do Client.connect L c; query L c "system.info"; query L c "system.host_id"

  unfoldable pub validate : Config → Action (State L) String
  validate c s = let (r, t) = identified c s in finally_close r t

  -- `_async_probe`, over a new client whose `_client` is `None`.
  abbrev probed : Result String → Probe
  probed (ok id) = host id
  probed (err e) = failed (error_of e)

  unfoldable pub async_probe : Config → L.World → Probe × L.World
  async_probe c w =
      let (r, t) = validate c (record { client = none; world = w }) in (probed r, t.world)

  -- Whether another entry has the unique id, as `_abort_if_unique_id_configured` asks.
  module _ (is_configured : String → Bool) where
    abbrev pub user_result : Config → Probe → FlowResult
    user_result c (failed e) = show_form "user" (some e)
    user_result c (host id) =
        if is_configured id then abort_with "already_configured" else create_entry c.host c

    unfoldable pub async_step_user : Option Config → L.World → FlowResult × L.World
    async_step_user none w = (show_form "user" none, w)
    async_step_user (some c) w = let (p, w') = async_probe c w in (user_result c p, w')

  -- `_abort_if_unique_id_mismatch(reason="wrong_host")` against the entry's own id.
  abbrev pub same_host : String → String → Config → Probe → FlowResult
  same_host step unique_id c (failed e) = show_form step (some e)
  same_host step unique_id c (host id) =
      if id == unique_id then update_reload c else abort_with "wrong_host"

  unfoldable pub async_step_reauth_confirm :
      String → Config → Option String → L.World → FlowResult × L.World
  async_step_reauth_confirm unique_id entry none w = (show_form "reauth_confirm" none, w)
  async_step_reauth_confirm unique_id entry (some api_key) w =
      let c : Config = record entry { api_key = api_key } in
      let (p, w') = async_probe c w in (same_host "reauth_confirm" unique_id c p, w')

  unfoldable pub async_step_reconfigure : String → Option Config → L.World → FlowResult × L.World
  async_step_reconfigure unique_id none w = (show_form "reconfigure" none, w)
  async_step_reconfigure unique_id (some c) w =
      let (p, w') = async_probe c w in (same_host "reconfigure" unique_id c p, w')
