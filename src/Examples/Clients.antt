-- ===== src/Examples/Clients.antt =====
-- The client and what calls it, on the small server.
use ha_truenas_ng.Base.{ℕ, suc, Bool, ◌≡◌, ◌≢◌, refl, string_eq, false, true, none, some, [], ◌∷◌}
use ha_truenas_ng.Base.Int.{pos, ℤ-discrete}
use native.Mathlib.Decide.{ℕ_discrete}
use ha_truenas_ng.Result.{Result, ok, err, client_exception, auth_error, home_assistant_error}
use ha_truenas_ng.Action.Post.{Post}
use ha_truenas_ng.Value.{str}
use ha_truenas_ng.Client.{
  Config, State, connect, close, raw_call, ensure_connected, call, retry, external,
}
use ha_truenas_ng.Client.Errors.{Connected, Wrapped, call-Post, close-Post}
use ha_truenas_ng.Client.Retry.{call-once, call-resent, resend}
use ha_truenas_ng.Coordinator.Degrading.{fetch_apps, fetch_vms}
use ha_truenas_ng.Coordinator.Degrading.Tables.{Degrades, caller, fetch-Degrades}
use ha_truenas_ng.Value.Key.{text}
use ha_truenas_ng.Setup.{identify}
use ha_truenas_ng.Setup.Failures.{GaveUp, identify-Post}
use ha_truenas_ng.Control.{control, os_install}
use ha_truenas_ng.Control.Outcomes.{
  Controlled, Refused, client_call, control-Controlled, os_install-Refused,
}
use ha_truenas_ng.ConfigFlow.{
  validate, async_probe, failed, unknown, update_reload, async_step_reconfigure,
  async_step_reauth_confirm,
}
use ha_truenas_ng.Client.Upstream.{Library}
use ha_truenas_ng.ConfigFlow.Probes.{Updates, async_probe-known, reauth_form, submitted_to-Updates}
use ha_truenas_ng.Action.{handle, continue}
use ha_truenas_ng.Examples.{config, server, answer, documented, before, open_at, python}

call-Post_example :
    Post
      (Connected server documented config)
      (Wrapped server documented config)
      (call server config "system.info" [] false none (before 0))
call-Post_example = call-Post server documented config "system.info" [] false none (before 0)

close-Post_example :
    Post (λ _ (t : State server). t.client ≡ none) (λ _ _. ⊥) (close server (open_at 2))
close-Post_example = close-Post server documented config (open_at 2)

call-once_example :
    call server config "system.info" [] false none (open_at 1)
    ≡ (err (auth_error "bad key"), open_at 2)
unfolding string_eq
call-once_example =
    call-once server config "system.info" [] false none 7 (open_at 1) (open_at 2)
      (err (client_exception (some (pos 207)) "bad key")) (err (auth_error "bad key")) (refl, refl)
      (refl, refl, refl)

boom_is_retried : none ≢ some (pos 207)
boom_is_retried p = cc

call-resent_example :
    call server config "system.info" [] false none (open_at 0)
    ≡ resend server config "system.info" [] false none (open_at 1)
call-resent_example =
    call-resent server config "system.info" [] false none 7 (open_at 0) (open_at 1)
      (client_exception none "boom") boom_is_retried (refl, refl, refl)

identify-Post_example :
    Post
      (Connected server documented config)
      (GaveUp server documented config)
      (identify server config (before 1))
identify-Post_example = identify-Post server documented config (before 1)

abbrev quiet : State server → Result (Unit {0}) × State server
quiet s = (ok tt, s)

control-Controlled_example :
    Controlled python server documented config quiet "Failed"
      (client_call server config "app.start" (str "plex" ∷ []) true (open_at 1))
      (control python
        (client_call server config)
        quiet
        "Failed"
        "app.start"
        (str "plex" ∷ [])
        true
        (open_at 1))
control-Controlled_example =
    control-Controlled python server documented config quiet "Failed" "app.start" (str "plex" ∷ [])
      true (open_at 1)

refused_install :
    (os_install python (client_call server config) quiet (open_at 1)).0
    ≡ err (home_assistant_error "TrueNAS update failed: bad key")
unfolding os_install call ensure_connected raw_call external retry handle continue ℤ-discrete
    ℕ_discrete string_eq
refused_install = refl

os_install-Refused_example :
    Refused python server documented config quiet
      (client_call server config "update.run" [] true (open_at 1)).0
      (home_assistant_error "TrueNAS update failed: bad key")
os_install-Refused_example =
    os_install-Refused python server documented config quiet (open_at 1)
      (home_assistant_error "TrueNAS update failed: bad key") refused_install

-- The same server, that also keeps whether its one connection is open.
abbrev connections : Library
connections = record {
  World = Bool × ℕ;
  Session = Unit;
  construct = λ uri verify w. (ok tt, (true, w.1));
  login = λ session user key w. (ok tt, w);
  call = λ session method params job timeout w. (answer (w.1), (w.0, suc (w.1)));
  ping = λ session w. (ok (str "pong"), w);
  close = λ session w. (ok tt, (false, w.1));
  enotauthenticated = pos 207;
}

-- The first request fails, and is resent over a second connection.
abbrev shut_down : State connections
shut_down = record { client = none; world = (false, 0) }

async_probe-known_example : (async_probe python server config 1).0 ≢ failed unknown
async_probe-known_example = async_probe-known python server documented config 1

-- The probe with what is entered is made, and the entry's host is found.
updates_reconfigured :
    (async_step_reconfigure python server "nas-1" (some config) 2).0 ≡ update_reload config
unfolding async_step_reconfigure async_probe validate connect close call ensure_connected raw_call
    external retry handle continue string_eq
updates_reconfigured = refl

abbrev with_key : Config
with_key = record config { api_key = "2-def" }

updates_reauthenticated :
    (async_step_reauth_confirm python server "nas-1" config (some "2-def") 2).0
    ≡ update_reload with_key
unfolding async_step_reauth_confirm async_probe validate connect close call ensure_connected
    raw_call external retry handle continue string_eq
updates_reauthenticated = refl

submitted_to-Updates_example :
    Updates "nas-1" (async_probe python server with_key 2).0 with_key with_key
submitted_to-Updates_example =
    submitted_to-Updates python server "nas-1" (reauth_form config "2-def") with_key 2
      updates_reauthenticated

fetch-Degrades_example :
    Degrades server documented config
      (text "plex")
      "name"
      (caller server documented config (text "plex") "app.query" [] (open_at 1))
      (fetch_apps (caller server documented config (text "plex")) (open_at 1))
    × Degrades server documented config
        (text "plex")
        "id"
        (caller server documented config (text "plex") "vm.query" [] (open_at 1))
        (fetch_vms (caller server documented config (text "plex")) (open_at 1))
fetch-Degrades_example = fetch-Degrades server documented config (text "plex") (open_at 1)
