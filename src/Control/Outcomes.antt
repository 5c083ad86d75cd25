-- ===== src/Control/Outcomes.antt =====
-- What the controls report over the client.
use ha_truenas_ng.Base.{◌≡◌, refl, sym, String, ◌<>◌, Bool, true, false, none, List, []}
use ha_truenas_ng.Result.{
  Exc, Result, ok, err, auth_error, connection_error, home_assistant_error, err-injective, message,
}
use ha_truenas_ng.Action.{Action, handle, continue}
use ha_truenas_ng.Action.Post.{Post, err-Post}
use ha_truenas_ng.Value.{Value}
use ha_truenas_ng.Value.Runtime.{Runtime}
use ha_truenas_ng.Client
use ha_truenas_ng.Client.{Config, State}
use ha_truenas_ng.Client.Upstream.{Library}
use ha_truenas_ng.Client.Rules.{IsDocumented}
use ha_truenas_ng.Client.Errors.{Connected, Wrapped, call-Post}
use ha_truenas_ng.Control.{report, control, os_install, underway}

-- `self._client.call(method, *params, job=...)`
abbrev pub client_call :
    (L : Library) → Config → String → List Value → Bool → Action (State L) Value
client_call L c method params job = Client.call L c method params job none

abbrev pub is_reported : Exc → Bool
is_reported (home_assistant_error _) = true
is_reported _ = false

module _ (py : Runtime) (L : Library) (D : IsDocumented L) (c : Config)
    (refresh : Action (State L) (Unit {0})) where
  -- The error that Home Assistant shows for a control.
  abbrev pub Told : String → Exc → Exc → Type 0
  Told what e d = d ≡ home_assistant_error (what <> (": " <> message e))

  -- What a control ends with, by how its call went: the refresh in the state of the call, or an error.
  pub Controlled : String → Result Value × State L → Result (Unit {0}) × State L → Type 0
  Controlled what (ok v, t) m = m ≡ refresh t
  Controlled what (err e, t) (r, u) = (d : Exc) × (r ≡ err d) × Told what e d × (u ≡ t)

  reported-Controlled :
      (what : String) (m : Result Value × State L)
      → Post (Connected L D c) (Wrapped L D c) m
      → Controlled what m (continue (handle m (report what)) (λ _. refresh))
  unfolding Controlled handle continue message
  reported-Controlled what (ok v, t) k = refl
  reported-Controlled what (err (auth_error m), t) k = (_, refl, refl, refl)
  reported-Controlled what (err (connection_error m), t) k = (_, refl, refl, refl)
  reported-Controlled what (err d, t) k =
      cc (err-Post (Connected L D c) (Wrapped L D c) (err d, t) k refl)

  -- Over a library that keeps to its documentation, and whatever the refresh does: a control of a
  -- service, an app or a VM whose call was answered ends as the refresh does from where the call
  -- left the client. One whose call failed raises `HomeAssistantError` with what failed and the
  -- call's own message, for every error of the call's, and nothing runs after the call.
  pub control-Controlled :
      (what method : String) (params : List Value) (job : Bool) (s : State L)
      → Controlled what
          (client_call L c method params job s)
          (control py (client_call L c) refresh what method params job s)
  unfolding control
  control-Controlled what method params job s =
      reported-Controlled what _ (call-Post L D c method params job none s)

  -- A call that ended in `r`, and what the installer then raised.
  abbrev pub Refused : Result Value → Exc → Type 0
  Refused r e =
      (m : String) × (r ≡ err (auth_error m))
      × (e ≡ home_assistant_error ("TrueNAS update failed" <> (": " <> m)))

  underway-Refused :
      (r : Result Value) (t : State L) (e : Exc)
      → Post (Connected L D c) (Wrapped L D c) (r, t)
      → (handle (continue (r, t) (λ _ u. (ok tt, u))) (underway py (client_call L c) refresh)).0
        ≡ err e
      → Refused r e
  unfolding handle continue message
  underway-Refused (ok v) t e k h = cc
  underway-Refused (err (auth_error m)) t e k h = (m, refl, sym (err-injective h))
  underway-Refused (err (connection_error m)) t e k h = cc
  underway-Refused (err d) t e k h =
      cc (err-Post (Connected L D c) (Wrapped L D c) (err d, t) k refl)

  -- Over a library that keeps to its documentation, `os_install` fails only if the key was refused,
  -- with a HomeAssistantError that tells it: every other error of the client's, the ones
  -- that the server answers with too, passes for an update that is underway.
  pub os_install-Refused :
      (s : State L) (e : Exc)
      → (os_install py (client_call L c) refresh s).0 ≡ err e
      → Refused (client_call L c "update.run" [] true s).0 e
  unfolding os_install
  os_install-Refused s e h =
      underway-Refused _ (client_call L c "update.run" [] true s).1 e
        (call-Post L D c "update.run" [] true none s) h
