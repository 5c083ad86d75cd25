-- ===== src/ConfigFlow/Probes.antt =====
-- What the config flow's probe leaves behind, and when an entry is updated.
use ha_truenas_ng.Base.{◌≡◌, ◌≢◌, refl, String, true, false, none, some, [], string_eq, arith}
use ha_truenas_ng.Result.{Exc, Result, ok, err, auth_error, connection_error}
use ha_truenas_ng.Action.Post.{Post, Post-ok, Post-err, Post-continue, Post-weaken, err-Post}
use ha_truenas_ng.Value.{Value}
use ha_truenas_ng.Value.Runtime.{Runtime}
use ha_truenas_ng.Client
use ha_truenas_ng.Client.{Config, State}
use ha_truenas_ng.Client.Upstream.{Library}
use ha_truenas_ng.Client.Rules.{IsDocumented, is_wrapped}
use ha_truenas_ng.Client.Errors.{Connected, Wrapped, call-Post, close-Post, connect-Wrapped}
use ha_truenas_ng.ConfigFlow.{
  unknown, Probe, FlowResult, host, failed, update_reload, identified, finally_close, validate,
  probed, async_probe, same_host, async_step_reauth_confirm, async_step_reconfigure,
}

module _ (py : Runtime) (L : Library) (D : IsDocumented L) (c : Config) where
  identified-Post : (s : State L) → Post (Connected L D c) (Wrapped L D c) (identified py L c s)
  identified-Post s =
      Post-continue (Connected L D c) (Connected L D c) (Wrapped L D c) _ _
        (connect-Wrapped L D c s)
        λ _ t _.
          Post-continue (Connected L D c) (Connected L D c) (Wrapped L D c) _ _
            (call-Post L D c "system.info" [] false none t)
            λ info u _. call-Post L D c "system.host_id" [] false none u

  abbrev pub Closed : {A : Type 0} → A → State L → Type 0
  Closed _ t = t.client ≡ none

  abbrev pub Failed : Exc → State L → Type 0
  Failed e t = (is_wrapped e ≡ true) × (t.client ≡ none)

  closes : (s : State L) → Post Closed Failed (Client.close L s)
  closes s =
      Post-weaken (λ _ t. t.client ≡ none) Closed (λ _ _. ⊥) Failed _ (close-Post L D c s)
        (λ a t k. k) (λ e t k. absurd k)

  finally_close-Post :
      (r : Result Value) (s : State L)
      → Post (Connected L D c) (Wrapped L D c) (r, s)
      → Post Closed Failed (finally_close py L r s)
  finally_close-Post (ok v) s k =
      Post-continue Closed Closed Failed _ _ (closes s)
        λ _ t dropped. Post-ok Closed Failed (py.str_of v) t dropped
  finally_close-Post (err e) s k = Post-continue Closed Closed Failed _ _ (closes s) λ _ t dropped.
      Post-err Closed Failed e t
        (err-Post (Connected L D c) (Wrapped L D c) (err e, s) k refl, dropped)

  -- Over a library that keeps to its documentation, a validation drops `_client`, and raises nothing
  -- but `TrueNASAuthError` and `TrueNASConnectionError`.
  pub validate-Post : (s : State L) → Post Closed Failed (validate py L c s)
  unfolding validate
  validate-Post s = finally_close-Post _ _ (identified-Post s)

  probed-known :
      (r : Result String) (t : State L) → Post Closed Failed (r, t) → probed py L r ≢ failed unknown
  probed-known (ok id) t k h = cc
  probed-known (err (auth_error m)) t k h = cc
  probed-known (err (connection_error m)) t k h = cc
  probed-known (err e) t k h = cc ((err-Post Closed Failed (err e, t) k refl).0)

  -- Over a library that keeps to its documentation, the probe never shows the error "unknown".
  pub async_probe-known : (w : L.World) → (async_probe py L c w).0 ≢ failed unknown
  unfolding async_probe
  async_probe-known w = probed-known _ _ (validate-Post (record { client = none; world = w }))

-- What a step may do once the probe has answered `p`.
abbrev pub Updates : String → Probe → Config → Config → Type 0
Updates unique_id p c updated = (p ≡ host unique_id) × (updated ≡ c)

same_host-Updates :
    (py : Runtime) (L : Library) (step unique_id : String) (c updated : Config) (p : Probe)
    → same_host py L step unique_id c p ≡ update_reload updated
    → Updates unique_id p c updated
same_host-Updates py L step unique_id c updated (failed e) h = cc
same_host-Updates py L step unique_id c updated (host id) h = ground arith

-- A form that is submitted for an entry: a whole config, or a new key; and the config that it makes.
pub data Form : Type 0 where
  reconfigure_form : Config → Form
  reauth_form : Config → String → Form

abbrev pub entered : Form → Config
entered (reconfigure_form c) = c
entered (reauth_form entry api_key) = record entry { api_key = api_key }

module _ (py : Runtime) (L : Library) where
  -- The step that the form is of.
  abbrev pub submitted_to : String → Form → L.World → FlowResult × L.World
  submitted_to unique_id (reconfigure_form c) w = async_step_reconfigure py L unique_id (some c) w
  submitted_to unique_id (reauth_form entry api_key) w =
      async_step_reauth_confirm py L unique_id entry (some api_key) w

  async_step_reconfigure-Updates :
      (unique_id : String) (c updated : Config) (w : L.World)
      → (async_step_reconfigure py L unique_id (some c) w).0 ≡ update_reload updated
      → Updates unique_id (async_probe py L c w).0 c updated
  unfolding async_step_reconfigure
  async_step_reconfigure-Updates unique_id c updated w h =
      same_host-Updates py L "reconfigure" unique_id c updated _ h

  async_step_reauth_confirm-Updates :
      (unique_id : String) (entry updated : Config) (api_key : String) (w : L.World)
      → (async_step_reauth_confirm py L unique_id entry (some api_key) w).0 ≡ update_reload updated
      → Updates unique_id
          (async_probe py L (record entry { api_key = api_key }) w).0
          (record entry { api_key = api_key })
          updated
  unfolding async_step_reauth_confirm
  async_step_reauth_confirm-Updates unique_id entry updated api_key w h =
      same_host-Updates py L "reauth_confirm" unique_id (record entry { api_key = api_key }) updated
        _ h

  -- Reconfiguring and reauthenticating update an entry only if the probe of what was entered found
  -- the host that the entry is for, and only to that: a reauthentication changes nothing but the
  -- key.
  pub submitted_to-Updates :
      (unique_id : String) (form : Form) (updated : Config) (w : L.World)
      → (submitted_to unique_id form w).0 ≡ update_reload updated
      → Updates unique_id (async_probe py L (entered form) w).0 (entered form) updated
  submitted_to-Updates unique_id (reconfigure_form c) updated w h =
      async_step_reconfigure-Updates unique_id c updated w h
  submitted_to-Updates unique_id (reauth_form entry api_key) updated w h =
      async_step_reauth_confirm-Updates unique_id entry updated api_key w h
