-- ===== src/Client/Errors.antt =====
-- Which exceptions leave the client wrapper.
use ha_truenas_ng.Base.{Bool, true, ℕ, String, Option, none, some, List, ◌≡◌, refl, ◌∙◌}
use ha_truenas_ng.Result.{Exc, auth_error, connection_error}
use ha_truenas_ng.Value.{Value}
use ha_truenas_ng.Action.Post.{Post, Post-ok, Post-err, Post-handle, Post-continue, Post-weaken}
use ha_truenas_ng.Client.{
  Config, State, connect, close, raw_call, ensure_connected, retry, call, ensure,
}
use ha_truenas_ng.Client.Upstream.{Library}
use ha_truenas_ng.Client.Rules.{
  IsDocumented, is_wrapped, IsConnected, Same, Fails, close_session-Post, raw_call-Post,
  connect-Post,
}

module _ (L : Library) (D : IsDocumented L) (c : Config) where
  -- Whatever the library's own `close` raises, `close` drops `_client` and raises nothing. (The
  -- section's hypothesis on the library, that it keeps to its documentation, is not used.)
  pub close-Post : (s : State L) → Post (λ _ t. t.client ≡ none) (λ _ _. ⊥) (close L s)
  unfolding close
  close-Post s =
      Post-continue (λ _ t. t.client ≡ none) (λ _ t. t.client ≡ none) (λ _ _. ⊥) _ _
        (Post-ok (λ _ t. t.client ≡ none) (λ _ _. ⊥) tt _ refl)
        λ a t dropped.
          Post-weaken (Same L t) (λ _ t. t.client ≡ none) (λ _ _. ⊥) (λ _ _. ⊥) _
            (close_session-Post L D c (λ _ _. ⊥) s.client t) (λ a u k. k ∙ dropped) (λ e u k. k)

  abbrev pub Connected : {A : Type 0} → A → State L → Type 0
  Connected _ t = IsConnected L t

  abbrev pub Wrapped : Exc → State L → Type 0
  Wrapped e t = is_wrapped e ≡ true

  pub connect-Wrapped : (s : State L) → Post Connected Wrapped (connect L c s)
  connect-Wrapped s =
      Post-weaken Connected Connected (Fails L is_wrapped s) Wrapped _ (connect-Post L D c s)
        (λ a t k. k) (λ e t k. k.0)

  ensure-Post :
      (o : Option L.Session) (s : State L) → s.client ≡ o → Post Connected Wrapped (ensure L o c s)
  ensure-Post none s q = connect-Wrapped s
  ensure-Post (some session) s q = Post-ok Connected Wrapped tt s (session, q)

  raw_call-Connected :
      (method : String) (params : List Value) (job : Bool) (timeout : Option ℕ) (s : State L)
      → IsConnected L s
      → Post Connected
          (λ e t. Wrapped e t × IsConnected L t)
          (raw_call L method params job timeout s)
  raw_call-Connected method params job timeout s (session, q) =
      Post-weaken (Same L s) Connected (Fails L is_wrapped s) (λ e t. Wrapped e t × IsConnected L t)
        _ (raw_call-Post L D c method params job timeout s (session, q)) (λ a t k. (session, k ∙ q))
        (λ e t k. (k.0, (session, k.1 ∙ q)))

  retry-Post :
      (method : String) (params : List Value) (job : Bool) (timeout : Option ℕ) (e : Exc)
      (s : State L)
      → Wrapped e s
      → Post Connected Wrapped (retry L c method params job timeout e s)
  unfolding retry
  retry-Post method params job timeout (connection_error m) s h =
      Post-continue (λ _ t. t.client ≡ none) Connected Wrapped _ _
        (Post-weaken (λ _ t. t.client ≡ none) (λ _ t. t.client ≡ none) (λ _ _. ⊥) Wrapped _
          (close-Post s) (λ a t k. k) (λ e t k. absurd k))
        λ a t dropped.
          Post-continue Connected Connected Wrapped _ _ (ensure-Post none t dropped)
            λ a u connected.
              Post-weaken Connected Connected (λ e t. Wrapped e t × IsConnected L t) Wrapped _
                (raw_call-Connected method params job timeout u connected) (λ a v k. k)
                (λ e v k. k.0)
  retry-Post method params job timeout (auth_error m) s h = Post-err Connected Wrapped _ s refl
  retry-Post method params job timeout _ s h = cc

  -- A call over a library that keeps to its documentation raises nothing but
  -- `TrueNASAuthError` and `TrueNASConnectionError`, and when it returns, `_client` is set.
  pub call-Post :
      (method : String) (params : List Value) (job : Bool) (timeout : Option ℕ) (s : State L)
      → Post Connected Wrapped (call L c method params job timeout s)
  unfolding call ensure_connected
  call-Post method params job timeout s =
      Post-continue Connected Connected Wrapped _ _ (ensure-Post s.client s refl) λ a t connected.
        Post-handle Connected (λ e t. Wrapped e t × IsConnected L t) Wrapped _ _
          (raw_call-Connected method params job timeout t connected)
          (λ e u k. retry-Post method params job timeout e u k.0)
