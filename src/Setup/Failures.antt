-- ===== src/Setup/Failures.antt =====
-- How a setup that cannot identify the system ends.
use ha_truenas_ng.Base.{◌≡◌, refl, Bool, true, false, none, []}
use ha_truenas_ng.Result.{Exc, auth_error, connection_error, entry_auth_failed, entry_not_ready}
use ha_truenas_ng.Action.Post.{Post, Post-ok, Post-err, Post-handle, Post-continue, Post-weaken}
use ha_truenas_ng.Client.{Config, State}
use ha_truenas_ng.Client.Upstream.{Library}
use ha_truenas_ng.Client.Rules.{IsDocumented}
use ha_truenas_ng.Client.Errors.{Connected, Wrapped, call-Post, close-Post, connect-Wrapped}
use ha_truenas_ng.Setup.{connect_and_identify, give_up, identify}

-- What tells Home Assistant to ask for a new key, or to try again later.
abbrev pub is_setup_error : Exc → Bool
is_setup_error (entry_auth_failed _) = true
is_setup_error (entry_not_ready _) = true
is_setup_error _ = false

module _ (L : Library) (D : IsDocumented L) (c : Config) where
  pub identified-Post :
      (s : State L) → Post (Connected L D c) (Wrapped L D c) (connect_and_identify L c s)
  unfolding connect_and_identify
  identified-Post s =
      Post-continue (Connected L D c) (Connected L D c) (Wrapped L D c) _ _
        (connect-Wrapped L D c s)
        λ _ t _.
          Post-continue (Connected L D c) (Connected L D c) (Wrapped L D c) _ _
            (call-Post L D c "system.info" [] false none t)
            λ info u _.
              Post-continue (Connected L D c) (Connected L D c) (Wrapped L D c) _ _
                (call-Post L D c "system.host_id" [] false none u)
                λ host v k. Post-ok (Connected L D c) (Wrapped L D c) (info, host) v k

  abbrev pub GaveUp : Exc → State L → Type 0
  GaveUp e t = (is_setup_error e ≡ true) × (t.client ≡ none)

  give_up-Post :
      (e : Exc) (s : State L) → Wrapped L D c e s → Post (Connected L D c) GaveUp (give_up L c e s)
  give_up-Post (auth_error m) s h =
      Post-continue (λ _ t. t.client ≡ none) (Connected L D c) GaveUp _ _
        (Post-weaken (λ _ t. t.client ≡ none) (λ _ t. t.client ≡ none) (λ _ _. ⊥) GaveUp _
          (close-Post L D c s) (λ a t k. k) (λ e t k. absurd k))
        λ a t dropped. Post-err (Connected L D c) GaveUp (entry_auth_failed m) t (refl, dropped)
  give_up-Post (connection_error m) s h =
      Post-continue (λ _ t. t.client ≡ none) (Connected L D c) GaveUp _ _
        (Post-weaken (λ _ t. t.client ≡ none) (λ _ t. t.client ≡ none) (λ _ _. ⊥) GaveUp _
          (close-Post L D c s) (λ a t k. k) (λ e t k. absurd k))
        λ a t dropped. Post-err (Connected L D c) GaveUp (entry_not_ready m) t (refl, dropped)
  give_up-Post _ s h = cc

  -- Over a library that keeps to its documentation, the first part of the setup returns with a
  -- client that is connected, or raises `ConfigEntryAuthFailed` or `ConfigEntryNotReady` with
  -- `_client` dropped.
  pub identify-Post : (s : State L) → Post (Connected L D c) GaveUp (identify L c s)
  unfolding identify
  identify-Post s =
      Post-handle (Connected L D c) (Wrapped L D c) GaveUp _ _ (identified-Post s) give_up-Post
