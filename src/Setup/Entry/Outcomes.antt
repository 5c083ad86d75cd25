-- ===== src/Setup/Entry/Outcomes.antt =====
-- What a setup leaves behind, whether it succeeds or raises.
use ha_truenas_ng.Base.{◌≡◌, refl, ◌⊎◌, inl, inr, true, String, arith}
use ha_truenas_ng.Base.Dict
use ha_truenas_ng.Base.Dict.{Dict}
use ha_truenas_ng.Result.{Exc, Result, ok, err, bind-err, ◌>>=◌ as ◌▷◌}
use ha_truenas_ng.Action.{Action, ◌>>=◌}
use ha_truenas_ng.Action.Post.{Post, Post-ok, Post-err, Post-handle, Post-continue, Post-weaken}
use ha_truenas_ng.Value.{Value, Fields}
use ha_truenas_ng.Value.Key.{Key, key_eq}
use ha_truenas_ng.Value.Access.{subscript_of, as_dict}
use ha_truenas_ng.Value.Shapes.{is_shape, subscript_of-shape, as_dict-shape}
use ha_truenas_ng.Value.Runtime.{Runtime}
use ha_truenas_ng.Client.{Config, State}
use ha_truenas_ng.Client.Upstream.{Library}
use ha_truenas_ng.Client.Rules.{IsDocumented}
use ha_truenas_ng.Client.Errors.{Connected}
use ha_truenas_ng.Coordinator.{update_data}
use ha_truenas_ng.Repairs.{domain, Wanted, wanted_issues, reconciled, async_sync_alert_issues}
use ha_truenas_ng.Repairs.Shapes.{wanted_issues-shape}
use ha_truenas_ng.Repairs.Issues.{Registry, IsLawful}
use ha_truenas_ng.Repairs.Sync.{settled, async_sync_alert_issues-settled}
use ha_truenas_ng.Services.{Registered, async_register_services}
use ha_truenas_ng.Setup.{setup_client}
use ha_truenas_ng.Setup.Failures.{is_setup_error, GaveUp, identify-Post}
use ha_truenas_ng.Setup.Entry.{
  Host, RuntimeData, Refreshed, first_refresh, refresh_all, runtime_of, prepare, Hass, synced,
  published, async_setup_entry,
}

-- What Home Assistant promises of a first refresh: it raises ConfigEntryAuthFailed or
-- ConfigEntryNotReady, whatever the coordinator raised.
abbrev pub RefreshesSafely : Host → Type 0
RefreshesSafely host = (e : Exc) → is_setup_error (host.refresh_error e) ≡ true

-- An error of a setup: one that tells Home Assistant what to do, or that of an answer without the
-- shape that the code expects.
abbrev pub IsExpected : Exc → Type 0
IsExpected e = (is_setup_error e ≡ true) ⊎ (is_shape e ≡ true)

module _ (py : Runtime) (L : Library) (D : IsDocumented L) (c : Config) (host : Host)
    (safe : RefreshesSafely host) where
  abbrev Any : {A : Type 0} → A → State L → Type 0
  Any _ _ = Unit

  abbrev Expected : Exc → State L → Type 0
  Expected e _ = IsExpected e

  Post-Any : {A : Type 0} (m : Result A × State L) → Post Any (λ _ _. Unit {0}) m
  unfolding Post
  Post-Any (ok a, s) = tt
  Post-Any (err e, s) = tt

  lift-Post :
      {A : Type 0} (r : Result A) (s : State L)
      → ((e : Exc) → r ≡ err e → is_shape e ≡ true)
      → Post Any Expected (r, s)
  lift-Post (ok a) s h = Post-ok Any Expected a s tt
  lift-Post (err e) s h = Post-err Any Expected e s (inr (h e refl))

  refresh-Post :
      {A : Type 0} (fetch : Action (State L) A) (s : State L)
      → Post Any Expected (first_refresh py L c host fetch s)
  unfolding first_refresh
  refresh-Post fetch s =
      Post-handle Any (λ _ _. Unit {0}) Expected (update_data fetch s) _ (Post-Any _)
        (λ e t _. Post-err Any Expected (host.refresh_error e) t (inl (safe e)))

  then_refresh :
      {A B : Type 0} (fetch : Action (State L) A) (f : A → Action (State L) B) (s : State L)
      → ((a : A) (t : State L) → Post Any Expected (f a t))
      → Post Any Expected ((first_refresh py L c host fetch >>= f) s)
  then_refresh fetch f s h =
      Post-continue Any Any Expected _ f (refresh-Post fetch s) (λ a t _. h a t)

  refresh_all-Post :
      (physmem : Value) (s : State L) → Post Any Expected (refresh_all py L c host physmem s)
  unfolding refresh_all
  refresh_all-Post physmem s = then_refresh _ _ s λ _ t. then_refresh _ _ t λ _ t.
      then_refresh _ _ t λ _ t. then_refresh _ _ t λ _ t.
        then_refresh _ _ t
          λ _ t. then_refresh _ _ t λ _ t. then_refresh _ _ t λ _ t. Post-ok Any Expected _ t tt

  setup_client-Post : (s : State L) → Post Any Expected (setup_client L c s)
  unfolding setup_client
  setup_client-Post s =
      Post-continue Any Any Expected _ _
        (Post-weaken (Connected L D c) Any (GaveUp L D c) Expected _ (identify-Post L D c s)
          (λ a t k. tt) (λ e t k. inl k.0))
        λ found t _.
          Post-continue Any Any Expected _ _
            (lift-Post (subscript_of (found.0) "physmem") t (subscript_of-shape _ "physmem"))
            (λ _ u _. Post-ok Any Expected _ u tt)

  runtime_of-shape :
      (opts : Fields) (info host_id : Value) (physmem : Value) (refreshed : Refreshed) (e : Exc)
      → runtime_of py L c host opts info host_id physmem refreshed ≡ err e
      → is_shape e ≡ true
  unfolding runtime_of
  runtime_of-shape opts info host_id physmem refreshed e h = elim (bind-err (as_dict info) _ h) [
    | inl p ↦ as_dict-shape info e p
    | inr (fs, _, k) ↦ cc
  ]

  prepare-Post : (opts : Fields) (s : State L) → Post Any Expected (prepare py L c host opts s)
  unfolding prepare
  prepare-Post opts s = Post-continue Any Any Expected _ _ (setup_client-Post s) λ found t _.
      Post-continue Any Any Expected _ _ (refresh_all-Post (found.2) t)
        λ refreshed v _. lift-Post _ v (runtime_of-shape opts _ _ (found.2) refreshed)

  module _ (R : Registry) (laws : IsLawful R) (entry_id : String) (k : Key) where
    -- Both services are there, and the issue under `k` is the one that an alert asks for, or what was
    -- there if this entry had not made it.
    abbrev pub Published :
        Hass py L c host R entry_id → RuntimeData → Hass py L c host R entry_id → Type 0
    Published h runtime h' =
        (h'.services.dismiss_alert ≡ true)
        × (h'.services.restore_alert ≡ true)
        × ((wanted : Dict Key Wanted) × (wanted_issues runtime.refreshed.system.alerts ≡ ok wanted)
            × (R.issue_at h'.issues domain k
                ≡ settled entry_id (Dict.lookup k wanted) (R.issue_at h.issues domain k)))

    -- A setup has come to its end if it also handed the entry to its platforms; one that raised
    -- did so before it touched services and issues, or as the platforms could not be set up.
    pub Outcome :
        Hass py L c host R entry_id → Result RuntimeData × Hass py L c host R entry_id → Type 0
    Outcome h (ok runtime, h') = (host.forward runtime ≡ ok tt) × Published h runtime h'
    Outcome h (err e, h') =
        ((h'.services ≡ h.services) × (h'.issues ≡ h.issues) × IsExpected e)
        ⊎ ((runtime : RuntimeData) × (host.forward runtime ≡ err e) × Published h runtime h')

    registers :
        (r : Registered)
        → r.restore_alert ≡ r.dismiss_alert
        → ((async_register_services r).dismiss_alert ≡ true)
          × ((async_register_services r).restore_alert ≡ true)
    unfolding async_register_services
    registers r both = ground arith

    forwarded-Outcome :
        (h h' : Hass py L c host R entry_id) (runtime : RuntimeData) (r : Result (Unit {0}))
        → host.forward runtime ≡ r
        → Published h runtime h'
        → Outcome h ((r ▷ λ _. ok runtime), h')
    unfolding Outcome
    forwarded-Outcome h h' runtime (ok tt) p published = (p, published)
    forwarded-Outcome h h' runtime (err e) p published = inr (runtime, p, published)

    reconciled-Outcome :
        (h : Hass py L c host R entry_id) (runtime : RuntimeData) (s : State L)
        (r : Result (Dict Key Wanted))
        → h.services.restore_alert ≡ h.services.dismiss_alert
        → wanted_issues runtime.refreshed.system.alerts ≡ r
        → Outcome h
            (synced py L c host R entry_id h.services runtime s (reconciled R entry_id r h.issues))
    unfolding Outcome async_sync_alert_issues
    reconciled-Outcome h runtime s (ok wanted) both p =
        let at_k =
          async_sync_alert_issues-settled R laws entry_id runtime.refreshed.system.alerts wanted
            h.issues k p in
        let (dismiss, restore) = registers h.services both in
        forwarded-Outcome h _ runtime (host.forward runtime) refl
          (dismiss, restore, (wanted, p, rw p at at_k))
    reconciled-Outcome h runtime s (err e) both p =
        inl (refl, refl, inr (wanted_issues-shape _ e p))

    published-Outcome :
        (h : Hass py L c host R entry_id) (m : Result RuntimeData × State L)
        → h.services.restore_alert ≡ h.services.dismiss_alert
        → Post Any Expected m
        → Outcome h (published py L c host R entry_id h m)
    unfolding Outcome async_sync_alert_issues Post
    published-Outcome h (ok runtime, s) both _ = reconciled-Outcome h runtime s _ both refl
    published-Outcome h (err e, s) both expected = inl (refl, refl, expected)

    -- Over a library that keeps to its documentation, with Home Assistant's first refresh as it
    -- promises it, in a registry that keeps to its contract, and from both services or neither: a
    -- setup that returns has handed the entry to its platforms, has both services registered, and has
    -- left under each identifier of the integration's domain the issue of the alert that asks for it,
    -- and otherwise what was there, unless this entry had made it. One that raises has touched
    -- neither services nor issues, and raises ConfigEntryAuthFailed, ConfigEntryNotReady, or the
    -- AttributeError, KeyError or TypeError of an answer without the shape that the code expects; or
    -- it raises what setting up the platforms raised, and leaves services and issues as a setup that
    -- returns does.
    pub async_setup_entry-Outcome :
        (opts : Fields) (h : Hass py L c host R entry_id)
        → h.services.restore_alert ≡ h.services.dismiss_alert
        → Outcome h (async_setup_entry py L c host R entry_id opts h)
    unfolding async_setup_entry
    async_setup_entry-Outcome opts h both = published-Outcome h _ both (prepare-Post opts h.client)
