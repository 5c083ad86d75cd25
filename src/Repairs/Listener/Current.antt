-- ===== src/Repairs/Listener/Current.antt =====
-- No issue outlives the alert that asked for it by more than the next update that is heard.
use ha_truenas_ng.Base.{
  ◌≡◌, ◌≢◌, refl, sym, ◌∙◌, String, true, false, ◌&&◌, Option, none, some, List, [], ◌∷◌, ◌==◌,
  string_eq, contains, arith, inl, inr, Bool-cases, if◌then◌else◌,
}
use ha_truenas_ng.Base.Dict
use ha_truenas_ng.Base.Dict.{Dict, NodupKeys}
use ha_truenas_ng.Result.{Result, ok, err}
use mathlib.Core.Path.{subst}
use ha_truenas_ng.Value.{Value}
use ha_truenas_ng.Value.Access.{get, find, is_str}
use ha_truenas_ng.Value.Key.{Key, key_eq}
use ha_truenas_ng.Repairs.{
  Wanted, domain, issue_of, is_ours, alerts_of, wanted_issues, reconciled, async_sync_alert_issues,
}
use ha_truenas_ng.Repairs.Issues.{Registry, Issue, IsLawful}
use ha_truenas_ng.Repairs.Sync.{settled, reconcile-at, wanted_issues-NodupKeys}
use ha_truenas_ng.Repairs.Listener.{
  Event, set_up, updated, unloaded, fixed, World, handle_update, async_setup_alert_issues, happen,
  run,
}

module _ (R : Registry) where
  -- What alerts that can be read ask for takes the place of what was asked for before.
  abbrev newest : Result (Dict Key Wanted) → Dict Key Wanted → Dict Key Wanted
  newest (ok wanted) old = wanted
  newest (err e) old = old

  -- What the entry's alerts asked for when they were last heard and could be read.
  unfoldable pub asked : String → World R → List Event → Dict Key Wanted
  asked id w [] = []
  asked id w (set_up entry_id alerts ∷ past) =
      let before = asked id w past in
      if id == entry_id then newest (wanted_issues (alerts_of R entry_id alerts)) before else before
  asked id w (updated entry_id alerts ∷ past) =
      let before = asked id w past in
      if contains (run R w past).listeners entry_id && id == entry_id
      then newest (wanted_issues (alerts_of R entry_id alerts)) before
      else before
  asked id w (_ ∷ past) = asked id w past

  module _ (laws : IsLawful R) (id : String) where
    -- Each issue of the entry is the one that `wanted` asks for.
    IsCurrent : Dict Key Wanted → R.State → Type 0
    IsCurrent wanted s =
        (k : Key) (issue : Issue)
        → R.issue_at s domain k ≡ some issue
        → is_ours id domain issue ≡ true
        → (x : Wanted) × (Dict.lookup k wanted ≡ some x) × (issue ≡ issue_of id x)

    is_ours-issue_of :
        (entry_id : String) (x : Wanted)
        → is_ours id domain (issue_of entry_id x) ≡ (entry_id == id)
    unfolding is_ours issue_of get find is_str string_eq
    is_ours-issue_of entry_id x = refl

    own-issue_of :
        (wanted : Option Wanted) (old : Option Issue) (issue : Issue)
        → settled id wanted old ≡ some issue
        → is_ours id domain issue ≡ true
        → (x : Wanted) × (wanted ≡ some x) × (issue ≡ issue_of id x)
    own-issue_of (some x) old issue h o = (x, refl, cc)
    own-issue_of none none issue h o = cc
    own-issue_of none (some i) issue h o = ground arith

    others-kept :
        (entry_id : String) (wanted : Option Wanted) (old : Option Issue) (issue : Issue)
        → entry_id ≢ id
        → settled entry_id wanted old ≡ some issue
        → is_ours id domain issue ≡ true
        → old ≡ some issue
    others-kept entry_id (some x) old issue ne h o = ground (arith, is_ours-issue_of entry_id x)
    others-kept entry_id none none issue ne h o = cc
    others-kept entry_id none (some i) issue ne h o = ground arith

    -- A sync, of this entry or of another.
    sync-IsCurrent :
        (r : Result (Dict Key Wanted)) (wanted : Dict Key Wanted) (s : R.State)
        → ((d : Dict Key Wanted) → r ≡ ok d → NodupKeys d)
        → IsCurrent wanted s
        → IsCurrent (newest r wanted) (reconciled R id r s).1
    unfolding IsCurrent
    sync-IsCurrent (err e) wanted s u c = c
    sync-IsCurrent (ok d) wanted s u c = λ k issue h o.
        own-issue_of (Dict.lookup k d) (R.issue_at s domain k) issue
          (sym (reconcile-at R laws id d s k (u d refl)) ∙ h) o

    sync_other-IsCurrent :
        (entry_id : String) (r : Result (Dict Key Wanted)) (wanted : Dict Key Wanted) (s : R.State)
        → entry_id ≢ id
        → ((d : Dict Key Wanted) → r ≡ ok d → NodupKeys d)
        → IsCurrent wanted s
        → IsCurrent wanted (reconciled R entry_id r s).1
    unfolding IsCurrent
    sync_other-IsCurrent entry_id (err e) wanted s ne u c = c
    sync_other-IsCurrent entry_id (ok d) wanted s ne u c = λ k issue h o.
        c k issue
          (others-kept entry_id (Dict.lookup k d) (R.issue_at s domain k) issue ne
            (sym (reconcile-at R laws entry_id d s k (u d refl)) ∙ h) o)
          o

    handle_update-IsCurrent :
        (entry_id : String) (alerts : Option Value) (w : World R) (wanted : Dict Key Wanted)
        → IsCurrent wanted w.registry
        → IsCurrent
            (if id == entry_id
              then newest (wanted_issues (alerts_of R entry_id alerts)) wanted
              else wanted)
            (handle_update R entry_id alerts w).registry
    unfolding handle_update async_sync_alert_issues
    handle_update-IsCurrent entry_id alerts w wanted c = elim (Bool-cases (id == entry_id)) [
      | inl q ↦
          let same : id ≡ entry_id = ground arith in
          rw q (
            subst
              (λ e.
                IsCurrent (newest (wanted_issues (alerts_of R e alerts)) wanted)
                  (async_sync_alert_issues R e alerts w.registry).1)
              same
              (sync-IsCurrent (wanted_issues (alerts_of R id alerts)) wanted w.registry
                (wanted_issues-NodupKeys (alerts_of R id alerts)) c))
      | inr q ↦
          let other : entry_id ≢ id = ground arith in
          rw q (
            sync_other-IsCurrent entry_id (wanted_issues (alerts_of R entry_id alerts)) wanted
              w.registry other (wanted_issues-NodupKeys (alerts_of R entry_id alerts)) c)
    ]

    fixed-IsCurrent :
        (uuid : Key) (wanted : Dict Key Wanted) (s : R.State)
        → IsCurrent wanted s
        → IsCurrent wanted (R.delete s domain uuid)
    unfolding IsCurrent
    fixed-IsCurrent uuid wanted s c =
        λ k issue h o. c k issue (ground (arith, laws.issue_at-delete s domain uuid domain k)) o

    run-IsCurrent_from :
        (w : World R) (events : List Event)
        → IsCurrent [] w.registry
        → IsCurrent (asked id w events) (run R w events).registry
    unfolding run asked happen async_setup_alert_issues
    run-IsCurrent_from w [] c = c
    run-IsCurrent_from w (set_up entry_id alerts ∷ past) c =
        handle_update-IsCurrent entry_id alerts
          (record (run R w past) { listeners = entry_id ∷ (run R w past).listeners })
          (asked id w past) (run-IsCurrent_from w past c)
    run-IsCurrent_from w (updated entry_id alerts ∷ past) c =
        let before = run-IsCurrent_from w past c in
        elim (Bool-cases (contains (run R w past).listeners entry_id)) [
          | inl q ↦
              rw q (handle_update-IsCurrent entry_id alerts (run R w past) (asked id w past) before)
          | inr q ↦ rw q before
        ]
    run-IsCurrent_from w (unloaded entry_id ∷ past) c = run-IsCurrent_from w past c
    run-IsCurrent_from w (fixed uuid ∷ past) c =
        fixed-IsCurrent uuid (asked id w past) (run R w past).registry (run-IsCurrent_from w past c)

    -- In a registry that keeps to its contract and has no issue of the entry's at first, whatever
    -- entries are set up and unloaded, whatever alerts their coordinators get, and whatever is
    -- fixed, in whatever order: an issue of the entry's is always the one that an alert asks for,
    -- of the alerts that the entry heard last and could read.
    pub run-IsCurrent :
        (w : World R) (events : List Event)
        → ((k : Key) (issue : Issue)
            → R.issue_at w.registry domain k ≡ some issue
            → is_ours id domain issue ≡ false)
        → (k : Key) (issue : Issue) → R.issue_at (run R w events).registry domain k ≡ some issue
        → is_ours id domain issue ≡ true
        → (x : Wanted) × (Dict.lookup k (asked id w events) ≡ some x) × (issue ≡ issue_of id x)
    unfolding IsCurrent
    run-IsCurrent w events none_at_first k issue h o =
        run-IsCurrent_from w events (λ j i p q. cc (none_at_first j i p)) k issue h o
