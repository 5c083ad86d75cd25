-- ===== src/Repairs/RoundTrip.antt =====
-- From an alert to its issue, and from the issue back to the alert: what the sync stores in an
-- issue's data is what the flow that fixes the issue reads.
use ha_truenas_ng.Base.{
  ◌≡◌, refl, ◌∙◌, ap, String, Option, none, some, List, [], ◌∷◌, string_eq, arith, inl, inr,
  Bool-cases,
}
use ha_truenas_ng.Base.Dict
use ha_truenas_ng.Base.Dict.{Dict}
use mathlib.Core.Path.{subst}
use ha_truenas_ng.Result.{ok, fold_result, ok-injective, bind-ok}
use ha_truenas_ng.Value.{Value, str, Fields}
use ha_truenas_ng.Value.Access.{get, get_or, find, truthy, as_dict, iterate}
use ha_truenas_ng.Value.Key.{Key, key_eq, hash_key}
use ha_truenas_ng.Coordinator.{Caller}
use ha_truenas_ng.Repairs.{
  domain, Wanted, severity_of, want, consider, wanted_issues, issue_of, async_sync_alert_issues,
}
use ha_truenas_ng.Repairs.Flow.{async_create_fix_flow, async_step_confirm, fixed}
use ha_truenas_ng.Repairs.Issues.{Severity, Registry, Issue, IsLawful}
use ha_truenas_ng.Repairs.Sync.{settled, async_sync_alert_issues-settled}

-- Every wanted issue stands under the key of its alert's uuid.
abbrev IsKeyed : Dict Key Wanted → Type 0
IsKeyed wanted = (k : Key) (w : Wanted) → Dict.lookup k wanted ≡ some w → hash_key w.uuid ≡ ok k

insert-IsKeyed :
    (key : Key) (w : Wanted) (wanted : Dict Key Wanted)
    → hash_key w.uuid ≡ ok key
    → IsKeyed wanted
    → IsKeyed (Dict.insert key w wanted)
insert-IsKeyed key w wanted p u k x h =
    ground (arith, Dict.lookup-insert k key w wanted, u k x, key_eq.dec k key)

want-IsKeyed :
    (alert : Fields) (severity : Option Severity) (wanted wanted' : Dict Key Wanted)
    → IsKeyed wanted
    → want alert severity wanted ≡ ok wanted'
    → IsKeyed wanted'
unfolding want
want-IsKeyed alert none wanted wanted' u h = subst IsKeyed (ok-injective h) u
want-IsKeyed alert (some severity) wanted wanted' u h =
    elim (Bool-cases (truthy (get alert "uuid"))) [
      | inl q ↦
          let (key, p, k) = bind-ok (hash_key (get alert "uuid")) _ (rw q at h) in
          subst IsKeyed (ok-injective k) (insert-IsKeyed key _ wanted p u)
      | inr q ↦ subst IsKeyed (ok-injective (rw q at h)) u
    ]

consider-IsKeyed :
    (wanted wanted' : Dict Key Wanted) (v : Value)
    → IsKeyed wanted
    → consider wanted v ≡ ok wanted'
    → IsKeyed wanted'
unfolding consider
consider-IsKeyed wanted wanted' v u h =
    let (alert, _, k) = bind-ok (as_dict v) _ h in
    elim (Bool-cases (truthy (get alert "dismissed"))) [
      | inl q ↦ subst IsKeyed (ok-injective (rw q at k)) u
      | inr q ↦
          let (severity, _, m) = bind-ok (severity_of (get alert "level")) _ (rw q at k) in
          want-IsKeyed alert severity wanted wanted' u m
    ]

fold-IsKeyed :
    (vs : List Value) (wanted wanted' : Dict Key Wanted)
    → IsKeyed wanted
    → fold_result consider wanted vs ≡ ok wanted'
    → IsKeyed wanted'
unfolding fold_result
fold-IsKeyed [] wanted wanted' u h = subst IsKeyed (ok-injective h) u
fold-IsKeyed (v ∷ vs) wanted wanted' u h =
    let (next, p, k) = bind-ok (consider wanted v) _ h in
    fold-IsKeyed vs next wanted' (consider-IsKeyed wanted next v u p) k

wanted_issues-IsKeyed :
    (alerts : Value) (wanted : Dict Key Wanted) → wanted_issues alerts ≡ ok wanted → IsKeyed wanted
unfolding wanted_issues Dict.lookup
wanted_issues-IsKeyed alerts wanted h =
    let (vs, _, k) = bind-ok (iterate alerts) _ h in fold-IsKeyed vs [] wanted (λ j w p. cc) k

-- The flow of a wanted issue.
flow-issue_of :
    (entry_id : String) (w : Wanted) (id : Value)
    → async_create_fix_flow id (issue_of entry_id w).payload
      ≡ record { entry_id = str entry_id; uuid = w.uuid }
unfolding async_create_fix_flow issue_of get_or find string_eq
flow-issue_of entry_id w id = refl

-- Once the sync is over.
abbrev pub after_sync : (R : Registry) → String → Value → R.State → R.State
after_sync R entry_id alerts s = (async_sync_alert_issues R entry_id (some alerts) s).1

module _ (R : Registry) (laws : IsLawful R) (entry_id : String) {S : Type 0}
    (client_of : Value → Option (Caller S)) where
  -- The end of a flow that dismisses `w`.
  abbrev pub IsFixed : Value → Key → R.State → S → S → Issue → Type 0
  IsFixed id k t u u' issue =
      (R.issue_at t domain k ≡ some issue)
      × (async_step_confirm R client_of (async_create_fix_flow id issue.payload) (some tt) t u
          ≡ (ok fixed, R.delete t domain k, u'))
      × (R.issue_at (R.delete t domain k) domain k ≡ none)

  confirmed-dismisses :
      (w : Wanted) (k : Key) (id : Value) (t : R.State) (u u' : S) (call : Caller S) (reply : Value)
      → hash_key w.uuid ≡ ok k
      → client_of (str entry_id) ≡ some call
      → call "alert.dismiss" (w.uuid ∷ []) u ≡ (ok reply, u')
      → async_step_confirm R client_of
          (async_create_fix_flow id (issue_of entry_id w).payload)
          (some tt)
          t
          u
        ≡ (ok fixed, R.delete t domain k, u')
  unfolding async_step_confirm
  confirmed-dismisses w k id t u u' call reply p q r = rw (flow-issue_of entry_id w id, q, r, p)

  -- In a registry that keeps to its contract, after a sync with alerts that can be read there is an
  -- issue under the key of every alert that asks for one; and confirming the flow of that issue, at
  -- an entry whose client answers, sends `alert.dismiss` with the uuid of that alert to the entry
  -- that made the issue, and deletes the issue.
  pub async_step_confirm-async_sync_alert_issues :
      (alerts : Value) (wanted : Dict Key Wanted) (w : Wanted) (k : Key) (id : Value) (s : R.State)
      (u u' : S) (call : Caller S) (reply : Value)
      → wanted_issues alerts ≡ ok wanted
      → Dict.lookup k wanted ≡ some w
      → client_of (str entry_id) ≡ some call
      → call "alert.dismiss" (w.uuid ∷ []) u ≡ (ok reply, u')
      → IsFixed id k (after_sync R entry_id alerts s) u u' (issue_of entry_id w)
  async_step_confirm-async_sync_alert_issues alerts wanted w k id s u u' call reply h p q r = (
    async_sync_alert_issues-settled R laws entry_id alerts wanted s k h
        ∙ ap (λ o. settled entry_id o (R.issue_at s domain k)) p,
    confirmed-dismisses w k id (after_sync R entry_id alerts s) u u' call reply
        (wanted_issues-IsKeyed alerts wanted h k w p) q r,
    ground (arith, laws.issue_at-delete (after_sync R entry_id alerts s) domain k domain k),
  )
