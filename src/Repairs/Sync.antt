-- ===== src/Repairs/Sync.antt =====
-- What a sync leaves in the issue registry.
use ha_truenas_ng.Base.{
  ◌≡◌, ◌≢◌, refl, String, Bool, false, ◌&&◌, not, Option, none, some, List, [], ◌∷◌, ◌==◌,
  string_eq, contains, arith, inl, inr, Bool-cases, if◌then◌else◌,
}
use ha_truenas_ng.Base.Dict
use ha_truenas_ng.Base.Dict.{Dict, NodupKeys}
use mathlib.Core.Path.{subst}
use ha_truenas_ng.Value.{Value, Fields}
use ha_truenas_ng.Value.Access.{get, truthy, as_dict, iterate}
use ha_truenas_ng.Result.{Result, ok, err, fold_result, ok-injective, bind-ok}
use ha_truenas_ng.Value.Key.{Key, key_eq, hash_key}
use ha_truenas_ng.Repairs.{
  alerts_of, reconciled, severity_of, async_sync_alert_issues, consider, want, wanted_issues,
  Wanted, domain, issue_of, is_ours, existing, create_all, delete_all, reconcile,
}
use ha_truenas_ng.Repairs.Issues.{Severity, Registry, Issue, IsLawful, listed, AreDistinct}

-- The issue that should stand where `old` stood: the one an alert asks for, or what was there
-- unless it was made by this entry.
abbrev pub settled : String → Option Wanted → Option Issue → Option Issue
settled entry_id (some w) old = some (issue_of entry_id w)
settled entry_id none none = none
settled entry_id none (some issue) = if is_ours entry_id domain issue then none else some issue

want-NodupKeys :
    (alert : Fields) (severity : Option Severity) (wanted wanted' : Dict Key Wanted)
    → NodupKeys wanted
    → want alert severity wanted ≡ ok wanted'
    → NodupKeys wanted'
unfolding want
want-NodupKeys alert none wanted wanted' u h = subst (λ d. NodupKeys d) (ok-injective h) u
want-NodupKeys alert (some severity) wanted wanted' u h =
    elim (Bool-cases (truthy (get alert "uuid"))) [
      | inl q ↦
          let (key, _, k) = bind-ok (hash_key (get alert "uuid")) _ (rw q at h) in
          subst (λ d. NodupKeys d) (ok-injective k) (Dict.insert-NodupKeys key _ wanted u)
      | inr q ↦ subst (λ d. NodupKeys d) (ok-injective (rw q at h)) u
    ]

consider-NodupKeys :
    (wanted wanted' : Dict Key Wanted) (v : Value)
    → NodupKeys wanted
    → consider wanted v ≡ ok wanted'
    → NodupKeys wanted'
unfolding consider
consider-NodupKeys wanted wanted' v u h =
    let (alert, _, k) = bind-ok (as_dict v) _ h in
    elim (Bool-cases (truthy (get alert "dismissed"))) [
      | inl q ↦ subst (λ d. NodupKeys d) (ok-injective (rw q at k)) u
      | inr q ↦
          let (severity, _, m) = bind-ok (severity_of (get alert "level")) _ (rw q at k) in
          want-NodupKeys alert severity wanted wanted' u m
    ]

fold-NodupKeys :
    (vs : List Value) (wanted wanted' : Dict Key Wanted)
    → NodupKeys wanted
    → fold_result consider wanted vs ≡ ok wanted'
    → NodupKeys wanted'
unfolding fold_result
fold-NodupKeys [] wanted wanted' u h = subst (λ d. NodupKeys d) (ok-injective h) u
fold-NodupKeys (v ∷ vs) wanted wanted' u h =
    let (next, a, k) = bind-ok (consider wanted v) _ h in
    fold-NodupKeys vs next wanted' (consider-NodupKeys wanted next v u a) k

pub wanted_issues-NodupKeys :
    (alerts : Value) (wanted : Dict Key Wanted)
    → wanted_issues alerts ≡ ok wanted
    → NodupKeys wanted
unfolding wanted_issues
wanted_issues-NodupKeys alerts wanted h =
    let (vs, _, k) = bind-ok (iterate alerts) _ h in fold-NodupKeys vs [] wanted tt k

module _ (R : Registry) (laws : IsLawful R) (entry_id : String) where
  -- What is asked for, or else what was there.
  abbrev asked : Option Wanted → Option Issue → Option Issue
  asked none old = old
  asked (some w) old = some (issue_of entry_id w)

  create_all-at :
      (wanted : Dict Key Wanted) (s : R.State) (k : Key)
      → NodupKeys wanted
      → R.issue_at (create_all R entry_id wanted s) domain k
        ≡ asked (Dict.lookup k wanted) (R.issue_at s domain k)
  unfolding create_all Dict.lookup
  create_all-at [] s k u = refl
  create_all-at ((id, w) ∷ wanted) s k (fresh, u) = ground (
    arith,
    create_all-at wanted (R.create s domain id (issue_of entry_id w)) k u,
    laws.issue_at-create s domain id (issue_of entry_id w) domain k,
  )

  create_all-elsewhere :
      (wanted : Dict Key Wanted) (s : R.State) (d : String) (k : Key)
      → d ≢ domain
      → R.issue_at (create_all R entry_id wanted s) d k ≡ R.issue_at s d k
  unfolding create_all
  create_all-elsewhere [] s d k h = refl
  create_all-elsewhere ((id, w) ∷ wanted) s d k h = ground (
    arith,
    create_all-elsewhere wanted (R.create s domain id (issue_of entry_id w)) d k h,
    laws.issue_at-create s domain id (issue_of entry_id w) d k,
  )

  delete_all-at :
      (wanted : Dict Key Wanted) (ids : List Key) (s : R.State) (d : String) (k : Key)
      → R.issue_at (delete_all R entry_id wanted ids s) d k ≡ (
          if d == domain && (contains ids k && not (Dict.has_key k wanted))
          then none
          else R.issue_at s d k)
  unfolding delete_all
  delete_all-at wanted [] s d k = ground arith
  delete_all-at wanted (id ∷ ids) s d k = ground (
    arith,
    delete_all-at wanted ids (if Dict.has_key id wanted then s else R.delete s domain id) d k,
    laws.issue_at-delete s domain id d k,
  )

  abbrev ours_at : Option Issue → Bool
  ours_at none = false
  ours_at (some issue) = is_ours entry_id domain issue

  contains-existing :
      (l : List (String × Key × Issue)) (k : Key)
      → AreDistinct l
      → contains (existing R entry_id l) k ≡ ours_at (listed domain k l)
  unfolding existing is_ours
  contains-existing [] k u = refl
  contains-existing ((d, id, issue) ∷ l) k (fresh, u) = ground (arith, contains-existing l k u)

  pub reconcile-at :
      (wanted : Dict Key Wanted) (s : R.State) (k : Key)
      → NodupKeys wanted
      → R.issue_at (reconcile R entry_id wanted s) domain k
        ≡ settled entry_id (Dict.lookup k wanted) (R.issue_at s domain k)
  unfolding reconcile Dict.has_key
  reconcile-at wanted s k u = ground (
    arith,
    delete_all-at wanted (existing R entry_id (R.issues s)) (create_all R entry_id wanted s) domain
        k,
    create_all-at wanted s k u,
    contains-existing (R.issues s) k (laws.issues-AreDistinct s),
    laws.listed-issues s domain k,
  )

  -- In a registry that keeps to its contract, a sync with alerts that can be read leaves under each
  -- identifier of the integration's domain the issue of the alert that asks for it, and otherwise
  -- what was there, unless this entry had made it: then nothing is left.
  pub async_sync_alert_issues-settled :
      (alerts : Value) (wanted : Dict Key Wanted) (s : R.State) (k : Key)
      → wanted_issues alerts ≡ ok wanted
      → R.issue_at (async_sync_alert_issues R entry_id (some alerts) s).1 domain k
        ≡ settled entry_id (Dict.lookup k wanted) (R.issue_at s domain k)
  unfolding async_sync_alert_issues
  async_sync_alert_issues-settled alerts wanted s k h =
      rw h (reconcile-at wanted s k (wanted_issues-NodupKeys alerts wanted h))

  reconcile-elsewhere :
      (wanted : Dict Key Wanted) (s : R.State) (d : String) (k : Key)
      → d ≢ domain
      → R.issue_at (reconcile R entry_id wanted s) d k ≡ R.issue_at s d k
  unfolding reconcile
  reconcile-elsewhere wanted s d k h = ground (
    arith,
    delete_all-at wanted (existing R entry_id (R.issues s)) (create_all R entry_id wanted s) d k,
    create_all-elsewhere wanted s d k h,
  )

  reconciled-elsewhere :
      (r : Result (Dict Key Wanted)) (s : R.State) (d : String) (k : Key)
      → d ≢ domain
      → R.issue_at (reconciled R entry_id r s).1 d k ≡ R.issue_at s d k
  reconciled-elsewhere (ok wanted) s d k h = reconcile-elsewhere wanted s d k h
  reconciled-elsewhere (err e) s d k h = refl

  -- In a registry that keeps to its contract, a sync touches no issue of another domain, also when
  -- it raises.
  pub async_sync_alert_issues-elsewhere :
      (alerts : Option Value) (s : R.State) (d : String) (k : Key)
      → d ≢ domain
      → R.issue_at (async_sync_alert_issues R entry_id alerts s).1 d k ≡ R.issue_at s d k
  unfolding async_sync_alert_issues
  async_sync_alert_issues-elsewhere alerts s d k h =
      reconciled-elsewhere (wanted_issues (alerts_of R entry_id alerts)) s d k h
