-- ===== src/Repairs/Flow.antt =====
-- repairs.py, TrueNASAlertRepairsFlow and `async_create_fix_flow`: confirming an issue dismisses its
-- alert and deletes it. The registry and the client's state are changed one after the other.
use ha_truenas_ng.Base.{
  ◌≡◌, refl, Option, none, some, [], ◌∷◌, ◌==◌, arith, if◌then◌else◌, string_eq,
}
use ha_truenas_ng.Result.{Result, ok, err}
use ha_truenas_ng.Value.{Value, str, Fields, end}
use ha_truenas_ng.Value.Access.{get_or}
use ha_truenas_ng.Value.Key.{Key, key_eq, hash_key}
use ha_truenas_ng.Coordinator.{Caller}
use ha_truenas_ng.Repairs.{domain}
use ha_truenas_ng.Repairs.Issues.{Registry, IsLawful}

-- The entry and the alert of a flow.
pub record Flow : Type 0 where
  pub entry_id : Value
  pub uuid : Value

-- `data or {}`, and its fields with their defaults.
abbrev payload_of : Option Fields → Fields
payload_of none = end
payload_of (some payload) = payload

unfoldable pub async_create_fix_flow : Value → Option Fields → Flow
async_create_fix_flow issue_id payload = record {
  entry_id = get_or (payload_of payload) "entry_id" (str "");
  uuid = get_or (payload_of payload) "uuid" issue_id;
}

pub data FixResult : Type 0 where
  confirm_form fixed : FixResult

-- `client_of` is the client of the entry with an id, if it is there and loaded.
module _ (R : Registry) {S : Type 0} (client_of : Value → Option (Caller S)) where
  open R use {State, delete, issue_at}

  -- The key of the issue goes once the request has been answered.
  abbrev pub delete_after : Result Key → State → S → Result FixResult × State × S
  delete_after (ok key) s w = (ok fixed, delete s domain key, w)
  delete_after (err e) s w = (err e, s, w)

  abbrev pub after_call : Value → Result Value × S → State → Result FixResult × State × S
  after_call uuid (ok reply, w) s = delete_after (hash_key uuid) s w
  after_call uuid (err e, w) s = (err e, s, w)

  abbrev pub dismiss : Value → Option (Caller S) → State → S → Result FixResult × State × S
  dismiss uuid none s w = delete_after (hash_key uuid) s w
  dismiss uuid (some call) s w = after_call uuid (call "alert.dismiss" (uuid ∷ []) w) s

  -- `none` shows the form.
  unfoldable pub async_step_confirm :
      Flow → Option (Unit {0}) → State → S → Result FixResult × State × S
  async_step_confirm flow none s w = (ok confirm_form, s, w)
  async_step_confirm flow (some _) s w = dismiss flow.uuid (client_of flow.entry_id) s w

  module _ (laws : IsLawful R) (s : State) (j : Key) where
    abbrev pub Kept : State → Type 0
    Kept t = issue_at t domain j ≡ issue_at s domain j

    -- An issue is deleted under the key that the alert's identifier makes, and no other is.
    pub Deleted : Result Key → Result FixResult × State × S → Type 0
    Deleted (ok key) (r, t, w) =
        (r ≡ ok fixed) × (issue_at t domain j ≡ (if j == key then none else issue_at s domain j))
    Deleted (err e) (r, t, w) = (r ≡ err e) × Kept t

    -- What becomes of an issue of the integration, by how the request that dismisses the alert went.
    pub Answered : Value → Result Value → Result FixResult × State × S → Type 0
    Answered uuid (ok reply) m = Deleted (hash_key uuid) m
    Answered uuid (err e) (r, t, w) = (r ≡ err e) × Kept t

    pub Dismissed : Value → Option (Caller S) → S → Result FixResult × State × S → Type 0
    Dismissed uuid none w m = Deleted (hash_key uuid) m
    Dismissed uuid (some call) w m = Answered uuid (call "alert.dismiss" (uuid ∷ []) w).0 m

    pub Confirmed : Flow → Option (Unit {0}) → S → Result FixResult × State × S → Type 0
    Confirmed flow none w (r, t, u) = (r ≡ ok confirm_form) × Kept t
    Confirmed flow (some _) w m = Dismissed flow.uuid (client_of flow.entry_id) w m

    delete_after-Deleted : (r : Result Key) (w : S) → Deleted r (delete_after r s w)
    unfolding Deleted
    delete_after-Deleted (ok key) w =
        (refl, ground (arith, laws.issue_at-delete s domain key domain j))
    delete_after-Deleted (err e) w = (refl, refl)

    after_call-Answered :
        (uuid : Value) (r : Result Value × S) → Answered uuid r.0 (after_call uuid r s)
    unfolding Answered
    after_call-Answered uuid (ok reply, w) = delete_after-Deleted (hash_key uuid) w
    after_call-Answered uuid (err e, w) = (refl, refl)

    dismiss-Dismissed :
        (uuid : Value) (c : Option (Caller S)) (w : S) → Dismissed uuid c w (dismiss uuid c s w)
    unfolding Dismissed
    dismiss-Dismissed uuid none w = delete_after-Deleted (hash_key uuid) w
    dismiss-Dismissed uuid (some call) w =
        after_call-Answered uuid (call "alert.dismiss" (uuid ∷ []) w)

    -- In a registry that keeps to its contract: a flow that is not confirmed yet shows the form and
    -- leaves every issue of the integration. One that is confirmed asks the client of its entry, if
    -- there is one, to dismiss its alert. If the request fails, the flow fails with the same error
    -- and leaves every issue. If it was answered, or there is no client, the issue of the alert is
    -- deleted and no other, and the flow is done; an alert whose identifier cannot be hashed makes
    -- it fail with that error, and leaves every issue.
    pub async_step_confirm-Confirmed :
        (flow : Flow) (input : Option (Unit {0})) (w : S)
        → Confirmed flow input w (async_step_confirm flow input s w)
    unfolding async_step_confirm Confirmed
    async_step_confirm-Confirmed flow none w = (refl, refl)
    async_step_confirm-Confirmed flow (some _) w =
        dismiss-Dismissed flow.uuid (client_of flow.entry_id) w
