-- ===== src/ConfigFlow/Forms/Typed.antt =====
-- The data that the forms save.
use ha_truenas_ng.Base.{
  ◌≡◌, refl, ap, sym, ◌∙◌, String, Bool, Option, some, List, ◌==◌, string_eq, Bool-cases, inl, inr,
}
use ha_truenas_ng.Result.{ok}
use ha_truenas_ng.Result.Holds.{Holds, Holds-ok}
use ha_truenas_ng.Value.{str, Fields, end, field}
use ha_truenas_ng.Value.Access.{put, subscript}
use ha_truenas_ng.Value.Puts.{find-put}
use ha_truenas_ng.Value.Runtime.{Runtime}
use ha_truenas_ng.Client.{Config}
use ha_truenas_ng.Client.Upstream.{Library}
use ha_truenas_ng.ConfigFlow.{
  FlowResult, create_entry, update_reload, Probe, host, failed, user_result, same_host, async_probe,
  async_step_user, async_step_reconfigure, async_step_reauth_confirm,
}
use ha_truenas_ng.ConfigFlow.Forms.{
  Field, reauth_schema, Step, user, reconfigure, reauth, schema_of_step, config_of, probed_data,
  saved_data, result_of, submit_step, attempted, or_fields,
}
use ha_truenas_ng.ConfigFlow.Forms.Entry.{
  Validates, IsMerge, IsEntry, schema_of_step-is_dict, str-typed, user_schema-IsEntry, read,
  config_of-read, merge-IsEntry, with_key-IsEntry, find-updates,
}

abbrev pub IsOf : Step → Type 0
IsOf (user _) = Unit
IsOf (reconfigure entry _) = IsEntry entry
IsOf (reauth entry) = IsEntry entry

-- What a result says of the data that it saves.
abbrev pub Saves : FlowResult → Config → Type 0
Saves (create_entry title saved) c = (title ≡ c.host) × (saved ≡ c)
Saves (update_reload saved) c = saved ≡ c
Saves _ c = Unit

module _ (py : Runtime) where
  module _ (L : Library) (is_configured : String → Bool) (unique_id : String) where
    user_result-Saves : (c : Config) (p : Probe) → Saves (user_result py L is_configured c p) c
    user_result-Saves c (failed e) = tt
    user_result-Saves c (host id) = elim (Bool-cases (is_configured id)) [
      | inl q ↦ rw q tt
      | inr q ↦ rw q (refl, refl)
    ]

    same_host-Saves :
        (step : String) (c : Config) (p : Probe) → Saves (same_host py L step unique_id c p) c
    same_host-Saves step c (failed e) = tt
    same_host-Saves step c (host id) = elim (Bool-cases (id == unique_id)) [
      | inl q ↦ rw q refl
      | inr q ↦ rw q tt
    ]

    result_of-Saves :
        (step : Step) (c : Config) (w : L.World)
        → Saves (result_of py L is_configured unique_id step c w) c
    unfolding result_of async_step_user async_step_reconfigure async_step_reauth_confirm
    result_of-Saves (user last) c w = user_result-Saves c (async_probe py L c w).0
    result_of-Saves (reconfigure entry last) c w =
        same_host-Saves "reconfigure" c (async_probe py L c w).0
    result_of-Saves (reauth entry) c w = same_host-Saves "reauth_confirm" c (async_probe py L c w).0

    -- What a step gives, and the data that it saves if it saves any.
    abbrev pub IsTyped : Step → L.World → FlowResult × Fields → Type 0
    IsTyped step w (result, saved) =
        IsEntry saved
        × ((c : Config) × (config_of py saved ≡ ok c)
            × (result ≡ result_of py L is_configured unique_id step c w)
            × Saves result c)

    module _ (merge : Fields → Fields → Fields) (laws : IsMerge merge) where
      submitted :
          (step : Step) (probed saved : Fields) (e : IsEntry probed) (f : IsEntry saved)
          (w : L.World)
          → read py e ≡ read py f
          → IsTyped step w
              (attempted py L is_configured unique_id step (config_of py probed) w, saved)
      submitted step probed saved e f w same = rw (config_of-read py probed e) (
        f,
        (
          read py f,
          config_of-read py saved f,
          ap (λ c. result_of py L is_configured unique_id step c w) same,
          rw same (result_of-Saves step (read py f) w),
        ),
      )

      -- If voluptuous validates what is entered, and Home Assistant merges an entry's data, as they
      -- promise, and the entry has data of the right types: then with a form that was accepted no
      -- step raises anything; the data that it saves, if it saves any, has the right types under
      -- the five keys; it is read as the config that the step probed; and that config is what the
      -- result saves.
      pub submit_step-IsTyped :
          (validate : List Field → Fields → Option Fields)
          → Validates validate
          → (step : Step) → IsOf step
          → (input out : Fields) → validate (schema_of_step step) input ≡ some out
          → (w : L.World)
          → Holds
              (IsTyped step w)
              (λ _. ⊥)
              (submit_step py L is_configured unique_id merge step out w)
      unfolding submit_step probed_data saved_data schema_of_step subscript
      submit_step-IsTyped validate promises (user last) e input out h w =
          let f =
            user_schema-IsEntry (or_fields last end) input out
              (promises _ input out (schema_of_step-is_dict (user last)) h) in
          Holds-ok (IsTyped (user last) w) (λ _. ⊥) _ (submitted (user last) out out f f w refl)
      submit_step-IsTyped validate promises (reconfigure entry last) e input out h w =
          let e =
            user_schema-IsEntry (or_fields last entry) input out
              (promises _ input out (schema_of_step-is_dict (reconfigure entry last)) h) in
          let (f, same) = merge-IsEntry py merge laws entry out e in
          Holds-ok (IsTyped (reconfigure entry last) w) (λ _. ⊥) _
            (submitted (reconfigure entry last) out (merge entry out) e f w same)
      submit_step-IsTyped validate promises (reauth entry) e input out h w =
          let ((v, _, t, p), _) =
            promises reauth_schema input out (schema_of_step-is_dict (reauth entry)) h in
          let (key, q) = str-typed v t in
          let updates = field "api_key" (str key) end in
          let (f, a) =
            with_key-IsEntry py entry (put "api_key" (str key) entry) key
              (λ j. find-put j "api_key" (str key) entry) e in
          let (g, b) =
            with_key-IsEntry py entry (merge entry updates) key
              (λ j. laws j entry updates ∙ find-updates py j key entry) e in
          rw p (
            rw q (
              Holds-ok (IsTyped (reauth entry) w) (λ _. ⊥) _
                (submitted (reauth entry) (put "api_key" (str key) entry) (merge entry updates) f g
                  w (a ∙ sym b))))
