-- ===== src/ConfigFlow/Bounds.antt =====
-- The options that the form saves.
use ha_truenas_ng.Base.{
  ◌≡◌, zero, suc, refl, ◌∙◌, ap, Bool, true, string_eq, Option, none, some, arith, All, Bool-cases,
  inl, inr, String,
}
use ha_truenas_ng.Base.Int.{ℤ, pos, negsuc, ◌≤ℤ◌, ltb_ℤ}
use ha_truenas_ng.Result.{ok, bind-ok, ok-injective}
use ha_truenas_ng.Value.{Value, int, bool, Fields}
use ha_truenas_ng.Value.Access.{get_or, or_value, truthy}
use ha_truenas_ng.Value.Runtime.{Runtime, to_int}
use ha_truenas_ng.Setup.{Options, options_of, coordinators_of, min_scan_interval}
use ha_truenas_ng.Coordinator.Polling.{
  storage_coordinator, dataset_coordinator, system_coordinator, reporting_coordinator,
  update_coordinator, apps_coordinator, vms_coordinator,
}
use ha_truenas_ng.ConfigFlow.{interval, in_range}
use ha_truenas_ng.ConfigFlow.Options.{
  interval_field, bool_field, schema_of, distinct_keys, accept, Accepted, Voluptuous, Validates,
  submit, saved, shown, options_entry, async_step_init,
}

-- Seconds, five at least.
abbrev pub IsInterval : Value → Type 0
IsInterval v = (n : ℤ) × (v ≡ int n) × (min_scan_interval ≤ℤ n)

abbrev pub IsToggle : Value → Type 0
IsToggle v = (b : Bool) × (v ≡ bool b)

abbrev pub HasToggles : Options → Type 0
HasToggles o =
    IsToggle o.enable_datasets
    × IsToggle o.enable_disks
    × IsToggle o.enable_reporting
    × IsToggle o.enable_service_controls
    × IsToggle o.enable_apps
    × IsToggle o.enable_vms

-- Between two polls of a coordinator there are five seconds at least, and the toggles are booleans.
abbrev pub IsTuned : Options → Type 0
IsTuned o = All (λ c. IsInterval c.update_interval) (coordinators_of o) × HasToggles o

-- An interval is not 0, so no default takes its place.
or_value-IsInterval : (v d : Value) → IsInterval v → IsInterval (or_value v d)
unfolding or_value truthy
or_value-IsInterval v d (pos zero, p, q) = absurd (omega arith)
or_value-IsInterval v d (pos (suc n), p, q) = rw p (pos (suc n), refl, q)
or_value-IsInterval v d (negsuc n, p, q) = absurd (omega arith)

in_range-IsInterval : (n : Option ℤ) (w : Value) → shown (in_range n) ≡ some w → IsInterval w
in_range-IsInterval none w h = cc
in_range-IsInterval (some n) w h = elim (Bool-cases (ltb_ℤ n min_scan_interval)) [
  | inl q ↦ cc (rw q at h)
  | inr q ↦ (n, cc (rw q at h), ground arith)
]

schema_keys : (o : Options) → distinct_keys (schema_of o) ≡ true
unfolding schema_of distinct_keys string_eq
schema_keys o = refl

user_input_of :
    (opts : Fields) (u : Option Fields) (out : Fields)
    → saved opts u ≡ some (options_entry out)
    → u ≡ some out
unfolding async_step_init
user_input_of opts none out h = cc
user_input_of opts (some f) out h = cc

module _ (py : Runtime) where
  accept-IsInterval : (v w : Value) → accept py interval_field v ≡ ok (some w) → IsInterval w
  unfolding accept interval
  accept-IsInterval v w h =
      let (m, p, k) = bind-ok (interval py v) _ h in
      let (n, _, q) = bind-ok (to_int py v) _ p in
      in_range-IsInterval n w (ap shown (ok-injective q) ∙ ok-injective k)

  accept-IsToggle : (v w : Value) → accept py bool_field v ≡ ok (some w) → IsToggle w
  unfolding accept
  accept-IsToggle (bool b) w h = (b, ground arith)
  accept-IsToggle _ w h = ground arith

  -- What an accepted row leaves in the options that are saved.
  saved-IsInterval :
      (input out : Fields) (key : String) (default d : Value)
      → Accepted py input out (record { key = key; default = default; validator = interval_field })
      → IsInterval (get_or out key d)
  unfolding get_or
  saved-IsInterval input out key default d (w, a, p) = rw p (accept-IsInterval _ w a)

  -- And in the coordinator that is built of it.
  polled :
      (input out : Fields) (key : String) (default d e : Value)
      → Accepted py input out (record { key = key; default = default; validator = interval_field })
      → IsInterval (or_value (get_or out key d) e)
  polled input out key default d e a =
      or_value-IsInterval _ _ (saved-IsInterval input out key default d a)

  saved-IsToggle :
      (input out : Fields) (key : String) (default d : Value)
      → Accepted py input out (record { key = key; default = default; validator = bool_field })
      → IsToggle (get_or out key d)
  unfolding get_or
  saved-IsToggle input out key default d (w, a, p) = rw p (accept-IsToggle _ w a)

  schema-IsTuned :
      (o : Options) (input out : Fields)
      → All (Accepted py input out) (schema_of o)
      → IsTuned (options_of out)
  unfolding schema_of options_of coordinators_of storage_coordinator dataset_coordinator
      system_coordinator reporting_coordinator update_coordinator apps_coordinator vms_coordinator
  schema-IsTuned o input out (a, (b, (c, (d, (e, (f, (g, (h, (i, (j, (k, (l, (m, _))))))))))))) = (
    (
      polled input out "interval_storage" _ _ _ a,
      (
        polled input out "interval_datasets" _ _ _ b,
        (
          polled input out "interval_system" _ _ _ c,
          (
            polled input out "interval_reporting" _ _ _ d,
            (
              polled input out "interval_update" _ _ _ e,
              (
                polled input out "interval_apps" _ _ _ f,
                (polled input out "interval_vms" _ _ _ g, tt),
              ),
            ),
          ),
        ),
      ),
    ),
    (
      saved-IsToggle input out "enable_datasets" _ _ h,
      saved-IsToggle input out "enable_disks" _ _ i,
      saved-IsToggle input out "enable_reporting" _ _ j,
      saved-IsToggle input out "enable_service_controls" _ _ k,
      saved-IsToggle input out "enable_apps" _ _ l,
      saved-IsToggle input out "enable_vms" _ _ m,
    ),
  )

  -- If voluptuous validates what is entered as it promises, then whatever options a submitted form
  -- saves, the seven coordinators that a setup builds of them poll at an interval that is an integer
  -- of five seconds at least, and the six toggles are booleans, whatever options were in force and
  -- whatever was entered.
  pub submit-IsTuned :
      (validate : Voluptuous)
      → Validates py validate
      → (opts input out : Fields) → submit validate opts input ≡ ok (some (options_entry out))
      → IsTuned (options_of out)
  unfolding submit
  submit-IsTuned validate V opts input out h =
      let (u, p, q) = bind-ok (validate (schema_of (options_of opts)) input) _ h in
      schema-IsTuned (options_of opts) input out (
        V (schema_of (options_of opts)) input out (schema_keys (options_of opts))
          (p ∙ ap ok (user_input_of opts u out (ok-injective q))))
