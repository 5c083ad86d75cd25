-- ===== src/Sensor/Readings.antt =====
-- What the sensors' conversions give.
use ha_truenas_ng.Base.{
  ◌≡◌, ◌≢◌, ◌↔◌, ◌∙◌, refl, ap, sym, String, Bool, true, false, ℕ, zero, suc, ◌+◌, Option, some,
  List, [], ◌∷◌, arith, Bool-cases, inl, inr, eqb, string_eq, if◌then◌else◌,
}
use ha_truenas_ng.Base.Int.{ℤ, pos, negsuc}
use ha_truenas_ng.Base.Dict
use ha_truenas_ng.Base.Dict.{Dict}
use ha_truenas_ng.Result.{
  Exc, ok, err, overflow_error, ok-injective, bind-ok, bind-err, zero_division, ◌>>=◌,
}
use ha_truenas_ng.Value.{Value, bool, float, str, Fields}
use ha_truenas_ng.Value.Access.{as_dict, get, get_or, truthy, iterate}
use ha_truenas_ng.Value.Float.{exponent, fraction, int_of_float}
use ha_truenas_ng.Value.Runtime.{Runtime, int_of, to_int, percent}
use ha_truenas_ng.Sensor.{
  share, share_of_total, used_share, parsed, pool_used_pct, dataset_used_pct, count_active,
  count_levels, alerts_active, alerts_by_level, count_or_zero, level_of,
}

-- An infinity, which the JSON reader of the standard library accepts.
abbrev pub is_infinite : Value → Bool
is_infinite (float bits) = if eqb (exponent bits) 2047 then eqb (fraction bits) 0 else false
is_infinite _ = false

module _ (py : Runtime) where
  -- `to_int` raises exactly on the infinities, and then an OverflowError; everything else that is no
  -- number it turns into nothing.
  pub to_int_raises :
      (v : Value) (e : Exc)
      → (to_int py v ≡ err e) ↔ ((is_infinite v ≡ true) × (e ≡ overflow_error))
  unfolding to_int int_of int_of_float
  to_int_raises (float bits) e = ground arith
  to_int_raises (bool true) e = ground arith
  to_int_raises (bool false) e = ground arith
  to_int_raises (str s) e = ground arith
  to_int_raises _ e = ground arith

  -- The sum of a table of counts.
  pub total : Dict String ℕ → ℕ
  total [] = 0
  total ((level, n) ∷ levels) = n + total levels

  total-insert :
      (level : String) (levels : Dict String ℕ)
      → total (Dict.insert level (count_or_zero py (Dict.lookup level levels) + 1) levels)
        ≡ total levels + 1
  unfolding total Dict.insert Dict.lookup
  total-insert level [] = omega arith
  total-insert level ((k, n) ∷ levels) = ground (arith, total-insert level levels)

  count_levels-total :
      (vs : List Value) (levels counted : Dict String ℕ) (n : ℕ)
      → count_levels py levels vs ≡ ok counted
      → count_active py vs ≡ ok n
      → total counted ≡ total levels + n
  unfolding count_levels count_active
  count_levels-total [] levels counted n h k =
      omega (arith, ap total (ok-injective h), ok-injective k)
  count_levels-total (v ∷ vs) levels counted n h k =
      let (alert, a, h₁) = bind-ok (as_dict v) _ h in
      let (alert', b, k₁) = bind-ok (as_dict v) _ k in
      let (rest, r, k₂) = bind-ok (count_active py vs) _ k₁ in
      let same : alert' ≡ alert = ok-injective (sym b ∙ a) in
      elim (Bool-cases (truthy (get_or alert "dismissed" (bool false)))) [
        | inl q ↦
            let ih = count_levels-total vs _ counted rest (rw q at h₁) r in
            omega (arith, ih, ok-injective (rw (same, q) at k₂))
        | inr q ↦
            let ih = count_levels-total vs _ counted rest (rw q at h₁) r in
            omega (
              arith,
              ih,
              total-insert (level_of py alert) levels,
              ok-injective (rw (same, q) at k₂),
            )
      ]

  -- The counts by level add up to the number of active alerts, whenever the two can be read.
  pub alerts_by_level-total :
      (alerts : Value) (counted : Dict String ℕ) (n : ℕ)
      → alerts_by_level py alerts ≡ ok counted
      → alerts_active py alerts ≡ ok n
      → total counted ≡ n
  unfolding alerts_by_level alerts_active total
  alerts_by_level-total alerts counted n h k =
      let (vs, a, h₁) = bind-ok (iterate alerts) _ h in
      let (ws, b, k₁) = bind-ok (iterate alerts) _ k in
      let same : ws ≡ vs = ok-injective (sym b ∙ a) in
      omega (arith, count_levels-total vs [] counted n h₁ (rw same at k₁), total_nil)
    where
      total_nil : total [] ≡ 0
      total_nil = refl

  -- What the sensors rely on of `/`: only a division by 0 raises ZeroDivisionError.
  abbrev pub DividesSafely : Type 0
  DividesSafely = (a b : ℤ) → py.div_int a b ≡ err zero_division → b ≡ pos 0

  percent-safe : DividesSafely → (a b : ℤ) → b ≢ pos 0 → percent py a b ≢ err zero_division
  unfolding percent
  percent-safe safe a b h k = elim (bind-err (py.div_int a b) _ k) [
    | inl p ↦ h (safe a b p)
    | inr (x, p, q) ↦ cc
  ]

  shown-safe :
      DividesSafely
      → (a b : ℤ) → b ≢ pos 0
      → (percent py a b >>= λ x. ok (float x)) ≢ err zero_division
  shown-safe safe a b h k = elim (bind-err (percent py a b) _ k) [
    | inl p ↦ percent-safe safe a b h p
    | inr (x, p, q) ↦ cc
  ]

  to_int-safe : (v : Value) → to_int py v ≢ err zero_division
  to_int-safe v h = cc (((to_int_raises v zero_division).0 h).1)

  share-safe : DividesSafely → (used size : Option ℤ) → share py used size ≢ err zero_division
  unfolding share
  share-safe safe (some used) (some (pos zero)) h = cc
  share-safe safe (some used) (some (pos (suc n))) h =
      shown-safe safe used (pos (suc n)) (λ p. ground arith) h
  share-safe safe (some used) (some (negsuc n)) h = shown-safe safe used (negsuc n) (λ p. cc) h
  share-safe safe _ _ h = cc

  pool_used_pct-safe : (pool : Fields) → DividesSafely → pool_used_pct py pool ≢ err zero_division
  unfolding pool_used_pct
  pool_used_pct-safe pool safe h = elim (bind-err (to_int py (get pool "allocated")) _ h) [
    | inl p ↦ to_int-safe _ p
    | inr (used, _, h₁) ↦ elim (bind-err (to_int py (get pool "size")) _ h₁) [
      | inl p ↦ to_int-safe _ p
      | inr (size, _, h₂) ↦ share-safe safe used size h₂
    ]
  ]

  share_of_total-safe :
      DividesSafely → (used whole : ℤ) → share_of_total py used whole ≢ err zero_division
  unfolding share_of_total
  share_of_total-safe safe used (pos zero) h = cc
  share_of_total-safe safe used (pos (suc n)) h =
      shown-safe safe used (pos (suc n)) (λ p. ground arith) h
  share_of_total-safe safe used (negsuc n) h = cc

  used_share-safe :
      DividesSafely → (used avail : Option ℤ) → used_share py used avail ≢ err zero_division
  unfolding used_share
  used_share-safe safe (some used) (some avail) h = share_of_total-safe safe used _ h
  used_share-safe safe _ _ h = cc

  dataset_used_pct-safe : (ds : Fields) → DividesSafely → dataset_used_pct py ds ≢ err zero_division
  unfolding dataset_used_pct
  dataset_used_pct-safe ds safe h = elim (bind-err (to_int py (parsed (get ds "used"))) _ h) [
    | inl p ↦ to_int-safe _ p
    | inr (used, _, h₁) ↦ elim (bind-err (to_int py (parsed (get ds "available"))) _ h₁) [
      | inl p ↦ to_int-safe _ p
      | inr (avail, _, h₂) ↦ used_share-safe safe used avail h₂
    ]
  ]

  -- The percentages of a pool and of a dataset never divide by 0, whatever the API gives for their
  -- sizes, if the runtime's `/` raises ZeroDivisionError only for a divisor that is 0.
  pub used_pct-safe :
      (fs : Fields)
      → DividesSafely
      → (pool_used_pct py fs ≢ err zero_division) × (dataset_used_pct py fs ≢ err zero_division)
  used_pct-safe fs safe = (pool_used_pct-safe fs safe, dataset_used_pct-safe fs safe)
