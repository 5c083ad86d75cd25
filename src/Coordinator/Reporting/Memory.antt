-- ===== src/Coordinator/Reporting/Memory.antt =====
-- The memory figures of the reporting coordinator.
use ha_truenas_ng.Base.{◌≡◌, refl, true, false, ℕ, Option, none, some, Bool-cases, inl, inr}
use ha_truenas_ng.Base.Int.{ℤ, ◌+ℤ◌, ◌-ℤ◌, -ℤ_cancel}
use ha_truenas_ng.Result.{ok, ok-injective, bind-ok}
use ha_truenas_ng.Value.{Value}
use ha_truenas_ng.Value.Access.{is_null}
use ha_truenas_ng.Value.Runtime.{Runtime, int_of, percent}
use ha_truenas_ng.Coordinator.Reporting.{MemoryUse, is_zero, used_percent_of, memory_of}
use mathlib.Core.Path.{subst}

module _ (py : Runtime) where
  -- Used and free bytes are both shown or both missing, and they add up to the physical memory.
  abbrev pub Balances : ℤ → Option ℤ → Option ℤ → Type 0
  Balances physmem none none = Unit
  Balances physmem (some used) (some free) = used +ℤ free ≡ physmem
  Balances physmem _ _ = ⊥

  -- The percentage is missing exactly when nothing is known or there is no memory to divide by.
  abbrev pub PercentFits : ℤ → Option ℤ → Option ℕ → Type 0
  PercentFits physmem none p = p ≡ none
  PercentFits physmem (some used) none = is_zero physmem ≡ true
  PercentFits physmem (some used) (some p) =
      (is_zero physmem ≡ false) × (percent py used physmem ≡ ok p)

  used_percent-fits :
      (used physmem : ℤ) (p : Option ℕ)
      → used_percent_of py used physmem ≡ ok p
      → PercentFits physmem (some used) p
  unfolding used_percent_of
  used_percent-fits used physmem p h = elim (Bool-cases (is_zero physmem)) [
    | inl q ↦ subst (PercentFits physmem (some used)) (ok-injective (rw q at h)) q
    | inr q ↦
        let (x, e, k) = bind-ok (percent py used physmem) _ (rw q at h) in
        subst (PercentFits physmem (some used)) (ok-injective k) (q, e)
  ]

  -- Whatever the graph says of the available memory, the figures that come out of it balance and
  -- the percentage is that of the used bytes, left out where nothing is known and where the
  -- physical memory is 0.
  pub memory_of-Balances :
      (physmem : ℤ) (v : Value) (m : MemoryUse py)
      → memory_of py physmem v ≡ ok m
      → Balances physmem m.used m.free × PercentFits physmem m.used m.used_percent
  unfolding memory_of
  memory_of-Balances physmem v m h = elim (Bool-cases (is_null v)) [
    | inl q ↦
        subst
          (λ (x : MemoryUse py).
            Balances physmem x.used x.free × PercentFits physmem x.used x.used_percent)
          (ok-injective (rw q at h)) (tt, refl)
    | inr q ↦
        let (free, _, h₁) = bind-ok (int_of py v) _ (rw q at h) in
        let (p, e, h₂) = bind-ok (used_percent_of py (physmem -ℤ free) physmem) _ h₁ in
        subst
          (λ (x : MemoryUse py).
            Balances physmem x.used x.free × PercentFits physmem x.used x.used_percent)
          (ok-injective h₂)
          (-ℤ_cancel physmem free, used_percent-fits (physmem -ℤ free) physmem p e)
  ]
