-- ===== src/Base/Dict.antt =====
-- Python's dicts, in insertion order. Proofs elsewhere go by the laws.
use native.Mathlib.Omega.{arith}
use ha_truenas_ng.Base.Equality.{Eq, ◌==◌, contains, if◌then◌else◌}
use mathlib.Core.Option.{Option, none, some}
use mathlib.Core.Bool.{Bool, true, false}
use mathlib.Core.Logic.{◌≢◌, ◌↔◌, inl, inr}
use mathlib.Core.Path.{◌≡◌, refl, subst}
use ha_truenas_ng.Base.Tests.{All, Bool-cases}
use mathlib.Core.List.{List, [], ◌∷◌, ◌++◌, map}

abbrev pub Dict {ℓ κ} : Type ℓ → Type κ → Type (ℓ ⊔ κ)
Dict K V = List (K × V)

unfoldable pub keys {ℓ κ} : {K : Type ℓ} {V : Type κ} → Dict K V → List K
keys = map (λ (k, _). k)

unfoldable pub values {ℓ κ} : {K : Type ℓ} {V : Type κ} → Dict K V → List V
values = map (λ (_, v). v)

module _ {ℓ κ} {K : Type ℓ} {V : Type κ} ⦃e : Eq K⦄ where
  -- `d.get(k)`
  unfoldable pub lookup : K → Dict K V → Option V
  lookup k [] = none
  lookup k ((j, w) ∷ d) = if k == j then some w else lookup k d

  -- `d[k] = v`: a key that is there keeps its place.
  unfoldable pub insert : K → V → Dict K V → Dict K V
  insert k v [] = (k, v) ∷ []
  insert k v ((j, w) ∷ d) = if k == j then (j, v) ∷ d else (j, w) ∷ insert k v d

  -- `d.pop(k, None)`
  unfoldable pub erase : K → Dict K V → Dict K V
  erase k [] = []
  erase k ((j, w) ∷ d) = let rest = erase k d in if k == j then rest else (j, w) ∷ rest

  -- `d.update(other)`
  unfoldable pub update : Dict K V → Dict K V → Dict K V
  update d [] = d
  update d ((k, v) ∷ other) = update (insert k v d) other

  -- `k in d`
  unfoldable pub has_key : K → Dict K V → Bool
  unfolding lookup
  has_key k d = elim (lookup k d) [ none ↦ false | some _ ↦ true ]

  abbrev pub NodupKeys : Dict K V → Type κ
  NodupKeys [] = Unit
  NodupKeys ((k, _) ∷ d) = (lookup k d ≡ none) × NodupKeys d

  pub lookup-nil : (k : K) → lookup k [] ≡ none
  unfolding lookup
  lookup-nil k = refl

  pub lookup-cons :
      (j k : K) (v : V) (d : Dict K V)
      → lookup j ((k, v) ∷ d) ≡ (if j == k then some v else lookup j d)
  unfolding lookup
  lookup-cons j k v d = refl

  pub has_key-head : (k : K) (v : V) (d : Dict K V) → has_key k ((k, v) ∷ d) ≡ true
  unfolding has_key lookup
  has_key-head k v d = ground arith

  pub has_key-tail :
      (j k : K) (v : V) (d : Dict K V) → has_key j d ≡ true → has_key j ((k, v) ∷ d) ≡ true
  unfolding has_key lookup
  has_key-tail j k v d h = ground arith

  pub lookup-insert :
      (j k : K) (v : V) (d : Dict K V)
      → lookup j (insert k v d) ≡ (if j == k then some v else lookup j d)
  unfolding insert lookup
  lookup-insert j k v [] = refl
  lookup-insert j k v (_ ∷ d) = ground (arith, lookup-insert j k v d)

  pub lookup-erase :
      (j k : K) (d : Dict K V) → lookup j (erase k d) ≡ (if j == k then none else lookup j d)
  unfolding erase lookup
  lookup-erase j k [] = ground arith
  lookup-erase j k (_ ∷ d) = ground (arith, lookup-erase j k d)

  pub contains-keys : (d : Dict K V) (k : K) → (contains (keys d) k ≡ true) ↔ (lookup k d ≢ none)
  unfolding keys lookup
  contains-keys [] k = (λ h. cc, λ h. absurd (h refl))
  contains-keys (_ ∷ d) k = ground (arith, contains-keys d k)

  pub insert-NodupKeys : (k : K) (v : V) (d : Dict K V) → NodupKeys d → NodupKeys (insert k v d)
  unfolding insert
  insert-NodupKeys k v [] _ = (lookup-nil k, tt)
  insert-NodupKeys k v ((j, _) ∷ d) (fresh, u) =
      ground (arith, insert-NodupKeys k v d u, lookup-insert j k v d)

  pub update-nil : (d : Dict K V) → update d [] ≡ d
  unfolding update
  update-nil d = refl

  pub update-append : (d a b : Dict K V) → update (update d a) b ≡ update d (a ++ b)
  unfolding update
  update-append d [] b = refl
  update-append d ((k, v) ∷ a) b = update-append (insert k v d) a b

  pub update-NodupKeys : (d other : Dict K V) → NodupKeys d → NodupKeys (update d other)
  unfolding update
  update-NodupKeys d [] u = u
  update-NodupKeys d ((k, v) ∷ other) u =
      update-NodupKeys (insert k v d) other (insert-NodupKeys k v d u)

  -- A value that is stored satisfies what the others do, under the key that was there too.
  pub insert-All {μ} :
      (P : K × V → Type μ) (k : K) (v : V) (d : Dict K V)
      → P (k, v)
      → All P d
      → All P (insert k v d)
  unfolding insert
  insert-All P k v [] p h = (p, tt)
  insert-All P k v ((j, w) ∷ d) p (q, h) = elim (Bool-cases (k == j)) [
    | inl e ↦ let same : k ≡ j = ground arith in rw e (subst (λ i. P (i, v)) same p, h)
    | inr e ↦ rw e (q, insert-All P k v d p h)
  ]

  -- What is found under a key stands there.
  pub lookup-All {μ} :
      (P : K × V → Type μ) (k : K) (v : V) (d : Dict K V) → All P d → lookup k d ≡ some v → P (k, v)
  unfolding lookup
  lookup-All P k v [] h e = cc
  lookup-All P k v ((j, w) ∷ d) (p, h) e = elim (Bool-cases (k == j)) [
    | inl q ↦
        let same : j ≡ k = ground arith in
        let found : w ≡ v = ground arith in
        subst (λ i. P (i, v)) same (subst (λ x. P (j, x)) found p)
    | inr q ↦ lookup-All P k v d h (ground arith)
  ]

  pub ruleset dict_laws = (lookup-nil, lookup-insert, lookup-erase)
