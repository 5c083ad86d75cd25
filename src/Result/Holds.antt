-- ===== src/Result/Holds.antt =====
-- What holds of a result, whether it is a value or an exception, one rule for each way to build one.
use ha_truenas_ng.Base.{◌≡◌, refl, List, [], ◌∷◌, All}
use ha_truenas_ng.Result.{Exc, Result, ok, err, fold_result, ok-injective, err-injective, ◌>>=◌}
use mathlib.Core.Path.{subst}

module _ {ℓ κ} {A : Type ℓ} (P : A → Type κ) (E : Exc → Type κ) where
  pub Holds : Result A → Type κ
  Holds (ok a) = P a
  Holds (err e) = E e

  pub Holds-ok : (a : A) → P a → Holds (ok a)
  unfolding Holds
  Holds-ok a h = h

  pub Holds-err : (e : Exc) → E e → Holds (err e)
  unfolding Holds
  Holds-err e h = h

  pub ok-Holds : (m : Result A) {a : A} → Holds m → m ≡ ok a → P a
  unfolding Holds
  ok-Holds (ok b) h p = subst P (ok-injective p) h
  ok-Holds (err e) h p = cc

  pub err-Holds : (m : Result A) {e : Exc} → Holds m → m ≡ err e → E e
  unfolding Holds
  err-Holds (ok b) h p = cc
  err-Holds (err d) h p = subst E (err-injective p) h

module _ {ℓ} {A : Type ℓ} (P : A → Type 0) where
  -- What returns, and is right if it returns.
  pub Holds-total :
      (m : Result A) → Holds (λ _. Unit) (λ _. ⊥) m → Holds P (λ _. Unit) m → Holds P (λ _. ⊥) m
  unfolding Holds
  Holds-total (ok a) h k = k
  Holds-total (err e) h k = h

module _ {ℓ κ} {A : Type ℓ} (P Q : A → Type κ) (E : Exc → Type κ) where
  pub Holds-imp : ((a : A) → P a → Q a) → (m : Result A) → Holds P E m → Holds Q E m
  unfolding Holds
  Holds-imp f (ok a) h = f a h
  Holds-imp f (err e) h = h

  pub Holds-both : (m : Result A) → Holds P E m → Holds Q E m → Holds (λ a. P a × Q a) E m
  unfolding Holds
  Holds-both (ok a) h k = (h, k)
  Holds-both (err e) h k = h

module _ {ℓ κ} {A B : Type ℓ} (P : B → Type κ) (E : Exc → Type κ) where
  pub Holds-bind :
      (m : Result A) (f : A → Result B)
      → ((e : Exc) → m ≡ err e → E e)
      → ((a : A) → m ≡ ok a → Holds P E (f a))
      → Holds P E (m >>= f)
  unfolding Holds
  Holds-bind (ok a) f he hf = hf a refl
  Holds-bind (err e) f he hf = he e refl

module _ {ℓ κ} {A B : Type ℓ} (P : A → Type κ) (Q : B → Type κ) where
  -- Where nothing is said of the exceptions.
  pub Holds-then :
      (m : Result A) (f : A → Result B)
      → Holds P (λ _. Unit) m
      → ((a : A) → P a → Holds Q (λ _. Unit) (f a))
      → Holds Q (λ _. Unit) (m >>= f)
  Holds-then m f h k =
      Holds-bind Q (λ _. Unit) m f (λ e _. tt) (λ a p. k a (ok-Holds P (λ _. Unit) m h p))

module _ {ℓ κ} {A B : Type ℓ} (P : B → Type κ) (E : Exc → Type κ) where
  -- A loop keeps what each of its rounds keeps.
  pub Holds-fold :
      (Q : A → Type κ) (f : B → A → Result B)
      → ((b : B) (x : A) → Q x → P b → Holds P E (f b x))
      → (b : B) (xs : List A) → All Q xs
      → P b
      → Holds P E (fold_result f b xs)
  unfolding fold_result Holds
  Holds-fold Q f step b [] qs h = h
  Holds-fold Q f step b (x ∷ xs) (q, qs) h =
      Holds-bind P E (f b x) (λ c. fold_result f c xs) (λ e. err-Holds P E (f b x) (step b x q h))
        (λ c p. Holds-fold Q f step c xs qs (ok-Holds P E (f b x) (step b x q h) p))
