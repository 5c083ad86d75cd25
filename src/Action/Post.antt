-- ===== src/Action/Post.antt =====
-- What holds after an action, whether it returns or raises, one rule for each way to build one.
use mathlib.Core.Path.{◌≡◌, subst}
use ha_truenas_ng.Result.{Exc, Result, ok, err, ok-injective, err-injective}
use ha_truenas_ng.Action.{Action, handle, continue}

module _ {ℓ κ} {S A : Type ℓ} where
  -- `Q` of what it returned, or `E` of what it raised, each with the state that it left.
  unfoldable pub Post : (A → S → Type κ) → (Exc → S → Type κ) → Result A × S → Type κ
  Post Q E (ok a, s) = Q a s
  Post Q E (err e, s) = E e s

  pub Post-ok :
      (Q : A → S → Type κ) (E : Exc → S → Type κ) (a : A) (s : S) → Q a s → Post Q E (ok a, s)
  unfolding Post
  Post-ok Q E a s h = h

  pub Post-err :
      (Q : A → S → Type κ) (E : Exc → S → Type κ) (e : Exc) (s : S) → E e s → Post Q E (err e, s)
  unfolding Post
  Post-err Q E e s h = h

  -- To read off a branch.
  pub ok-Post :
      (Q : A → S → Type κ) (E : Exc → S → Type κ) (m : Result A × S) {a : A}
      → Post Q E m
      → m.0 ≡ ok a
      → Q a m.1
  unfolding Post
  ok-Post Q E (ok b, s) h p = subst (λ c. Q c s) (ok-injective p) h
  ok-Post Q E (err e, s) h p = cc

  pub err-Post :
      (Q : A → S → Type κ) (E : Exc → S → Type κ) (m : Result A × S) {e : Exc}
      → Post Q E m
      → m.0 ≡ err e
      → E e m.1
  unfolding Post
  err-Post Q E (ok b, s) h p = cc
  err-Post Q E (err d, s) h p = subst (λ c. E c s) (err-injective p) h

  pub Post-handle :
      (Q : A → S → Type κ) (D E : Exc → S → Type κ) (m : Result A × S) (h : Exc → Action S A)
      → Post Q D m
      → ((e : Exc) (s : S) → D e s → Post Q E (h e s))
      → Post Q E (handle m h)
  unfolding Post handle
  Post-handle Q D E (ok a, s) h pm ph = pm
  Post-handle Q D E (err e, s) h pm ph = ph e s pm

  pub Post-weaken :
      (P Q : A → S → Type κ) (D E : Exc → S → Type κ) (m : Result A × S)
      → Post P D m
      → ((a : A) (s : S) → P a s → Q a s)
      → ((e : Exc) (s : S) → D e s → E e s)
      → Post Q E m
  unfolding Post
  Post-weaken P Q D E (ok a, s) pm pq de = pq a s pm
  Post-weaken P Q D E (err e, s) pm pq de = de e s pm

module _ {ℓ κ} {S A B : Type ℓ} where
  pub Post-continue :
      (P : A → S → Type κ) (Q : B → S → Type κ) (E : Exc → S → Type κ) (m : Result A × S)
      (f : A → Action S B)
      → Post P E m
      → ((a : A) (s : S) → P a s → Post Q E (f a s))
      → Post Q E (continue m f)
  unfolding Post continue
  Post-continue P Q E (ok a, s) f pm pf = pf a s pm
  Post-continue P Q E (err e, s) f pm pf = pm
