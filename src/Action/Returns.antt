-- ===== src/Action/Returns.antt =====
-- What holds of the value that an action returns, if it returns one.
use ha_truenas_ng.Base.{◌≡◌, refl}
use ha_truenas_ng.Result.{Exc, Result, ok, err}
use ha_truenas_ng.Result.Holds.{Holds, ok-Holds}
use ha_truenas_ng.Action.{Action, handle, continue}
use ha_truenas_ng.Action.Post.{Post, Post-ok, Post-err, Post-handle, Post-continue, ok-Post}

module _ {S A : Type 0} (P : A → Type 0) where
  -- Nothing is said of the state, and nothing of what is raised.
  unfoldable pub Returns : Result A × S → Type 0
  Returns = Post (λ a _. P a) (λ _ _. Unit)

  pub Returns-ok : (a : A) (s : S) → P a → Returns (ok a, s)
  unfolding Returns
  Returns-ok a s h = Post-ok (λ a _. P a) (λ _ _. Unit) a s h

  pub Returns-err : (e : Exc) (s : S) → Returns (err e, s)
  unfolding Returns
  Returns-err e s = Post-err (λ a _. P a) (λ _ _. Unit) e s tt

  pub Returns-lift : (r : Result A) (s : S) → Holds P (λ _. Unit) r → Returns (r, s)
  Returns-lift (ok a) s h = Returns-ok a s (ok-Holds P (λ _. Unit) (ok a) h refl)
  Returns-lift (err e) s h = Returns-err e s

  pub ok-Returns : (m : Result A × S) {a : A} → Returns m → m.0 ≡ ok a → P a
  unfolding Returns
  ok-Returns m h p = ok-Post (λ a _. P a) (λ _ _. Unit) m h p

  pub Returns-handle :
      (m : Result A × S) (h : Exc → Action S A)
      → Returns m
      → ((e : Exc) (s : S) → Returns (h e s))
      → Returns (handle m h)
  unfolding Returns
  Returns-handle m h p k =
      Post-handle (λ a _. P a) (λ _ _. Unit) (λ _ _. Unit) m h p (λ e s _. k e s)

pub Returns-any : {S A : Type 0} (m : Result A × S) → Returns (λ _. Unit) m
Returns-any (ok a, s) = Returns-ok (λ _. Unit) a s tt
Returns-any (err e, s) = Returns-err (λ _. Unit) e s

module _ {S A B : Type 0} (P : A → Type 0) (Q : B → Type 0) where
  pub Returns-then :
      (m : Result A × S) (f : A → Action S B)
      → Returns P m
      → ((a : A) (t : S) → P a → Returns Q (f a t))
      → Returns Q (continue m f)
  unfolding Returns
  Returns-then m f h k = Post-continue (λ a _. P a) (λ b _. Q b) (λ _ _. Unit) m f h k
