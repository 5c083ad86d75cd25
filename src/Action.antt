-- ===== src/Action.antt =====
-- Python code that changes a state and may raise: what was changed before a raise stays changed.
-- `await` on an executor job runs such code to its end; other tasks run only between two actions.
pub mod Post
pub mod Returns
use ha_truenas_ng.Result.{Exc, Result, ok, err}

abbrev pub Action {ℓ} : Type ℓ → Type ℓ → Type ℓ
Action S A = S → Result A × S

module _ {ℓ} {S A : Type ℓ} where
  abbrev pub pure : A → Action S A
  pure a s = (ok a, s)

  abbrev pub raise : Exc → Action S A
  raise e s = (err e, s)

  -- A computation that reads and changes no state.
  abbrev pub lift : Result A → Action S A
  lift r s = (r, s)

  unfoldable pub handle : Result A × S → (Exc → Action S A) → Result A × S
  handle (ok a, s) h = (ok a, s)
  handle (err e, s) h = h e s

  -- `try: m except ... : h`; the handler raises again what it does not catch.
  abbrev pub catch : Action S A → (Exc → Action S A) → Action S A
  catch m h s = handle (m s) h

module _ {ℓ} {S A B : Type ℓ} where
  unfoldable pub continue : Result A × S → (A → Action S B) → Result B × S
  continue (ok a, s) f = f a s
  continue (err e, s) f = (err e, s)

  infixl 10 ◌>>=◌ ◌>>◌
  abbrev pub ◌>>=◌ : Action S A → (A → Action S B) → Action S B
  ◌>>=◌ m f s = continue (m s) f

  abbrev pub ◌>>◌ : Action S A → Action S B → Action S B
  m >> n = m >>= λ _. n

  -- A call, and a pure computation on its result that may raise.
  abbrev pub decode : Action S A → (A → Result B) → Action S B
  decode m f = m >>= λ a. lift (f a)
