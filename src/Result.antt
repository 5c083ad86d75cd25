-- ===== src/Result.antt =====
-- Python's exceptions as values: the wrapper's own three (client.py), those of the vendored client
-- and of the transport, Home Assistant's, and the interpreter's. A text is what `str(err)` gives.
pub mod Holds
pub mod Latest
use ha_truenas_ng.Base.{
  ℕ, Bool, true, false, String, Option, List, [], ◌∷◌, ◌≡◌, refl, ap, ◌⊎◌, inl, inr,
}
use ha_truenas_ng.Base.Int.{ℤ}

pub data Exc : Type 0 where
  auth_error : String → Exc
  connection_error : String → Exc
  truenas_error : String → Exc
  client_exception : Option ℤ → String → Exc
  websocket_exception : String → Exc
  os_error : String → Exc
  value_error : String → Exc
  -- `ConfigEntryAuthFailed`, `ConfigEntryNotReady`, `UpdateFailed`, `HomeAssistantError`,
  -- `ServiceValidationError`
  entry_auth_failed entry_not_ready update_failed home_assistant_error : String → Exc
  service_validation_error : String → Exc
  attribute_error key_error type_error index_error overflow_error zero_division : Exc
  recursion_error : Exc
  other_error : String → Exc

pub data Result {ℓ} (A : Type ℓ) : Type ℓ where
  ok : A → Result A
  err : Exc → Result A

module _ {ℓ κ} {A : Type ℓ} {B : Type κ} where
  infixl 10 ◌>>=◌
  -- The rest of a computation, which an exception skips.
  abbrev pub ◌>>=◌ : Result A → (A → Result B) → Result B
  err raised >>= rest = err raised
  ok value >>= rest = rest value

-- A loop over a list, whose body changes what it has built and may raise.
unfoldable pub fold_result {ℓ κ} :
    {X : Type ℓ} {Built : Type κ} → (Built → X → Result Built) → Built → List X → Result Built
fold_result body built [] = ok built
fold_result body built (first ∷ others) = body built first >>= λ next. fold_result body next others

-- `TrueNASError` and its two subclasses.
abbrev pub is_truenas_error : Exc → Bool
is_truenas_error (auth_error _) = true
is_truenas_error (connection_error _) = true
is_truenas_error (truenas_error _) = true
is_truenas_error _ = false

-- `str(err)`. Of the interpreter's errors the integration shows no text.
unfoldable pub message : Exc → String
message (auth_error m) = m
message (connection_error m) = m
message (truenas_error m) = m
message (client_exception _ m) = m
message (websocket_exception m) = m
message (os_error m) = m
message (value_error m) = m
message (other_error m) = m
message _ = ""

pub ok-injective {ℓ} : {A : Type ℓ} {a b : A} → ok a ≡ ok b → a ≡ b
ok-injective p = cc

pub err-injective {ℓ} : {A : Type ℓ} {a b : Exc} → ◌≡◌ {A = Result A} (err a) (err b) → a ≡ b
err-injective p = cc

module _ {ℓ κ} {A : Type ℓ} {B : Type κ} where
  -- Where a chain that failed broke off.
  pub bind-err :
      {raised : Exc} (first : Result A) (rest : A → Result B)
      → (first >>= rest) ≡ err raised
      → (first ≡ err raised) ⊎ ((v : A) × (first ≡ ok v) × (rest v ≡ err raised))
  bind-err (err d) rest broke = inl (ap {B = Result A} err (err-injective broke))
  bind-err (ok v) rest broke = inr (v, refl, broke)

  -- What a chain that succeeded went through.
  pub bind-ok :
      {last : B} (first : Result A) (rest : A → Result B)
      → (first >>= rest) ≡ ok last
      → (v : A) × (first ≡ ok v) × (rest v ≡ ok last)
  bind-ok (err d) rest done = cc
  bind-ok (ok v) rest done = (v, refl, done)
