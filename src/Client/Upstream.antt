-- ===== src/Client/Upstream.antt =====
-- The vendored `truenas_api_client.Client`, which is a parameter: its operations over the state of
-- the network and of the server.
use ha_truenas_ng.Base.{Bool, ℕ, String, Option, List}
use ha_truenas_ng.Base.Int.{ℤ}
use ha_truenas_ng.Result.{Result}
use ha_truenas_ng.Value.{Value}

pub record Library : Type 1 where
  pub World : Type 0
  pub Session : Type 0
  -- `Client(uri, verify_ssl=...)`
  pub construct : String → Bool → World → Result Session × World
  -- `login_with_api_key(username, api_key)`
  pub login : Session → String → String → World → Result (Unit {0}) × World
  -- `call(method, *params, job=..., timeout=...)`
  pub call : Session → String → List Value → Bool → Option ℕ → World → Result Value × World
  pub ping : Session → World → Result Value × World
  pub close : Session → World → Result (Unit {0}) × World
  -- `ClientException.ENOTAUTHENTICATED`
  pub enotauthenticated : ℤ
