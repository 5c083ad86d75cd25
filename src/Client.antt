-- ===== src/Client.antt =====
-- client.py: the lock-guarded wrapper that reconnects. Every public method holds the lock for its
-- whole body but `connect` and `close`, so a call is one action.
pub mod Upstream
pub mod Rules
pub mod Errors
pub mod Retry
pub mod Connections
pub mod Answers
pub mod Threads
use ha_truenas_ng.Base.{
  Bool, true, false, ℕ, String, ◌<>◌, Option, none, some, List, ◌==◌, string_eq, if◌then◌else◌,
}
use ha_truenas_ng.Base.Int.{ℤ, ℤ-discrete}
use ha_truenas_ng.Result.{
  Exc, Result, ok, err, auth_error, connection_error, truenas_error, client_exception,
  websocket_exception, os_error, value_error, attribute_error, is_truenas_error,
}
use ha_truenas_ng.Action.{Action, pure, raise, lift, catch, ◌>>=◌, ◌>>◌}
use ha_truenas_ng.Value.{Value}
use ha_truenas_ng.Value.Access.{is_str}
use mathlib.Core.Logic.{ite}
use Upstream.{Library}

-- The parameters of the constructor, and `uri`, which interpolates the port's digits.
pub record Config : Type 0 where
  pub host : String
  pub port : String
  pub username : String
  pub api_key : String
  pub verify_ssl : Bool

pub uri : Config → String
uri c = "wss://" <> (c.host <> (":" <> (c.port <> "/api/current")))

-- `str(err) or default`
abbrev pub message_or : String → String → String
message_or msg default = if msg == "" then default else msg

abbrev is_errno : Option ℤ → ℤ → Bool
is_errno none code = false
is_errno (some n) code = ite (ℤ-discrete n code) true false

module _ (L : Library) where
  open L use {World, Session, enotauthenticated}

  pub record State : Type 0 where
    pub client : Option Session
    pub world : World

  -- A call of the library, whose state is the world.
  unfoldable pub external : {A : Type 0} → (World → Result A × World) → Action State A
  external op s = let (r, w) = op s.world in (r, record s { world = w })

  -- What `_map_errors` raises in place of an exception.
  unfoldable pub map_error : Exc → Exc
  map_error (client_exception errno msg) =
      if is_errno errno enotauthenticated
      then auth_error (message_or msg "Not authenticated")
      else connection_error (message_or msg "TrueNAS client error")
  map_error (websocket_exception msg) = connection_error (message_or msg "WebSocket error")
  map_error (os_error msg) = connection_error (message_or msg "Connection error")
  map_error e = e

  abbrev pub map_errors : {A : Type 0} → Action State A → Action State A
  map_errors m = catch m (λ e. raise (map_error e))

  -- `except ValueError` round the login.
  abbrev pub login_error : Exc → Exc
  login_error (value_error msg) = auth_error (message_or msg "Authentication failed")
  login_error e = e

  -- `with contextlib.suppress(Exception)`
  abbrev pub suppress : Action State (Unit {0}) → Action State (Unit {0})
  suppress m = catch m (λ _. pure tt)

  abbrev pub set_client : Option Session → Action State (Unit {0})
  set_client c s = (ok tt, record s { client = c })

  -- `except TrueNASError`: close the new client, and raise again.
  abbrev pub close_and_raise : Session → Exc → Action State (Unit {0})
  close_and_raise session e =
      if is_truenas_error e then (do suppress (external (L.close session)); raise e) else raise e

  -- The login of `connect`, with the exceptions that it maps.
  unfoldable pub authenticate : Config → Session → Action State (Unit {0})
  unfolding map_error
  authenticate c session =
      map_errors
        (catch (external (L.login session c.username c.api_key)) (λ e. raise (login_error e)))

  -- The second `try` of `connect`.
  pub login : Config → Session → Action State (Unit {0})
  unfolding authenticate
  login c session = catch (authenticate c session) (close_and_raise session)

  unfoldable pub connect : Config → Action State (Unit {0})
  unfolding map_error uri login
  connect c = do
    session ← map_errors (external (L.construct (uri c) c.verify_ssl))
    login c session
    set_client (some session)

  abbrev pub close_session : Option Session → Action State (Unit {0})
  close_session none = pure tt
  close_session (some session) = suppress (external (L.close session))

  unfoldable pub close : Action State (Unit {0})
  close s = (do set_client none; close_session s.client) s

  -- A method of `self._client`: `None` has no such attribute.
  abbrev pub attribute_of :
      {A : Type 0} → Option Session → (Session → World → Result A × World) → Action State A
  attribute_of none op = raise attribute_error
  attribute_of (some session) op = external (op session)

  abbrev pub on_client : {A : Type 0} → (Session → World → Result A × World) → Action State A
  on_client op s = attribute_of s.client op s

  unfoldable pub raw_call : String → List Value → Bool → Option ℕ → Action State Value
  unfolding map_error
  raw_call method params job timeout =
      map_errors (on_client (λ session. L.call session method params job timeout))

  -- `if self._client is None: self.connect()`
  abbrev pub ensure : Option Session → Config → Action State (Unit {0})
  ensure none c = connect c
  ensure (some _) c = pure tt

  unfoldable pub ensure_connected : Config → Action State (Unit {0})
  ensure_connected c s = ensure s.client c s

  -- `except TrueNASConnectionError`: once more, over a new connection.
  unfoldable pub retry : Config → String → List Value → Bool → Option ℕ → Exc → Action State Value
  retry c method params job timeout (connection_error _) = do
    close
    connect c
    raw_call method params job timeout
  retry c method params job timeout e = raise e

  unfoldable pub call : Config → String → List Value → Bool → Option ℕ → Action State Value
  call c method params job timeout = do
    ensure_connected c
    catch (raw_call method params job timeout) (retry c method params job timeout)

  unfoldable pub ping : Config → Action State Bool
  unfolding map_error is_str
  ping c = do ensure_connected c; reply ← map_errors (on_client L.ping); pure (is_str reply "pong")
