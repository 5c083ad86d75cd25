-- ===== src/Client/Threads.antt =====
-- client.py across threads. `call` holds the lock, so calls do not meet one another; `close`, which
-- unloading an entry runs on another executor thread, does not take the lock. Here a call and a
-- close take turns at the steps that read or write `_client`; each operation of the library is one
-- step, and changes the world that both see.
pub mod Safety
pub mod Races
pub mod Ends
use ha_truenas_ng.Base.{ℕ, Bool, String, Option, none, some, List, if◌then◌else◌}
use ha_truenas_ng.Result.{
  Exc, Result, ok, err, auth_error, connection_error, attribute_error, is_truenas_error,
}
use ha_truenas_ng.Action.{raise}
use ha_truenas_ng.Value.{Value}
use ha_truenas_ng.Client.{
  Config, State, uri, authenticate, external, map_error, map_errors, suppress, close_session,
}
use ha_truenas_ng.Client.Upstream.{Library}

-- The two attempts of a call.
pub data Attempt : Type 0 where
  first second : Attempt

module _ (L : Library) where
  -- Where a call stands: at its test of `_client`; in `connect` before the constructor, the login,
  -- the close of a client whose login failed, and the assignment of `_client`; before it reads
  -- `_client` for the request; in the request; in its own `close` before it reads `_client`, before
  -- it drops it and before it closes what it read; or at its end.
  pub data Phase : Type 0 where
    ready : Phase
    constructing : Attempt → Phase
    logging_in : Attempt → L.Session → Phase
    discarding : L.Session → Exc → Phase
    storing : Attempt → L.Session → Phase
    sending : Attempt → Phase
    requesting : Attempt → L.Session → Phase
    resetting : Phase
    dropping shutting : Option L.Session → Phase
    finished : Result Value → Phase

  -- Where a `close` stands: before it reads `_client`, with what it read, once it has dropped
  -- `_client`, or at its end.
  pub data Closing : Type 0 where
    waiting : Closing
    holding dropped : Option L.Session → Closing
    closed : Closing

  -- The end of the constructor, and that of the login: `except TrueNASError` closes the new client.
  abbrev pub constructed : Attempt → Result L.Session × State L → Phase × State L
  constructed a (ok session, s) = (logging_in a session, s)
  constructed a (err e, s) = (finished (err e), s)

  abbrev pub rejected : L.Session → Exc → Phase
  rejected session e = if is_truenas_error e then discarding session e else finished (err e)

  abbrev pub admitted : Attempt → L.Session → Result (Unit {0}) × State L → Phase × State L
  admitted a session (ok _, s) = (storing a session, s)
  admitted a session (err e, s) = (rejected session e, s)

  -- The end of a request: only the first attempt is followed by another.
  abbrev pub replied : Attempt → Result Value × State L → Phase × State L
  replied a (ok v, s) = (finished (ok v), s)
  replied first (err (connection_error m), s) = (resetting, s)
  replied a (err e, s) = (finished (err e), s)

  -- `self._client.call`: `None` has no such attribute.
  abbrev pub read : Attempt → Option L.Session → State L → Phase × State L
  read a none s = replied a (map_errors L (raise attribute_error) s)
  read a (some session) s = (requesting a session, s)

  abbrev pub tested : Option L.Session → Phase
  tested none = constructing first
  tested (some _) = sending first

  module _ (c : Config) (method : String) (params : List Value) (job : Bool)
      (timeout : Option ℕ) where
    -- The next step of the call.
    unfoldable pub advance : Phase → State L → Phase × State L
    unfolding authenticate map_error uri
    advance ready s = (tested s.client, s)
    advance (constructing a) s =
        constructed a (map_errors L (external L (L.construct (uri c) c.verify_ssl)) s)
    advance (logging_in a session) s = admitted a session (authenticate L c session s)
    advance (discarding session e) s =
        (finished (err e), (suppress L (external L (L.close session)) s).1)
    advance (storing a session) s = (sending a, record s { client = some session })
    advance (sending a) s = read a s.client s
    advance (requesting a session) s =
        replied a (map_errors L (external L (L.call session method params job timeout)) s)
    advance resetting s = (dropping s.client, s)
    advance (dropping o) s = (shutting o, record s { client = none })
    advance (shutting o) s = (constructing second, (close_session L o s).1)
    advance (finished r) s = (finished r, s)

    -- The next step of the close.
    unfoldable pub advance_close : Closing → State L → Closing × State L
    advance_close waiting s = (holding s.client, s)
    advance_close (holding o) s = (dropped o, record s { client = none })
    advance_close (dropped o) s = (closed, (close_session L o s).1)
    advance_close closed s = (closed, s)

    pub record Threads : Type 0 where
      pub caller : Phase
      pub closer : Closing
      pub shared : State L

    abbrev pub after_call : Closing → Phase × State L → Threads
    after_call d (p, s) = record { caller = p; closer = d; shared = s }

    abbrev pub after_close : Phase → Closing × State L → Threads
    after_close p (d, s) = record { caller = p; closer = d; shared = s }

    -- Either thread takes its next step.
    pub data Step (t : Threads) : Threads → Type 0 where
      calls : Step t (after_call t.closer (advance t.caller t.shared))
      closes : Step t (after_close t.caller (advance_close t.closer t.shared))

    pub data Reach (t : Threads) : Threads → Type 0 where
      here : Reach t t
      next : {u v : Threads} → Reach t u → Step u v → Reach t v

    -- Both threads before their first step.
    abbrev pub start : State L → Threads
    start s = record { caller = ready; closer = waiting; shared = s }
