-- ===== src/Client/Retry.antt =====
-- When `call` reconnects and sends its request a second time.
use ha_truenas_ng.Base.{Bool, ℕ, String, Option, some, List, ◌≡◌, ◌≢◌, arith}
use ha_truenas_ng.Result.{
  Exc, Result, ok, err, auth_error, client_exception, websocket_exception, os_error,
}
use ha_truenas_ng.Action.{Action, ◌>>◌, handle, continue}
use ha_truenas_ng.Value.{Value}
use ha_truenas_ng.Client.{
  Config, State, message_or, external, connect, close, raw_call, ensure_connected, call, retry,
}
use ha_truenas_ng.Client.Upstream.{Library}
use mathlib.Core.Path.{subst}

-- The errors of the library that count as a lost connection.
abbrev pub IsRetried : Library → Exc → Type 0
IsRetried L (client_exception errno _) = errno ≢ some L.enotauthenticated
IsRetried L (websocket_exception _) = Unit
IsRetried L (os_error _) = Unit
IsRetried L _ = ⊥

-- Closing, connecting, and sending the request.
abbrev pub resend :
    (L : Library) → Config → String → List Value → Bool → Option ℕ → Action (State L) Value
resend L c method params job timeout = do close L; connect L c; raw_call L method params job timeout

-- The reply of the library to the request over an open session, and the state that it leaves.
abbrev pub Replies :
    (L : Library)
    → L.Session
    → String
    → List Value
    → Bool
    → Option ℕ
    → State L
    → Result Value
    → State L
    → Type 0
Replies L session method params job timeout s r t =
    (s.client ≡ some session)
    × (L.call session method params job timeout s.world ≡ (r, t.world))
    × (t.client ≡ s.client)

-- The answers of the library that `call` does not send the request again for, with what it makes of
-- them.
abbrev pub IsFinal : Library → Result Value → Result Value → Type 0
IsFinal L (ok v) shown = shown ≡ ok v
IsFinal L (err (client_exception errno msg)) shown =
    (errno ≡ some L.enotauthenticated)
    × (shown ≡ err (auth_error (message_or msg "Not authenticated")))
IsFinal L (err _) shown = ⊥

module _ (L : Library) (c : Config) (method : String) (params : List Value) (job : Bool)
    (timeout : Option ℕ) (session : L.Session) (s t : State L) where
  call-answered :
      (v : Value)
      → Replies L session method params job timeout s (ok v) t
      → call L c method params job timeout s ≡ (ok v, t)
  unfolding call ensure_connected raw_call external handle continue
  call-answered v (p, q, r) = ground arith

  call-refused :
      (msg : String)
      → Replies L session method params job timeout s
          (err (client_exception (some L.enotauthenticated) msg))
          t
      → call L c method params job timeout s
        ≡ (err (auth_error (message_or msg "Not authenticated")), t)
  unfolding call ensure_connected raw_call external retry handle continue
  call-refused msg (p, q, r) = ground arith

  -- A request over an open session that the library answers with a value, or with the error for a
  -- refused key, is sent once, and no connection is made or dropped: `call` returns the value, or
  -- raises TrueNASAuthError.
  pub call-once :
      (answer shown : Result Value)
      → IsFinal L answer shown
      → Replies L session method params job timeout s answer t
      → call L c method params job timeout s ≡ (shown, t)
  call-once (ok v) shown f h = rw f (call-answered v h)
  call-once (err (client_exception errno msg)) shown (refused, f) h = rw f (
      call-refused msg (
        subst (λ n. Replies L session method params job timeout s (err (client_exception n msg)) t)
          refused h))
  call-once (err _) shown f h = absurd f

  -- After any other error of the library over an open session, of the server's own too, the client
  -- is closed, connected again, and the request is sent a second time.
  pub call-resent :
      (e : Exc)
      → IsRetried L e
      → Replies L session method params job timeout s (err e) t
      → call L c method params job timeout s ≡ resend L c method params job timeout t
  unfolding call ensure_connected raw_call external retry handle continue
  call-resent e h (p, q, r) = ground arith
