-- ===== src/Client/Rules.antt =====
-- What the steps of the client wrapper do with the library's exceptions and with `_client`.
use ha_truenas_ng.Base.{
  Bool, true, false, ℕ, String, Option, none, some, List, ◌≡◌, refl, arith, ◌∙◌, inl, inr,
  Bool-cases,
}
use ha_truenas_ng.Result.{
  Exc, Result, ok, err, auth_error, connection_error, client_exception, websocket_exception,
  os_error, value_error, is_truenas_error,
}
use ha_truenas_ng.Value.{Value}
use ha_truenas_ng.Action.{handle}
use ha_truenas_ng.Action.Post.{Post, Post-ok, Post-err, Post-handle, Post-continue, Post-weaken}
use ha_truenas_ng.Client.{
  Config, State, map_error, connect, raw_call, external, login_error, authenticate, login, suppress,
  close_and_raise, attribute_of, close_session,
}
use ha_truenas_ng.Client.Upstream.{Library}

-- What the library documents that it raises: its own exceptions, the transport's, and the ones
-- that its login alone raises.
abbrev pub is_transport : Exc → Bool
is_transport (client_exception _ _) = true
is_transport (websocket_exception _) = true
is_transport (os_error _) = true
is_transport _ = false

abbrev pub is_login : Exc → Bool
is_login (value_error _) = true
is_login e = is_transport e

abbrev pub Raises : {A : Type 0} → (Exc → Bool) → Result A → Type 0
Raises p (ok _) = Unit
Raises p (err e) = p e ≡ true

pub record IsDocumented (L : Library) : Type 0 where
  pub construct_lem :
      (uri : String) (verify : Bool) (w : L.World)
      → Raises is_transport (L.construct uri verify w).0
  pub login_lem :
      (c : L.Session) (user key : String) (w : L.World) → Raises is_login (L.login c user key w).0
  pub call_lem :
      (c : L.Session) (method : String) (params : List Value) (job : Bool) (timeout : Option ℕ)
      (w : L.World)
      → Raises is_transport (L.call c method params job timeout w).0
  pub ping_lem : (c : L.Session) (w : L.World) → Raises is_transport (L.ping c w).0

-- The two errors that the coordinators and flows tell apart.
abbrev pub is_wrapped : Exc → Bool
is_wrapped (auth_error _) = true
is_wrapped (connection_error _) = true
is_wrapped _ = false

module _ (L : Library) where
  pub map_error-transport : (e : Exc) → is_transport e ≡ true → is_wrapped (map_error L e) ≡ true
  unfolding map_error
  map_error-transport e h = ground arith

  abbrev pub IsConnected : State L → Type 0
  IsConnected s = (session : L.Session) × (s.client ≡ some session)

  -- `_client` is as in `s`, and an exception is one that `p` allows.
  abbrev pub Same {ℓ} : {A : Type ℓ} → State L → A → State L → Type 0
  Same s a t = t.client ≡ s.client

  abbrev pub Fails : (Exc → Bool) → State L → Exc → State L → Type 0
  Fails p s e t = (p e ≡ true) × (t.client ≡ s.client)

  reply-Post :
      {A : Type 0} (p : Exc → Bool) (s : State L) (r : Result A) (w : L.World)
      → Raises p r
      → Post {A = A} (Same s) (Fails p s) (r, record s { world = w })
  reply-Post p s (ok a) w h = Post-ok (Same s) (Fails p s) a _ refl
  reply-Post p s (err e) w h = Post-err (Same s) (Fails p s) e _ (h, refl)

  pub external-Post :
      {A : Type 0} (p : Exc → Bool) (op : L.World → Result A × L.World) (s : State L)
      → Raises p (op s.world).0
      → Post {A = A} (Same s) (Fails p s) (external L op s)
  unfolding external
  external-Post p op s h = reply-Post p s (op s.world).0 (op s.world).1 h

  abbrev anything : Exc → Bool
  anything _ = true

  Raises-anything : {A : Type 0} (r : Result A) → Raises anything r
  Raises-anything (ok a) = tt
  Raises-anything (err e) = refl

  pub map_errors-Post :
      {A : Type 0} (p : Exc → Bool) (s : State L) (m : Result A × State L)
      → ((e : Exc) → p e ≡ true → is_wrapped (map_error L e) ≡ true)
      → Post {A = A} (Same s) (Fails p s) m
      → Post {A = A} (Same s) (Fails is_wrapped s) (handle m (λ e t. (err (map_error L e), t)))
  map_errors-Post p s m wraps h =
      Post-handle (Same s) (Fails p s) (Fails is_wrapped s) m _ h
        (λ e t k. Post-err (Same s) (Fails is_wrapped s) _ t (wraps e k.0, k.1))

  -- What is left of the login's errors after `except ValueError`.
  abbrev is_mappable : Exc → Bool
  is_mappable (auth_error _) = true
  is_mappable e = is_transport e

  login_error-mappable : (e : Exc) → is_login e ≡ true → is_mappable (login_error L e) ≡ true
  login_error-mappable e h = ground arith

  map_error-mappable : (e : Exc) → is_mappable e ≡ true → is_wrapped (map_error L e) ≡ true
  unfolding map_error
  map_error-mappable e h = ground arith

  suppress-Post :
      (E : Exc → State L → Type 0) (session : L.Session) (s : State L)
      → Post (Same s) E (suppress L (external L (L.close session)) s)
  suppress-Post E session s =
      Post-handle (Same s) (Fails anything s) E (external L (L.close session) s) (λ _ t. (ok tt, t))
        (external-Post anything (L.close session) s (Raises-anything _))
        (λ e t k. Post-ok (Same s) E tt t k.1)

  close_and_raise-Post :
      (s t : State L) (session : L.Session) (e : Exc)
      → Fails is_wrapped s e t
      → Post {A = Unit {0}} (Same s) (Fails is_wrapped s) (close_and_raise L session e t)
  close_and_raise-Post s t session e (h, same) = elim (Bool-cases (is_truenas_error e)) [
    | inl q ↦ rw q (
        Post-continue (Same t) (Same s) (Fails is_wrapped s) _ _
          (suppress-Post (Fails is_wrapped s) session t)
          (λ a u k. Post-err (Same s) (Fails is_wrapped s) e u (h, k ∙ same)))
    | inr q ↦ rw q (Post-err (Same s) (Fails is_wrapped s) e t (h, same))
  ]

  attribute_of-Post :
      {A : Type 0} (p : Exc → Bool) (o : Option L.Session)
      (op : L.Session → L.World → Result A × L.World) (s : State L)
      → ((session : L.Session) → Raises p (op session s.world).0)
      → (session : L.Session) × (o ≡ some session)
      → Post {A = A} (Same s) (Fails p s) (attribute_of L o op s)
  attribute_of-Post p none op s h (session, q) = cc
  attribute_of-Post p (some session) op s h _ = external-Post p (op session) s (h session)

  module _ (D : IsDocumented L) (c : Config) where
    pub raw_call-Post :
        (method : String) (params : List Value) (job : Bool) (timeout : Option ℕ) (s : State L)
        → IsConnected s
        → Post (Same s) (Fails is_wrapped s) (raw_call L method params job timeout s)
    unfolding raw_call
    raw_call-Post method params job timeout s connected =
        map_errors-Post is_transport s _ map_error-transport (
          attribute_of-Post is_transport s.client
            (λ session. L.call session method params job timeout) s
            (λ session. D.call_lem session method params job timeout s.world) connected)

    pub authenticate-Post :
        (session : L.Session) (s : State L)
        → Post (Same s) (Fails is_wrapped s) (authenticate L c session s)
    unfolding authenticate
    authenticate-Post session s = map_errors-Post is_mappable s _ map_error-mappable (
        Post-handle (Same s) (Fails is_login s) (Fails is_mappable s) _ _
          (external-Post is_login (L.login session c.username c.api_key) s
            (D.login_lem session c.username c.api_key s.world))
          (λ e t k. Post-err (Same s) (Fails is_mappable s) _ t (login_error-mappable e k.0, k.1)))

    pub login-Post :
        (session : L.Session) (s : State L)
        → Post (Same s) (Fails is_wrapped s) (login L c session s)
    unfolding login
    login-Post session s =
        Post-handle (Same s) (Fails is_wrapped s) (Fails is_wrapped s) _ _
          (authenticate-Post session s) (λ e t k. close_and_raise-Post s t session e k)

    -- `connect` sets `_client`, or leaves it alone and raises a wrapped error.
    pub connect-Post :
        (s : State L) → Post (λ _ t. IsConnected t) (Fails is_wrapped s) (connect L c s)
    unfolding connect
    connect-Post s =
        Post-continue (Same s) (λ _ t. IsConnected t) (Fails is_wrapped s) _ _
          (map_errors-Post is_transport s _ map_error-transport (
            external-Post is_transport (L.construct _ c.verify_ssl) s
              (D.construct_lem _ c.verify_ssl s.world)))
          λ session t same.
            Post-continue (Same t) (λ _ t. IsConnected t) (Fails is_wrapped s) _ _
              (Post-weaken (Same t) (Same t) (Fails is_wrapped t) (Fails is_wrapped s) _
                (login-Post session t) (λ a u k. k) (λ e u k. (k.0, k.1 ∙ same)))
              (λ a u k. Post-ok (λ _ t. IsConnected t) (Fails is_wrapped s) tt _ (session, refl))

    pub close_session-Post :
        (E : Exc → State L → Type 0) (o : Option L.Session) (s : State L)
        → Post (Same s) E (close_session L o s)
    close_session-Post E none s = Post-ok (Same s) E tt s refl
    close_session-Post E (some session) s = suppress-Post E session s
