-- ===== src/Client/Connections.antt =====
-- client.py: the connections that are open, where the library tells them apart. The wrapper keeps
-- a connection only as its `_client`.
pub mod Calls
use ha_truenas_ng.Base.{
  ◌≡◌, refl, ◌∙◌, ◌⊎◌, inl, inr, Bool, true, false, ℕ, String, Option, none, some, List, arith,
}
use ha_truenas_ng.Result.{Exc, Result, ok, err, connection_error, is_truenas_error}
use ha_truenas_ng.Action.{Action, handle, continue}
use ha_truenas_ng.Action.Post.{Post, Post-ok, Post-err, Post-handle, Post-continue, Post-weaken}
use ha_truenas_ng.Value.{Value}
use ha_truenas_ng.Client.{
  Config, State, uri, external, map_error, login_error, authenticate, login, close_and_raise,
  connect, close_session, close, attribute_of, raw_call, ensure, ensure_connected, retry, call,
}
use ha_truenas_ng.Client.Upstream.{Library}
use ha_truenas_ng.Client.Rules.{
  IsDocumented, Raises, is_transport, is_wrapped, Fails, map_error-transport, authenticate-Post,
}

module _ (L : Library) (is_open : L.World → L.Session → Bool) where
  -- Each connection that is open in the second world is open in the first.
  abbrev pub NoMore : L.World → L.World → Type 0
  NoMore w w' = (x : L.Session) → is_open w' x ≡ true → is_open w x ≡ true

  abbrev pub Constructs : L.World → Result L.Session × L.World → Type 0
  Constructs w (ok session, w') =
      (x : L.Session) → is_open w' x ≡ true → (x ≡ session) ⊎ (is_open w x ≡ true)
  Constructs w (err e, w') = NoMore w w'

  -- What the library documents of connections: the constructor opens its own or, if it raises, none;
  -- the other operations open none; and `close` closes that of its client.
  pub record IsTracked : Type 0 where
    pub construct_lem :
        (uri : String) (verify : Bool) (w : L.World) → Constructs w (L.construct uri verify w)
    pub login_lem :
        (session : L.Session) (user key : String) (w : L.World)
        → NoMore w (L.login session user key w).1
    pub call_lem :
        (session : L.Session) (method : String) (params : List Value) (job : Bool)
        (timeout : Option ℕ) (w : L.World)
        → NoMore w (L.call session method params job timeout w).1
    pub close_lem : (session : L.Session) (w : L.World) → NoMore w (L.close session w).1
    pub closed_lem :
        (session : L.Session) (w : L.World) → is_open (L.close session w).1 session ≡ false

  -- `_client` is dropped, and no connection is open that was not open in `w`.
  abbrev pub Ended : L.World → State L → Type 0
  Ended w t = (t.client ≡ none) × NoMore w t.world

  -- Of the connections that were not open in `w`, none is open but that of `_client`.
  abbrev pub Held : L.World → State L → Type 0
  Held w t = (x : L.Session) → is_open t.world x ≡ true → (t.client ≡ some x) ⊎ (is_open w x ≡ true)

  -- The same with a new client that is not assigned yet.
  abbrev pub Pending : L.World → L.Session → State L → Type 0
  Pending w session t =
      (t.client ≡ none)
      × ((x : L.Session) → is_open t.world x ≡ true → (x ≡ session) ⊎ (is_open w x ≡ true))

  -- An operation that leaves `_client` and opens nothing.
  abbrev pub Less : State L → State L → Type 0
  Less s t = (t.client ≡ s.client) × NoMore s.world t.world

  pub Ended-Held : (w : L.World) (t : State L) → Ended w t → Held w t
  Ended-Held w t (p, f) x o = inr (f x o)

  pub Held-Ended : (w : L.World) (t : State L) → Held w t → t.client ≡ none → Ended w t
  Held-Ended w t h p = (p, λ x o. elim (h x o) [ inl q ↦ cc | inr q ↦ q ])

  pub Less-Held : (w : L.World) (s t : State L) → Less s t → Held w s → Held w t
  Less-Held w s t (p, f) h x o = elim (h x (f x o)) [ inl q ↦ inl (p ∙ q) | inr q ↦ inr q ]

  pub Less-Pending :
      (w : L.World) (session : L.Session) (s t : State L)
      → Less s t
      → Pending w session s
      → Pending w session t
  Less-Pending w session s t (p, f) (q, h) = (p ∙ q, λ x o. h x (f x o))

  -- What holds of the state that an action left, however it ended.
  pub always :
      {A : Type 0} (P : State L → Type 0) (m : Result A × State L)
      → P m.1
      → Post (λ _ t. P t) (λ _ t. P t) m
  always P (ok a, t) h = Post-ok (λ _ t. P t) (λ _ t. P t) a t h
  always P (err e, t) h = Post-err (λ _ t. P t) (λ _ t. P t) e t h

  pub both :
      {A : Type 0} (Q : A → State L → Type 0) (E : Exc → State L → Type 0) (P : State L → Type 0)
      (m : Result A × State L)
      → Post Q E m
      → P m.1
      → Post (λ _ t. P t) (λ e t. E e t × P t) m
  unfolding Post
  both Q E P (ok a, t) h k = k
  both Q E P (err e, t) h k = (h, k)

  -- A handler that raises another exception leaves the state.
  pub handled :
      {A : Type 0} (P : State L → Type 0) (f : Exc → Exc) (m : Result A × State L)
      → P m.1
      → P (handle m (λ e t. (err (f e), t))).1
  unfolding handle
  handled P f (ok a, t) h = h
  handled P f (err e, t) h = h
