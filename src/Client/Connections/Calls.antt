-- ===== src/Client/Connections/Calls.antt =====
-- client.py, `connect`, `close` and `call`: of the connections that were not open before, none is
-- open but that of `_client`.
use ha_truenas_ng.Base.{◌≡◌, refl, inl, inr, Bool, true, ℕ, String, Option, none, some, List, arith}
use ha_truenas_ng.Result.{Exc, Result, ok, err, connection_error, is_truenas_error}
use ha_truenas_ng.Action.{handle, continue}
use ha_truenas_ng.Action.Post.{Post, Post-ok, Post-err, Post-handle, Post-continue, Post-weaken}
use ha_truenas_ng.Value.{Value}
use ha_truenas_ng.Client.{
  Config, State, external, map_error, login_error, authenticate, login, close_and_raise, connect,
  close_session, close, attribute_of, raw_call, ensure, ensure_connected, retry, call,
}
use ha_truenas_ng.Client.Upstream.{Library}
use ha_truenas_ng.Client.Rules.{IsDocumented, is_wrapped, Fails, authenticate-Post}
use ha_truenas_ng.Client.Connections.{
  Constructs, IsTracked, Ended, Held, Pending, Less, Ended-Held, Held-Ended, Less-Held,
  Less-Pending, always, both, handled,
}

module _ (L : Library) (is_open : L.World → L.Session → Bool) (tracked : IsTracked L is_open)
    (D : IsDocumented L) (c : Config) (w : L.World) where
  authenticate-Less :
      (session : L.Session) (s : State L) → Less L is_open s (authenticate L c session s).1
  unfolding authenticate external
  authenticate-Less session s = handled L is_open (Less L is_open s) (map_error L) _ (
      handled L is_open (Less L is_open s) (login_error L) _
        (refl, tracked.login_lem session c.username c.api_key s.world))

  attribute_of-Less :
      (o : Option L.Session) (method : String) (params : List Value) (job : Bool)
      (timeout : Option ℕ) (s : State L)
      → Less L is_open s
          (attribute_of L o (λ session. L.call session method params job timeout) s).1
  unfolding external
  attribute_of-Less none method params job timeout s = (refl, λ x o. o)
  attribute_of-Less (some session) method params job timeout s =
      (refl, tracked.call_lem session method params job timeout s.world)

  raw_call-Held :
      (method : String) (params : List Value) (job : Bool) (timeout : Option ℕ) (s : State L)
      → Held L is_open w s
      → Held L is_open w (raw_call L method params job timeout s).1
  unfolding raw_call
  raw_call-Held method params job timeout s h =
      Less-Held L is_open w s _
        (handled L is_open (Less L is_open s) (map_error L) _
          (attribute_of-Less s.client method params job timeout s))
        h

  abbrev Refused : Exc → State L → Type 0
  Refused e t = Ended L is_open w t

  made :
      (s : State L) (m : Result L.Session × L.World)
      → Constructs L is_open s.world m
      → Ended L is_open w s
      → Post
          (Pending L is_open w)
          Refused
          (handle (m.0, record s { world = m.1 }) (λ e t. (err (map_error L e), t)))
  unfolding handle Post
  made s (ok session, v) k (p, f) = (p, λ x o. elim (k x o) [ inl q ↦ inl q | inr q ↦ inr (f x q) ])
  made s (err e, v) k (p, f) = (p, λ x o. f x (k x o))

  -- A session that is closed is not among those that are open.
  shut :
      (session : L.Session) (s : State L)
      → Pending L is_open w session s
      → Ended L is_open w (record s { world = (L.close session s.world).1 })
  shut session s (p, h) = (
    p,
    λ x o. elim (h x (tracked.close_lem session s.world x o)) [
      | inl q ↦ cc (tracked.closed_lem session s.world)
      | inr q ↦ q
    ],
  )

  suppressed :
      (E : Exc → State L → Type 0) (s : State L) (m : Result (Unit {0}) × L.World)
      → Ended L is_open w (record s { world = m.1 })
      → Post
          (λ _ t. Ended L is_open w t)
          E
          (handle (m.0, record s { world = m.1 }) (λ e t. (ok tt, t)))
  unfolding handle Post
  suppressed E s (ok u, v) h = h
  suppressed E s (err e, v) h = h

  close_and_raise-Ended :
      (session : L.Session) (e : Exc) (s : State L)
      → is_wrapped e ≡ true
      → Pending L is_open w session s
      → Post {A = Unit {0}} (λ _ t. ⊥) Refused (close_and_raise L session e s)
  unfolding external
  close_and_raise-Ended session e s h k =
      let q : is_truenas_error e ≡ true = ground arith in
      rw q (
        Post-continue (λ _ t. Ended L is_open w t) (λ _ t. ⊥) Refused _ _
          (suppressed Refused s (L.close session s.world) (shut session s k))
          (λ a t ended. Post-err (λ _ t. ⊥) Refused e t ended))

  login-Pending :
      (session : L.Session) (s : State L)
      → Pending L is_open w session s
      → Post (λ _ t. Pending L is_open w session t) Refused (login L c session s)
  unfolding login
  login-Pending session s k =
      Post-handle (λ _ t. Pending L is_open w session t)
        (λ e t. Fails L is_wrapped s e t × Pending L is_open w session t) Refused _ _
        (both L is_open _ (Fails L is_wrapped s) (Pending L is_open w session) _
          (authenticate-Post L D c session s)
          (Less-Pending L is_open w session s _ (authenticate-Less session s) k))
        λ e t (h, j).
          Post-weaken (λ _ t. ⊥) (λ _ t. Pending L is_open w session t) Refused Refused _
            (close_and_raise-Ended session e t h.0 j) (λ a u k. absurd k) (λ e u k. k)

  -- A connection that is made is that of `_client`; one that fails leaves none.
  connect-Held :
      (s : State L) → Ended L is_open w s → Post (λ _ t. Held L is_open w t) Refused (connect L c s)
  unfolding connect external
  connect-Held s k =
      Post-continue (Pending L is_open w) (λ _ t. Held L is_open w t) Refused _ _
        (made s _ (tracked.construct_lem _ c.verify_ssl s.world) k)
        λ session t j.
          Post-continue (λ _ u. Pending L is_open w session u) (λ _ t. Held L is_open w t) Refused _
            _ (login-Pending session t j)
            λ a u (p, h).
              Post-ok (λ _ t. Held L is_open w t) Refused tt _
                (λ x o. elim (h x o) [ inl q ↦ inl (cc q) | inr q ↦ inr q ])

  close_session-Ended :
      (o : Option L.Session) (s : State L)
      → Held L is_open w (record s { client = o })
      → Post
          (λ _ t. Ended L is_open w t)
          (λ _ _. ⊥)
          (close_session L o (record s { client = none }))
  unfolding external
  close_session-Ended none s h =
      Post-ok (λ _ t. Ended L is_open w t) (λ _ _. ⊥) tt _
        (refl, λ x o. elim (h x o) [ inl q ↦ cc | inr q ↦ q ])
  close_session-Ended (some session) s h =
      suppressed (λ _ _. ⊥) (record s { client = none }) (L.close session s.world)
        (shut session (record s { client = none })
          (refl, λ x o. elim (h x o) [ inl q ↦ inl (cc q) | inr q ↦ inr q ]))

  pub close-Ended :
      (s : State L) → Held L is_open w s → Post (λ _ t. Ended L is_open w t) (λ _ _. ⊥) (close L s)
  unfolding close continue
  close-Ended s h = close_session-Ended s.client s h

  abbrev pub Holds : {A : Type 0} → A → State L → Type 0
  Holds _ t = Held L is_open w t

  pub reconnects : (s : State L) → Ended L is_open w s → Post Holds Holds (connect L c s)
  reconnects s k =
      Post-weaken Holds Holds Refused Holds _ (connect-Held s k) (λ a t h. h)
        (λ e t h. Ended-Held L is_open w t h)

  ensure-Held :
      (o : Option L.Session) (s : State L)
      → s.client ≡ o
      → Held L is_open w s
      → Post Holds Holds (ensure L o c s)
  ensure-Held none s p h = reconnects s (Held-Ended L is_open w s h p)
  ensure-Held (some session) s p h = Post-ok Holds Holds tt s h

  requests :
      (method : String) (params : List Value) (job : Bool) (timeout : Option ℕ) (s : State L)
      → Held L is_open w s
      → Post Holds Holds (raw_call L method params job timeout s)
  requests method params job timeout s h =
      always L is_open (Held L is_open w) _ (raw_call-Held method params job timeout s h)

  retry-Held :
      (method : String) (params : List Value) (job : Bool) (timeout : Option ℕ) (e : Exc)
      (s : State L)
      → Held L is_open w s
      → Post Holds Holds (retry L c method params job timeout e s)
  unfolding retry
  retry-Held method params job timeout (connection_error m) s h =
      Post-continue (λ _ t. Ended L is_open w t) Holds Holds _ _
        (Post-weaken (λ _ t. Ended L is_open w t) (λ _ t. Ended L is_open w t) (λ _ _. ⊥) Holds _
          (close-Ended s h) (λ a t k. k) (λ e t k. absurd k))
        λ a t k.
          Post-continue Holds Holds Holds _ _ (reconnects t k)
            (λ b u j. requests method params job timeout u j)
  retry-Held method params job timeout e s h = Post-err Holds Holds e s h

  pub call-Held :
      (method : String) (params : List Value) (job : Bool) (timeout : Option ℕ) (s : State L)
      → Held L is_open w s
      → Post Holds Holds (call L c method params job timeout s)
  unfolding call ensure_connected
  call-Held method params job timeout s h =
      Post-continue Holds Holds Holds _ _ (ensure-Held s.client s refl h) λ a t k.
        Post-handle Holds Holds Holds _ _ (requests method params job timeout t k)
          (λ e u j. retry-Held method params job timeout e u j)
