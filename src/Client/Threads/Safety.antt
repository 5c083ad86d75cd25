-- ===== src/Client/Threads/Safety.antt =====
-- What a call may end with while a close takes turns with it.
use ha_truenas_ng.Base.{
  ◌≡◌, refl, ◌⊎◌, inl, inr, ℕ, Bool, true, String, Option, none, some, List, Bool-cases,
}
use ha_truenas_ng.Result.{Exc, Result, ok, err, connection_error, attribute_error, is_truenas_error}
use ha_truenas_ng.Action.{handle}
use ha_truenas_ng.Action.Post.{Post, Post-weaken}
use ha_truenas_ng.Value.{Value}
use ha_truenas_ng.Client.{Config, State, map_error}
use ha_truenas_ng.Client.Upstream.{Library}
use ha_truenas_ng.Client.Rules.{
  IsDocumented, is_wrapped, is_transport, IsConnected, Same, Fails, external-Post, map_errors-Post,
  map_error-transport, authenticate-Post,
}
use ha_truenas_ng.Client.Threads.{
  Attempt, first, second, Phase, ready, constructing, logging_in, discarding, storing, sending,
  requesting, resetting, dropping, shutting, finished, Closing, waiting, holding, dropped, closed,
  constructed, rejected, admitted, replied, read, tested, advance, advance_close, Threads, calls,
  closes, Reach, here, next, start,
}
use mathlib.Core.Path.{subst}

module _ (L : Library) where
  -- The close has dropped `_client`.
  abbrev pub HasDropped : Closing L → Type 0
  HasDropped waiting = ⊥
  HasDropped (holding o) = ⊥
  HasDropped (dropped o) = Unit
  HasDropped closed = Unit

  -- An error that a call may end with: a wrapped one, or that of the missing client, which only the
  -- close brings about.
  abbrev pub MayRaise : Closing L → Exc → Type 0
  MayRaise d e = (is_wrapped e ≡ true) ⊎ ((e ≡ attribute_error) × HasDropped d)

module _ (L : Library) (D : IsDocumented L) (c : Config) (method : String) (params : List Value)
    (job : Bool) (timeout : Option ℕ) where
  -- `_client` is there for a request, unless the close has dropped it.
  Inv : Phase L → Closing L → State L → Type 0
  Inv (sending a) d s = IsConnected L s ⊎ HasDropped L d
  Inv (discarding session e) d s = is_wrapped e ≡ true
  Inv (finished (err e)) d s = MayRaise L d e
  Inv _ d s = Unit

  abbrev Safe : Closing L → Phase L × State L → Type 0
  Safe d (p, s) = Inv p d s

  constructed-Safe :
      (d : Closing L) (a : Attempt) (s : State L) (m : Result L.Session × State L)
      → Post (Same L s) (Fails L is_wrapped s) m
      → Safe d (constructed L a m)
  unfolding Inv Post
  constructed-Safe d a s (ok session, t) h = tt
  constructed-Safe d a s (err e, t) h = inl h.0

  rejected-Safe :
      (d : Closing L) (session : L.Session) (e : Exc) (s : State L)
      → is_wrapped e ≡ true
      → Safe d (rejected L session e, s)
  unfolding Inv
  rejected-Safe d session e s h = elim (Bool-cases (is_truenas_error e)) [
    | inl q ↦ rw q h
    | inr q ↦ rw q (inl h)
  ]

  admitted-Safe :
      (d : Closing L) (a : Attempt) (session : L.Session) (s : State L)
      (m : Result (Unit {0}) × State L)
      → Post (Same L s) (Fails L is_wrapped s) m
      → Safe d (admitted L a session m)
  unfolding Inv Post
  admitted-Safe d a session s (ok _, t) h = tt
  admitted-Safe d a session s (err e, t) h = rejected-Safe d session e t h.0

  replied-Safe :
      (d : Closing L) (a : Attempt) (m : Result Value × State L)
      → Post (λ _ _. Unit {0}) (λ e _. MayRaise L d e) m
      → Safe d (replied L a m)
  unfolding Inv Post
  replied-Safe d a (ok v, s) h = tt
  replied-Safe d first (err (connection_error m), s) h = tt
  replied-Safe d first (err _, s) h = h
  replied-Safe d second (err e, s) h = h

  requested-Safe :
      (d : Closing L) (a : Attempt) (session : L.Session) (s : State L)
      → Safe d (advance L c method params job timeout (requesting a session) s)
  unfolding advance
  requested-Safe d a session s = replied-Safe d a _ (
      Post-weaken (Same L s) (λ _ _. Unit {0}) (Fails L is_wrapped s) (λ e _. MayRaise L d e) _
        (map_errors-Post L is_transport s _ (map_error-transport L) (
          external-Post L is_transport (L.call session method params job timeout) s
            (D.call_lem session method params job timeout s.world)))
        (λ v t k. tt) (λ e t k. inl k.0))

  read-Safe :
      (d : Closing L) (a : Attempt) (o : Option L.Session) (s : State L)
      → s.client ≡ o
      → (IsConnected L s ⊎ HasDropped L d)
      → Safe d (read L a o s)
  unfolding Inv map_error handle
  read-Safe d a (some session) s p h = tt
  read-Safe d a none s p (inl (session, q)) = cc
  read-Safe d first none s p (inr h) = inr (refl, h)
  read-Safe d second none s p (inr h) = inr (refl, h)

  tested-Safe :
      (d : Closing L) (o : Option L.Session) (s : State L) → s.client ≡ o → Safe d (tested L o, s)
  unfolding Inv
  tested-Safe d none s p = tt
  tested-Safe d (some session) s p = inl (session, p)

  advance-Safe :
      (d : Closing L) (p : Phase L) (s : State L)
      → Inv p d s
      → Safe d (advance L c method params job timeout p s)
  unfolding advance Inv
  advance-Safe d ready s h = tested-Safe d s.client s refl
  advance-Safe d (constructing a) s h = constructed-Safe d a s _ (
      map_errors-Post L is_transport s _ (map_error-transport L) (
        external-Post L is_transport (L.construct _ c.verify_ssl) s
          (D.construct_lem _ c.verify_ssl s.world)))
  advance-Safe d (logging_in a session) s h =
      admitted-Safe d a session s _ (authenticate-Post L D c session s)
  advance-Safe d (discarding session e) s h = inl h
  advance-Safe d (storing a session) s h = inl (session, refl)
  advance-Safe d (sending a) s h = read-Safe d a s.client s refl h
  advance-Safe d (requesting a session) s h = requested-Safe d a session s
  advance-Safe d resetting s h = tt
  advance-Safe d (dropping o) s h = tt
  advance-Safe d (shutting o) s h = tt
  advance-Safe d (finished r) s h = h

  abbrev SafeClose : Phase L → Closing L × State L → Type 0
  SafeClose p (d, s) = Inv p d s

  Inv-weaken :
      (p : Phase L) (d d' : Closing L) (s s' : State L)
      → (HasDropped L d → HasDropped L d')
      → (IsConnected L s → IsConnected L s' ⊎ HasDropped L d')
      → Inv p d s
      → Inv p d' s'
  unfolding Inv
  Inv-weaken (sending a) d d' s s' more kept (inl k) = kept k
  Inv-weaken (sending a) d d' s s' more kept (inr k) = inr (more k)
  Inv-weaken (finished (err e)) d d' s s' more kept (inl k) = inl k
  Inv-weaken (finished (err e)) d d' s s' more kept (inr (k, l)) = inr (k, more l)
  Inv-weaken (discarding session e) d d' s s' more kept h = h
  Inv-weaken _ d d' s s' more kept h = tt

  advance_close-Safe :
      (d : Closing L) (p : Phase L) (s : State L)
      → Inv p d s
      → SafeClose p (advance_close L c method params job timeout d s)
  unfolding advance_close
  advance_close-Safe waiting p s h =
      Inv-weaken p waiting (holding s.client) s s (λ k. k) (λ k. inl k) h
  advance_close-Safe (holding o) p s h =
      Inv-weaken p (holding o) (dropped o) s (record s { client = none }) (λ k. tt) (λ k. inr tt) h
  advance_close-Safe (dropped o) p s h =
      Inv-weaken p (dropped o) closed s _ (λ k. tt) (λ k. inr tt) h
  advance_close-Safe closed p s h = h

  Reach-Safe :
      (s : State L) {t : Threads L c method params job timeout}
      → Reach L c method params job timeout (start L c method params job timeout s) t
      → Inv t.caller t.closer t.shared
  unfolding Inv
  Reach-Safe s here = tt
  Reach-Safe s (next r calls) = advance-Safe _ _ _ (Reach-Safe s r)
  Reach-Safe s (next r closes) = advance_close-Safe _ _ _ (Reach-Safe s r)

  -- However the steps of a call and a close alternate, over a library that keeps to its
  -- documentation, a call that ends in an exception raises one of the wrapper's own, or, once the
  -- close has dropped `_client`, AttributeError.
  pub Reach-MayRaise :
      (s : State L) (t : Threads L c method params job timeout) (e : Exc)
      → Reach L c method params job timeout (start L c method params job timeout s) t
      → t.caller ≡ finished (err e)
      → MayRaise L t.closer e
  unfolding Inv
  Reach-MayRaise s t e r p = subst (λ q. Inv q t.closer t.shared) p (Reach-Safe s r)
