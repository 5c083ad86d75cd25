-- ===== src/Client/Threads/Races.antt =====
-- What can go wrong where a close meets a call.
use ha_truenas_ng.Base.{◌≡◌, ℕ, Bool, String, Option, none, some, List, arith}
use ha_truenas_ng.Result.{Exc, Result, ok, err, attribute_error}
use ha_truenas_ng.Action.{handle}
use ha_truenas_ng.Value.{Value}
use ha_truenas_ng.Client.{Config, State, map_error, external, uri, authenticate}
use ha_truenas_ng.Client.Retry.{IsRetried}
use ha_truenas_ng.Client.Upstream.{Library}
use ha_truenas_ng.Client.Threads.{
  Attempt, first, second, Phase, constructing, logging_in, storing, requesting, resetting, finished,
  Closing, dropped, closed, advance, advance_close, Threads, calls, closes, Reach, here, next,
  start,
}
use mathlib.Core.Path.{subst}

module _ (L : Library) (c : Config) (method : String) (params : List Value) (job : Bool)
    (timeout : Option ℕ) where
  abbrev pub at : Phase L → Closing L → State L → Threads L c method params job timeout
  at p d s = record { caller = p; closer = d; shared = s }

  abbrev pub over : Option L.Session → L.World → State L
  over o w = record { client = o; world = w }

  -- What can follow from both threads' start, where `_client` is open.
  abbrev pub After : L.Session → L.World → Threads L c method params job timeout → Type 0
  After session w =
      Reach L c method params job timeout
        (start L c method params job timeout (over (some session) w))

  abbrev steps : Phase L → State L → Phase L × State L
  steps = advance L c method params job timeout

  by_call :
      {session : L.Session} {w : L.World} {d : Closing L} (p q : Phase L) (s t : State L)
      → steps p s ≡ (q, t)
      → After session w (at p d s)
      → After session w (at q d t)
  by_call {session} {w} {d} p q s t e r =
      subst (λ (m : Phase L × State L). After session w (at m.0 d m.1)) e (next r calls)

  by_close :
      {session : L.Session} {w : L.World} {p : Phase L} (d f : Closing L) (s t : State L)
      → advance_close L c method params job timeout d s ≡ (f, t)
      → After session w (at p d s)
      → After session w (at p f t)
  by_close {session} {w} {p} d f s t e r =
      subst (λ (m : Closing L × State L). After session w (at p m.0 m.1)) e (next r closes)

  -- The request is under way over the session that the close has dropped.
  in_flight :
      (session : L.Session) (w : L.World)
      → After session w (at (requesting first session) (dropped (some session)) (over none w))
  unfolding advance advance_close
  in_flight session w = next (next (next (next here calls) calls) closes) closes

  -- If a close drops `_client` between a call's test of it and its request, the call ends in an
  -- AttributeError.
  pub close-breaks-call :
      (session : L.Session) (w : L.World)
      → After session w (at (finished (err attribute_error)) (dropped (some session)) (over none w))
  unfolding advance advance_close map_error handle
  close-breaks-call session w = next (next (next (next here calls) closes) closes) calls

  shut :
      (session : L.Session) (o : Option L.Session) (w w1 : L.World) (r : Result (Unit {0}))
      → L.close session w ≡ (r, w1)
      → advance_close L c method params job timeout (dropped (some session)) (over o w)
        ≡ (closed, over o w1)
  unfolding advance_close external handle
  shut session o w w1 r h = ground arith

  lost :
      (session : L.Session) (o : Option L.Session) (w w1 : L.World) (e : Exc)
      → IsRetried L e
      → L.call session method params job timeout w ≡ (err e, w1)
      → steps (requesting first session) (over o w) ≡ (resetting, over o w1)
  unfolding advance external handle map_error
  lost session o w w1 e retried h = ground arith

  answered :
      (a : Attempt) (session : L.Session) (o : Option L.Session) (w w1 : L.World) (v : Value)
      → L.call session method params job timeout w ≡ (ok v, w1)
      → steps (requesting a session) (over o w) ≡ (finished (ok v), over o w1)
  unfolding advance external handle
  answered a session o w w1 v h = ground arith

  made :
      (a : Attempt) (session : L.Session) (o : Option L.Session) (w w1 : L.World)
      → L.construct (uri c) c.verify_ssl w ≡ (ok session, w1)
      → steps (constructing a) (over o w) ≡ (logging_in a session, over o w1)
  unfolding advance external handle
  made a session o w w1 f = ground arith

  logged_in :
      (a : Attempt) (session : L.Session) (o : Option L.Session) (w w1 : L.World)
      → L.login session c.username c.api_key w ≡ (ok tt, w1)
      → steps (logging_in a session) (over o w) ≡ (storing a session, over o w1)
  unfolding advance authenticate external handle
  logged_in a session o w w1 g = ground arith

  -- A call that starts over once its request failed, where `_client` is dropped already.
  reset :
      {session : L.Session} {w : L.World} {d : Closing L} (v : L.World)
      → After session w (at resetting d (over none v))
      → After session w (at (constructing second) d (over none v))
  unfolding advance
  reset v r = next (next (next r calls) calls) calls

  -- If a close ends the session while a request is under way over it, and the request fails for
  -- that, the call connects again: the close is over and a connection stays open behind it.
  pub close-leaves-open :
      (session session' : L.Session) (w w1 w2 w3 w4 w5 : L.World) (r : Result (Unit {0})) (e : Exc)
      (v : Value)
      → IsRetried L e
      → L.close session w ≡ (r, w1)
      → L.call session method params job timeout w1 ≡ (err e, w2)
      → L.construct (uri c) c.verify_ssl w2 ≡ (ok session', w3)
      → L.login session' c.username c.api_key w3 ≡ (ok tt, w4)
      → L.call session' method params job timeout w4 ≡ (ok v, w5)
      → After session w (at (finished (ok v)) closed (over (some session') w5))
  unfolding advance
  close-leaves-open session session' w w1 w2 w3 w4 w5 r e v retried a b d f g =
      by_call (requesting second session') (finished (ok v)) (over (some session') w4)
        (over (some session') w5) (answered second session' (some session') w4 w5 v g)
        (next
          (next
            (by_call (logging_in second session') (storing second session') (over none w3)
              (over none w4) (logged_in second session' none w3 w4 f)
              (by_call (constructing second) (logging_in second session') (over none w2)
                (over none w3) (made second session' none w2 w3 d)
                (reset w2 (
                  by_call (requesting first session) resetting (over none w1) (over none w2)
                    (lost session none w1 w2 e retried b)
                    (by_close (dropped (some session)) closed (over none w) (over none w1)
                      (shut session none w w1 r a) (in_flight session w))))))
            calls)
          calls)
