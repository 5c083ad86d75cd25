-- ===== src/Client/Threads/Ends.antt =====
-- A call ends however often a close takes a turn in between.
use ha_truenas_ng.Base.{
  ◌≡◌, refl, ℕ, suc, ◌-◌, ◌≤◌, Bool, String, Option, none, some, List, [], ◌∷◌, arith, Bool-cases,
  inl, inr,
}
use ha_truenas_ng.Result.{Exc, Result, ok, err, connection_error, is_truenas_error}
use ha_truenas_ng.Action.{handle}
use ha_truenas_ng.Value.{Value}
use ha_truenas_ng.Client.{Config, State, map_error, authenticate}
use ha_truenas_ng.Client.Rules.{IsDocumented}
use ha_truenas_ng.Client.Upstream.{Library}
use ha_truenas_ng.Client.Threads.{
  first, second, Phase, ready, constructing, logging_in, discarding, storing, sending, requesting,
  resetting, dropping, shutting, finished, Closing, constructed, rejected, admitted, replied, read,
  tested, advance, advance_close, Threads, calls, closes, Reach, here, next, start, after_call,
  after_close,
}
use ha_truenas_ng.Client.Threads.Safety.{MayRaise, Reach-MayRaise}

-- Whose turn it is.
pub data Turn : Type 0 where
  of_call of_close : Turn

abbrev pub turns_of_call : List Turn → ℕ
turns_of_call [] = 0
turns_of_call (of_call ∷ ts) = suc (turns_of_call ts)
turns_of_call (of_close ∷ ts) = turns_of_call ts

module _ (L : Library) where
  -- What a call may end with.
  abbrev pub MayEnd : Closing L → Result Value → Type 0
  MayEnd d (ok v) = Unit
  MayEnd d (err e) = MayRaise L d e

  -- How many steps a call can take at most.
  abbrev rank : Phase L → ℕ
  rank (finished r) = 0
  rank (discarding session e) = 1
  rank (requesting second session) = 1
  rank (sending second) = 2
  rank (storing second session) = 3
  rank (logging_in second session) = 4
  rank (constructing second) = 5
  rank (shutting o) = 6
  rank (dropping o) = 7
  rank resetting = 8
  rank (requesting first session) = 9
  rank (sending first) = 10
  rank (storing first session) = 11
  rank (logging_in first session) = 12
  rank (constructing first) = 13
  rank ready = 14

  abbrev Below : ℕ → Phase L × State L → Type 0
  Below n (p, s) = rank p ≤ n

  tested-Below : (o : Option L.Session) (s : State L) → Below 13 (tested L o, s)
  tested-Below none s = omega arith
  tested-Below (some session) s = omega arith

  constructed_first : (m : Result L.Session × State L) → Below 12 (constructed L first m)
  constructed_first (ok session, s) = omega arith
  constructed_first (err e, s) = omega arith

  constructed_second : (m : Result L.Session × State L) → Below 4 (constructed L second m)
  constructed_second (ok session, s) = omega arith
  constructed_second (err e, s) = omega arith

  rank-rejected : (session : L.Session) (e : Exc) → rank (rejected L session e) ≤ 1
  rank-rejected session e = elim (Bool-cases (is_truenas_error e)) [
    | inl q ↦ rw q (omega arith)
    | inr q ↦ rw q (omega arith)
  ]

  admitted_first :
      (session : L.Session) (m : Result (Unit {0}) × State L)
      → Below 11 (admitted L first session m)
  admitted_first session (ok _, s) = omega arith
  admitted_first session (err e, s) = omega (arith, rank-rejected session e)

  admitted_second :
      (session : L.Session) (m : Result (Unit {0}) × State L)
      → Below 3 (admitted L second session m)
  admitted_second session (ok _, s) = omega arith
  admitted_second session (err e, s) = omega (arith, rank-rejected session e)

  replied_first : (m : Result Value × State L) → Below 8 (replied L first m)
  replied_first (ok v, s) = omega arith
  replied_first (err (connection_error m), s) = omega arith
  replied_first (err _, s) = omega arith

  replied_second : (m : Result Value × State L) → Below 0 (replied L second m)
  replied_second (ok v, s) = omega arith
  replied_second (err e, s) = omega arith

  read_first : (o : Option L.Session) (s : State L) → Below 9 (read L first o s)
  unfolding map_error handle
  read_first none s = omega arith
  read_first (some session) s = omega arith

  read_second : (o : Option L.Session) (s : State L) → Below 1 (read L second o s)
  unfolding map_error handle
  read_second none s = omega arith
  read_second (some session) s = omega arith

  rank-zero : (p : Phase L) → rank p ≤ 0 → (r : Result Value) × (p ≡ finished r)
  rank-zero (finished r) h = (r, refl)
  rank-zero (requesting first session) h = absurd (omega arith)
  rank-zero (requesting second session) h = absurd (omega arith)
  rank-zero (sending first) h = absurd (omega arith)
  rank-zero (sending second) h = absurd (omega arith)
  rank-zero (storing first session) h = absurd (omega arith)
  rank-zero (storing second session) h = absurd (omega arith)
  rank-zero (logging_in first session) h = absurd (omega arith)
  rank-zero (logging_in second session) h = absurd (omega arith)
  rank-zero (constructing first) h = absurd (omega arith)
  rank-zero (constructing second) h = absurd (omega arith)
  rank-zero (discarding session e) h = absurd (omega arith)
  rank-zero (shutting o) h = absurd (omega arith)
  rank-zero (dropping o) h = absurd (omega arith)
  rank-zero resetting h = absurd (omega arith)
  rank-zero ready h = absurd (omega arith)

  module _ (c : Config) (method : String) (params : List Value) (job : Bool)
      (timeout : Option ℕ) where
    advance-Below :
        (p : Phase L) (s : State L) → Below (rank p - 1) (advance L c method params job timeout p s)
    unfolding advance map_error
    advance-Below ready s = tested-Below s.client s
    advance-Below (constructing first) s = constructed_first _
    advance-Below (constructing second) s = constructed_second _
    advance-Below (logging_in first session) s = admitted_first session (authenticate L c session s)
    advance-Below (logging_in second session) s =
        admitted_second session (authenticate L c session s)
    advance-Below (discarding session e) s = omega arith
    advance-Below (dropping o) s = omega arith
    advance-Below (shutting o) s = omega arith
    advance-Below (storing first session) s = omega arith
    advance-Below (storing second session) s = omega arith
    advance-Below (sending first) s = read_first s.client s
    advance-Below (sending second) s = read_second s.client s
    advance-Below (requesting first session) s = replied_first _
    advance-Below (requesting second session) s = replied_second _
    advance-Below resetting s = omega arith
    advance-Below (finished r) s = omega arith

    -- Both threads by a schedule.
    abbrev turn :
        Turn → Threads L c method params job timeout → Threads L c method params job timeout
    turn of_call t =
        after_call L c method params job timeout t.closer
          (advance L c method params job timeout t.caller t.shared)
    turn of_close t =
        after_close L c method params job timeout t.caller
          (advance_close L c method params job timeout t.closer t.shared)

    unfoldable pub run :
        List Turn → Threads L c method params job timeout → Threads L c method params job timeout
    run [] t = t
    run (x ∷ xs) t = run xs (turn x t)

    run-Reach :
        (xs : List Turn) {s t : Threads L c method params job timeout}
        → Reach L c method params job timeout s t
        → Reach L c method params job timeout s (run xs t)
    unfolding run
    run-Reach [] r = r
    run-Reach (of_call ∷ xs) r = run-Reach xs (next r calls)
    run-Reach (of_close ∷ xs) r = run-Reach xs (next r closes)

    run-rank :
        (xs : List Turn) (t : Threads L c method params job timeout)
        → rank (run xs t).caller ≤ rank t.caller - turns_of_call xs
    unfolding run
    run-rank [] t = omega arith
    run-rank (of_call ∷ xs) t =
        omega (arith, run-rank xs (turn of_call t), advance-Below t.caller t.shared)
    run-rank (of_close ∷ xs) t = run-rank xs (turn of_close t)

    ended :
        (D : IsDocumented L) (s : State L) (t : Threads L c method params job timeout)
        (r : Result Value)
        → Reach L c method params job timeout (start L c method params job timeout s) t
        → t.caller ≡ finished r
        → MayEnd t.closer r
    ended D s t (ok v) reached p = tt
    ended D s t (err e) reached p = Reach-MayRaise L D c method params job timeout s t e reached p

    -- Over a library that keeps to its documentation, and in whatever order a call and a close take
    -- their turns: after fourteen turns of the call it is at its end, where it has a value, or one of the
    -- wrapper's own errors, or, once the close has dropped `_client`, AttributeError.
    pub run-ends :
        (D : IsDocumented L) (s : State L) (xs : List Turn)
        → 14 ≤ turns_of_call xs
        → (r : Result Value) × ((run xs (start L c method params job timeout s)).caller
            ≡ finished r)
          × MayEnd (run xs (start L c method params job timeout s)).closer r
    run-ends D s xs h =
        let t : Threads L c method params job timeout =
          run xs (start L c method params job timeout s) in
        let (r, p) =
          rank-zero t.caller (omega (arith, run-rank xs (start L c method params job timeout s))) in
        (r, p, ended D s t r (run-Reach xs here) p)
