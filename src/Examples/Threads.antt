-- ===== src/Examples/Threads.antt =====
-- A call and a close on two threads.
use ha_truenas_ng.Base.{◌≡◌, ◌≢◌, refl, ℕ, suc, false, none, some, List, [], ◌∷◌, arith}
use ha_truenas_ng.Base.Int.{pos}
use ha_truenas_ng.Result.{Result, ok, err, client_exception}
use ha_truenas_ng.Value.{Value, str}
use ha_truenas_ng.Client.Upstream.{Library}
use ha_truenas_ng.Client.Threads.{finished, closed, start}
use ha_truenas_ng.Client.Threads.Races.{After, at, over, close-leaves-open}
use ha_truenas_ng.Client.Threads.Ends.{Turn, of_call, of_close, run, MayEnd, run-ends}
use ha_truenas_ng.Examples.{config, server, documented, open_at}

-- The close gets its turns after two of the call's.
abbrev schedule : List Turn
schedule =
    of_call ∷ of_call ∷ of_close ∷ of_close ∷ of_close ∷ of_call ∷ of_call ∷ of_call ∷ of_call
    ∷ of_call ∷ of_call ∷ of_call ∷ of_call ∷ of_call ∷ of_call ∷ of_call ∷ of_call ∷ []

run-ends_example :
    (r : Result Value) × ((run server config "system.info" [] false none schedule
        (start server config "system.info" [] false none (open_at 0))).caller
      ≡ finished r)
    × MayEnd server
        (run server config "system.info" [] false none schedule
          (start server config "system.info" [] false none (open_at 0))).closer
        r
run-ends_example =
    run-ends server config "system.info" [] false none documented (open_at 0) schedule (omega arith)

-- A server that answers over an open session, and over none that was closed.
abbrev answer_over : ℕ → Result Value
answer_over ℕ.zero = err (client_exception none "closed")
answer_over (suc n) = ok (str "nas-1")

abbrev one_session : Library
one_session = record {
  World = ℕ;
  Session = ℕ;
  construct = λ uri verify w. (ok 7, 1);
  login = λ session user key w. (ok tt, w);
  call = λ session method params job timeout w. (answer_over w, w);
  ping = λ session w. (answer_over w, w);
  close = λ session w. (ok tt, 0);
  enotauthenticated = pos 207;
}

refused_code : none ≢ some (pos 207)
refused_code p = cc

close-leaves-open_example : After one_session config "system.info" [] false none 7 1 (
    at one_session config "system.info" [] false none
      (finished (ok (str "nas-1")))
      closed
      (over one_session config "system.info" [] false none (some 7) 1))
close-leaves-open_example =
    close-leaves-open one_session config "system.info" [] false none 7 7 1 0 0 1 1 1 (ok tt)
      (client_exception none "closed") (str "nas-1") refused_code refl refl refl refl refl
