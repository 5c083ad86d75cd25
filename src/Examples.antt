-- ===== src/Examples.antt =====
-- Concrete inputs: a small server, and data as the API gives it.
pub mod Clients
pub mod Entries
pub mod Issues
pub mod Stores
pub mod Forwarded
pub mod Readings
pub mod Trees
pub mod Platforms
pub mod Threads
pub mod Setups
pub mod Forms
pub mod Saved
use ha_truenas_ng.Base.{ℕ, zero, suc, String, Bool, true, Option, none, some, List, ◌≡◌, refl}
use ha_truenas_ng.Base.Int.{ℤ, pos, negsuc}
use ha_truenas_ng.Result.{Result, ok, err, client_exception, zero_division}
use ha_truenas_ng.Value.{Value, str, float}
use ha_truenas_ng.Value.Runtime.{Runtime}
use ha_truenas_ng.Client.{Config, State}
use ha_truenas_ng.Client.Upstream.{Library}
use ha_truenas_ng.Client.Rules.{IsDocumented, Raises, is_transport}

abbrev pub config : Config
config = record {
  host = "nas.local";
  port = "443";
  username = "ha";
  api_key = "1-abc";
  verify_ssl = true;
}

-- The first request fails in the server, the second is refused, and the others are answered.
abbrev pub answer : ℕ → Result Value
answer zero = err (client_exception none "boom")
answer (suc zero) = err (client_exception (some (pos 207)) "bad key")
answer (suc (suc n)) = ok (str "nas-1")

-- A server that counts its requests, over one session.
abbrev pub server : Library
server = record {
  World = ℕ;
  Session = ℕ;
  construct = λ uri verify w. (ok 7, w);
  login = λ session user key w. (ok tt, w);
  call = λ session method params job timeout w. (answer w, suc w);
  ping = λ session w. (ok (str "pong"), w);
  close = λ session w. (ok tt, w);
  enotauthenticated = pos 207;
}

answer_lem : (w : ℕ) → Raises is_transport (answer w)
answer_lem zero = refl
answer_lem (suc zero) = refl
answer_lem (suc (suc n)) = tt

pub documented : IsDocumented server
documented = record {
  construct_lem = λ uri verify w. tt;
  login_lem = λ session user key w. tt;
  call_lem = λ session method params job timeout w. answer_lem w;
  ping_lem = λ session w. tt;
}

abbrev pub before : ℕ → State server
before n = record { client = none; world = n }

abbrev pub open_at : ℕ → State server
open_at n = record { client = some 7; world = n }

-- Division that gives a half, or nothing by 0.
abbrev pub half : ℤ → ℤ → Result ℕ
half a (pos zero) = err zero_division
half a b = ok 4602678819172646912

abbrev pub python : Runtime
python = record {
  int_of_str = λ s. none;
  float_of_str = λ s. none;
  float_of_int = λ n. ok 0;
  div_int = half;
  mul_float = λ x n. x;
  round = λ x n. x;
  mean = λ vs. ok (float 0);
  from_timestamp = λ v. ok (record { wall = pos 0; tzinfo = some (pos 0) });
  str_of = λ v. "nas-1";
  str_of_key = λ k. "key";
  strip = λ s. s;
  lower = λ s. s;
}
