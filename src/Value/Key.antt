-- ===== src/Value/Key.antt =====
-- The keys of the dicts that the coordinators build from values of the API.
-- Python finds `1`, `1.0` and `True` under one key, and aware time stamps by their instant.
use ha_truenas_ng.Base.{
  ℕ, ◌*◌, true, false, String, string_discrete, Option, none, some, Eq, if◌then◌else◌,
}
use ha_truenas_ng.Base.Int.{ℤ, pos, negsuc, ℤ-discrete, ◌-ℤ◌}
use ha_truenas_ng.Result.{Result, ok, err, type_error}
use ha_truenas_ng.Value.{Value, null, bool, int, float, str, datetime, arr, dict, Datetime}
use ha_truenas_ng.Value.Float.{is_whole, whole, signed}
use native.Mathlib.Decide.{ℕ_discrete}

pub data Key : Type 0 where
  none_key : Key
  number : ℤ → Key
  fractional : ℕ → Key
  text : String → Key
  naive : ℤ → Key
  instant : ℤ → Key

unfoldable pub Key-discrete : Discrete Key
Key-discrete = hlevel (ℤ-discrete, ℕ_discrete, string_discrete)

instance unfoldable pub key_eq : Eq Key
unfolding Key-discrete
key_eq = record { dec = Key-discrete }

abbrev micros : ℤ → ℤ
micros (pos n) = pos (n * 60000000)
micros (negsuc n) = pos 0 -ℤ pos (ℕ.suc n * 60000000)

abbrev datetime_key : Datetime → Option ℤ → Key
datetime_key d none = naive d.wall
datetime_key d (some offset) = instant (d.wall -ℤ micros offset)

-- The key under which `d[v]` is stored; a list or a dict is unhashable.
unfoldable pub hash_key : Value → Result Key
unfolding is_whole whole signed
hash_key null = ok none_key
hash_key (bool true) = ok (number (pos 1))
hash_key (bool false) = ok (number (pos 0))
hash_key (int n) = ok (number n)
hash_key (float bits) =
    ok (if is_whole bits then number (signed bits (whole bits)) else fractional bits)
hash_key (str s) = ok (text s)
hash_key (datetime d) = ok (datetime_key d d.tzinfo)
hash_key (arr _) = err type_error
hash_key (dict _) = err type_error
