-- ===== src/Value/Runtime.antt =====
-- What the integration takes from Python's runtime and is not modelled: the readers of numbers in
-- texts, correctly rounded arithmetic on doubles, and the calendar.
use ha_truenas_ng.Base.{ℕ, true, false, String, Option, none, some}
use ha_truenas_ng.Base.Int.{ℤ, pos}
use ha_truenas_ng.Result.{Result, ok, err, type_error, value_error, ◌>>=◌}
use ha_truenas_ng.Value.{Value, bool, int, float, str, Items, Datetime}
use ha_truenas_ng.Value.Key.{Key}
use ha_truenas_ng.Value.Float.{int_of_float}

pub record Runtime : Type 0 where
  -- `int(s)` and `float(s)` of a text; `none` is a ValueError
  pub int_of_str : String → Option ℤ
  pub float_of_str : String → Option ℕ
  -- `float(n)`, which may overflow
  pub float_of_int : ℤ → Result ℕ
  -- `a / b` of integers, `x * n` and `x / n`, `round(x, n)`
  pub div_int : ℤ → ℤ → Result ℕ
  pub mul_float : ℕ → ℤ → ℕ
  pub round : ℕ → ℕ → ℕ
  -- `sum(vs) / len(vs)` of a list of numbers that is not empty
  pub mean : Items → Result Value
  -- `datetime.fromtimestamp(v / 1000, tz=timezone.utc)` of a number
  pub from_timestamp : Value → Result Datetime
  -- `str(v)`, and the text of a dict's key: a key is printed by its class, so `1.0` as `1`
  pub str_of : Value → String
  pub str_of_key : Key → String
  -- `s.strip()`, `s.lower()`
  pub strip : String → String
  pub lower : String → String

-- `int(v)`
abbrev parsed_int : Option ℤ → Result ℤ
parsed_int none = err (value_error "invalid literal for int()")
parsed_int (some n) = ok n

module _ (py : Runtime) where
  unfoldable pub int_of : Value → Result ℤ
  unfolding int_of_float
  int_of (int n) = ok n
  int_of (bool true) = ok (pos 1)
  int_of (bool false) = ok (pos 0)
  int_of (float bits) = int_of_float bits
  int_of (str s) = parsed_int (py.int_of_str s)
  int_of _ = err type_error

  -- `except (TypeError, ValueError): return None`
  abbrev caught : Result ℤ → Result (Option ℤ)
  caught (ok n) = ok (some n)
  caught (err type_error) = ok none
  caught (err (value_error m)) = ok none
  caught (err e) = err e

  -- client.py, `to_int`
  unfoldable pub to_int : Value → Result (Option ℤ)
  to_int v = caught (int_of v)

  -- `float(v)`
  abbrev parsed_float : Option ℕ → Result ℕ
  parsed_float none = err (value_error "could not convert string to float")
  parsed_float (some x) = ok x

  unfoldable pub float_of : Value → Result ℕ
  float_of (float bits) = ok bits
  float_of (int n) = py.float_of_int n
  float_of (bool true) = py.float_of_int (pos 1)
  float_of (bool false) = py.float_of_int (pos 0)
  float_of (str s) = parsed_float (py.float_of_str s)
  float_of _ = err type_error

  -- `round(a / b * 100, 1)`
  unfoldable pub percent : ℤ → ℤ → Result ℕ
  percent a b = do ratio ← py.div_int a b; ok (py.round (py.mul_float ratio (pos 100)) 1)
