-- ===== src/Value/Access.antt =====
-- What the integration does with such values: truth tests, `or`, `.get`, subscripts, iteration.

use text.Mathlib.Text.{find?}
use ha_truenas_ng.Base.{
  ℕ, zero, suc, Bool, true, false, not, String, Option, none, some, List, [], ◌∷◌, ◌==◌, eqb, ◌%◌,
  ◌^◌, if◌then◌else◌, string_eq,
}
use ha_truenas_ng.Base.Int.{pos}
use ha_truenas_ng.Result.{Result, ok, err, attribute_error, type_error, key_error, index_error}
use ha_truenas_ng.Value.{
  Value, null, bool, int, float, str, datetime, arr, dict, Items, nil, cons, Fields, end, field,
}

-- `d.get(key)` of a dict: the value, if it has the key.
unfoldable pub find : String → Fields → Option Value
find key end = none
find key (field k v fs) = if key == k then some v else find key fs

-- `d.get(key)`, and `d.get(key, default)`
abbrev pub value_or : Value → Option Value → Value
value_or default none = default
value_or default (some v) = v

unfoldable pub get : Fields → String → Value
get fs key = value_or null (find key fs)

unfoldable pub get_or : Fields → String → Value → Value
get_or fs key default = value_or default (find key fs)

-- `d[key]`
abbrev pub present : Option Value → Result Value
present none = err key_error
present (some v) = ok v

unfoldable pub subscript : Fields → String → Result Value
subscript fs key = present (find key fs)

-- `v[key]`, of a value that may be no dict
unfoldable pub subscript_of : Value → String → Result Value
unfolding subscript
subscript_of (dict fs) key = subscript fs key
subscript_of _ key = err type_error

-- `d[key] = v`
unfoldable pub put : String → Value → Fields → Fields
put key v end = field key v end
put key v (field k w fs) = if key == k then field k v fs else field k w (put key v fs)

-- `bool(v)`. A float is false at its two zeros.
unfoldable pub truthy : Value → Bool
truthy null = false
truthy (bool b) = b
truthy (int (pos zero)) = false
truthy (int _) = true
truthy (float bits) = not (eqb (bits % 2 ^ 63) 0)
truthy (str s) = not (s == "")
truthy (datetime _) = true
truthy (arr nil) = false
truthy (arr _) = true
truthy (dict end) = false
truthy (dict _) = true

-- `v or w`
unfoldable pub or_value : Value → Value → Value
or_value v w = if truthy v then v else w

abbrev pub is_null : Value → Bool
is_null null = true
is_null _ = false

-- `v == "text"`
unfoldable pub is_str : Value → String → Bool
is_str (str s) t = s == t
is_str _ t = false

-- The dict behind a value whose `.get` is called: anything else has no such attribute.
unfoldable pub as_dict : Value → Result Fields
as_dict (dict fs) = ok fs
as_dict _ = err attribute_error

-- The characters of a text, each a text of its own.
unfoldable pub chars : String → List Value
chars String.[] = []
chars (String.◌∷◌ c s) = str (String.◌∷◌ c String.[]) ∷ chars s

unfoldable pub items : Items → List Value
items nil = []
items (cons v vs) = v ∷ items vs

unfoldable pub key_values : Fields → List Value
key_values end = []
key_values (field k v fs) = str k ∷ key_values fs

-- `for x in v`
unfoldable pub iterate : Value → Result (List Value)
unfolding chars items key_values
iterate (arr vs) = ok (items vs)
iterate (str s) = ok (chars s)
iterate (dict fs) = ok (key_values fs)
iterate _ = err type_error

unfoldable pub last : List Value → Result Value
last [] = err index_error
last (v ∷ []) = ok v
last (v ∷ w ∷ vs) = last (w ∷ vs)

unfoldable pub nth : List Value → ℕ → Result Value
nth [] i = err index_error
nth (v ∷ vs) zero = ok v
nth (v ∷ vs) (suc i) = nth vs i

-- `v[-1]` and `v[i]`; a dict with text keys has no such key.
unfoldable pub last_of : Value → Result Value
unfolding items chars last
last_of (arr vs) = last (items vs)
last_of (str s) = last (chars s)
last_of (dict _) = err key_error
last_of _ = err type_error

unfoldable pub nth_of : Value → ℕ → Result Value
unfolding items chars nth
nth_of (arr vs) i = nth (items vs) i
nth_of (str s) i = nth (chars s) i
nth_of (dict _) i = err key_error
nth_of _ i = err type_error

-- `vs.index(text)`
unfoldable pub position : String → List Value → Option ℕ
unfolding is_str
position text [] = none
position text (v ∷ vs) =
    let rest = position text vs in
    if is_str v text then some 0 else elim rest [ none ↦ none | some i ↦ some (suc i) ]

-- `text in v`, with the index at which it stands where there is one: of a text it is that of the
-- first occurrence.
pub data Membership : Type 0 where
  absent : Membership
  at_index : ℕ → Membership
  as_key : Membership

abbrev index_result : Option ℕ → Membership
index_result none = absent
index_result (some i) = at_index i

abbrev key_result : Option Value → Membership
key_result none = absent
key_result (some _) = as_key

unfoldable pub membership : String → Value → Result Membership
unfolding items position find
membership text (arr vs) = ok (index_result (position text (items vs)))
membership text (str s) = ok (index_result (find? s text))
membership text (dict fs) = ok (key_result (find text fs))
membership text _ = err type_error

-- `d.get(v)` of a dict with text keys: a list or a dict cannot be looked up.
unfoldable pub get_value : Fields → Value → Result Value
unfolding get
get_value fs (str s) = ok (get fs s)
get_value fs (arr _) = err type_error
get_value fs (dict _) = err type_error
get_value fs _ = ok null

-- `for x in d.get(key) or []`
unfoldable pub iterate_or_empty : Fields → String → Result (List Value)
unfolding get or_value
iterate_or_empty fs key = iterate (or_value (get fs key) (arr nil))

-- `d.get(key) or {}`, whose `.get` is called next
unfoldable pub dict_or_empty : Fields → String → Result Fields
unfolding get or_value as_dict
dict_or_empty fs key = as_dict (or_value (get fs key) (dict end))

-- A list of values as a value.
unfoldable pub of_list : List Value → Items
of_list [] = nil
of_list (v ∷ vs) = cons v (of_list vs)
