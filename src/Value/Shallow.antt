-- ===== src/Value/Shallow.antt =====
-- The accesses to a value do not recurse over nodes: none of them exhausts the stack.
use ha_truenas_ng.Base.{◌≡◌, ◌≢◌, String, true, false, Option, none, some}
use ha_truenas_ng.Result.{Exc, err, recursion_error}
use ha_truenas_ng.Value.{Value, bool, arr, dict, Fields}
use ha_truenas_ng.Value.Access.{
  present, find, subscript_of, as_dict, iterate, iterate_or_empty, dict_or_empty,
}
use ha_truenas_ng.Value.Key.{hash_key}

present-shallow : (o : Option Value) (e : Exc) → present o ≡ err e → e ≢ recursion_error
present-shallow none e h k = cc
present-shallow (some v) e h k = cc

pub subscript_of-shallow :
    (v : Value) (key : String) (e : Exc) → subscript_of v key ≡ err e → e ≢ recursion_error
unfolding subscript_of
subscript_of-shallow (dict fs) key e h k = present-shallow (find key fs) e h k
subscript_of-shallow _ key e h k = cc

pub hash_key-shallow : (v : Value) (e : Exc) → hash_key v ≡ err e → e ≢ recursion_error
unfolding hash_key
hash_key-shallow (bool true) e h k = cc
hash_key-shallow (bool false) e h k = cc
hash_key-shallow _ e h k = cc

pub as_dict-shallow : (v : Value) (e : Exc) → as_dict v ≡ err e → e ≢ recursion_error
unfolding as_dict
as_dict-shallow (dict fs) e h k = cc
as_dict-shallow _ e h k = cc

pub iterate-shallow : (v : Value) (e : Exc) → iterate v ≡ err e → e ≢ recursion_error
unfolding iterate
iterate-shallow (arr vs) e h k = cc
iterate-shallow _ e h k = cc

pub iterate_or_empty-shallow :
    (fs : Fields) (key : String) (e : Exc) → iterate_or_empty fs key ≡ err e → e ≢ recursion_error
unfolding iterate_or_empty
iterate_or_empty-shallow fs key = iterate-shallow _

pub dict_or_empty-shallow :
    (fs : Fields) (key : String) (e : Exc) → dict_or_empty fs key ≡ err e → e ≢ recursion_error
unfolding dict_or_empty
dict_or_empty-shallow fs key = as_dict-shallow _
