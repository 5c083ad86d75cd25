-- ===== src/Value/Shapes.antt =====
-- What the accesses to a value raise where it has not the shape that the code expects.
use ha_truenas_ng.Base.{◌≡◌, String, Bool, true, false, Option, none, some, arith}
use ha_truenas_ng.Result.{Exc, err, attribute_error, key_error, type_error}
use ha_truenas_ng.Value.{Value, bool, arr, dict}
use ha_truenas_ng.Value.Access.{present, find, subscript_of, as_dict, iterate}
use ha_truenas_ng.Value.Key.{hash_key}

abbrev pub is_shape : Exc → Bool
is_shape attribute_error = true
is_shape key_error = true
is_shape type_error = true
is_shape _ = false

present-shape : (o : Option Value) (e : Exc) → present o ≡ err e → is_shape e ≡ true
present-shape none e h = ground arith
present-shape (some v) e h = cc

pub subscript_of-shape :
    (v : Value) (key : String) (e : Exc) → subscript_of v key ≡ err e → is_shape e ≡ true
unfolding subscript_of
subscript_of-shape (dict fs) key e h = present-shape (find key fs) e h
subscript_of-shape _ key e h = ground arith

pub hash_key-shape : (v : Value) (e : Exc) → hash_key v ≡ err e → is_shape e ≡ true
unfolding hash_key
hash_key-shape (bool true) e h = cc
hash_key-shape (bool false) e h = cc
hash_key-shape _ e h = ground arith

pub as_dict-shape : (v : Value) (e : Exc) → as_dict v ≡ err e → is_shape e ≡ true
unfolding as_dict
as_dict-shape (dict fs) e h = cc
as_dict-shape _ e h = ground arith

pub iterate-shape : (v : Value) (e : Exc) → iterate v ≡ err e → is_shape e ≡ true
unfolding iterate
iterate-shape (arr vs) e h = cc
iterate-shape _ e h = ground arith
