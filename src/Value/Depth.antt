-- ===== src/Value/Depth.antt =====
-- A value reached by `.get` or by iteration lies less deep.

use ha_truenas_ng.Base.{
  ℕ, suc, ◌≤◌, ◌<◌, ◌≡◌, ap, String, List, [], ◌∷◌, All, arith, ◌==◌, string_eq, Bool-cases, inl,
  inr,
}
use mathlib.Core.Path.{subst}
use ha_truenas_ng.Result.{ok, ok-injective}
use ha_truenas_ng.Value.{Value, null, str, arr, dict, Items, nil, cons, Fields, end, field}
use ha_truenas_ng.Value.Access.{
  find, get, value_or, items, chars, key_values, iterate, iterate_or_empty, or_value, truthy,
  as_dict,
}
use ha_truenas_ng.Value.Size.{depth, depth_items, depth_fields}

-- Every element lies at most `n` deep.
abbrev pub Within : ℕ → List Value → Type 0
Within n = All (λ v. depth v ≤ n)

Within-weaken : (m n : ℕ) (vs : List Value) → m ≤ n → Within m vs → Within n vs
Within-weaken m n [] h w = tt
Within-weaken m n (v ∷ vs) h (w, ws) = (omega arith, Within-weaken m n vs h ws)

Within-items : (vs : Items) → Within (depth_items vs) (items vs)
unfolding items depth
Within-items nil = tt
Within-items (cons v vs) =
    (omega arith, Within-weaken (depth_items vs) _ (items vs) (omega arith) (Within-items vs))

Within-chars : (n : ℕ) (s : String) → Within n (chars s)
unfolding chars depth
Within-chars n String.[] = tt
Within-chars n (String.◌∷◌ c s) = (omega arith, Within-chars n s)

Within-key_values : (n : ℕ) (fs : Fields) → Within n (key_values fs)
unfolding key_values depth
Within-key_values n end = tt
Within-key_values n (field k v fs) = (omega arith, Within-key_values n fs)

depth-find :
    (n : ℕ) (fs : Fields) (key : String)
    → depth_fields fs ≤ n
    → depth (value_or null (find key fs)) ≤ n
unfolding find depth
depth-find n end key h = omega arith
depth-find n (field k v fs) key h = elim (Bool-cases (key == k)) [
  | inl q ↦ rw q (omega arith)
  | inr q ↦ rw q (depth-find n fs key (omega arith))
]

depth-get : (fs : Fields) (key : String) → depth (get fs key) ≤ depth_fields fs
unfolding get
depth-get fs key = depth-find (depth_fields fs) fs key (omega arith)

pub Within-iterate : (v : Value) (vs : List Value) → iterate v ≡ ok vs → Within (depth v) vs
unfolding iterate depth
Within-iterate (arr xs) vs h =
    subst (Within (depth (arr xs))) (ok-injective h)
      (Within-weaken (depth_items xs) _ (items xs) (omega arith) (Within-items xs))
Within-iterate (str s) vs h = subst (Within 0) (ok-injective h) (Within-chars 0 s)
Within-iterate (dict fs) vs h =
    subst (Within (depth (dict fs))) (ok-injective h) (Within-key_values _ fs)
Within-iterate _ vs h = cc

Within-empty : (vs : List Value) → iterate (arr nil) ≡ ok vs → Within 0 vs
unfolding iterate
Within-empty vs h = subst (Within 0) (ok-injective h) tt

pub Within-iterate_or_empty :
    (fs : Fields) (key : String) (vs : List Value)
    → iterate_or_empty fs key ≡ ok vs
    → Within (depth_fields fs) vs
unfolding iterate_or_empty
Within-iterate_or_empty fs key vs h = elim (Bool-cases (truthy (get fs key))) [
  | inl q ↦
      Within-weaken _ _ vs (depth-get fs key)
        (Within-iterate (get fs key) vs (rw (q, or_value) at h))
  | inr q ↦ Within-weaken 0 _ vs (omega arith) (Within-empty vs (rw (q, or_value) at h))
]

pub Within-lt : (n m : ℕ) (vs : List Value) → m < n → Within m vs → All (λ v. depth v < n) vs
Within-lt n m [] h w = tt
Within-lt n m (v ∷ vs) h (w, ws) = (omega arith, Within-lt n m vs h ws)

pub depth-as_dict : (v : Value) (fs : Fields) → as_dict v ≡ ok fs → depth v ≡ suc (depth_fields fs)
unfolding as_dict depth
depth-as_dict (dict gs) fs h = ap (λ x. suc (depth_fields x)) (ok-injective h)
depth-as_dict _ fs h = cc
