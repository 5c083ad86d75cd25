-- ===== src/Repairs/Shapes.antt =====
-- What reading the alerts can raise.
use ha_truenas_ng.Base.{◌≡◌, true, Option, none, some, List, [], ◌∷◌, arith, Bool-cases, inl, inr}
use ha_truenas_ng.Base.Dict.{Dict}
use ha_truenas_ng.Result.{Exc, err, fold_result, bind-err}
use ha_truenas_ng.Value.{Value, str, Fields}
use ha_truenas_ng.Value.Access.{as_dict, iterate, get, truthy}
use ha_truenas_ng.Value.Key.{Key, key_eq, hash_key}
use ha_truenas_ng.Value.Shapes.{is_shape, as_dict-shape, iterate-shape, hash_key-shape}
use ha_truenas_ng.Repairs.{Wanted, severity_of, want, consider, wanted_issues}
use ha_truenas_ng.Repairs.Issues.{Severity}

severity_of-shape : (v : Value) (e : Exc) → severity_of v ≡ err e → is_shape e ≡ true
unfolding severity_of
severity_of-shape (str level) e h = cc
severity_of-shape _ e h = ground arith

want-shape :
    (alert : Fields) (severity : Option Severity) (wanted : Dict Key Wanted) (e : Exc)
    → want alert severity wanted ≡ err e
    → is_shape e ≡ true
unfolding want
want-shape alert none wanted e h = cc
want-shape alert (some severity) wanted e h = elim (Bool-cases (truthy (get alert "uuid"))) [
  | inl q ↦ elim (bind-err (hash_key (get alert "uuid")) _ (rw q at h)) [
    | inl p ↦ hash_key-shape _ e p
    | inr (key, p, k) ↦ cc
  ]
  | inr q ↦ cc (rw q at h)
]

consider-shape :
    (wanted : Dict Key Wanted) (v : Value) (e : Exc) → consider wanted v ≡ err e → is_shape e ≡ true
unfolding consider
consider-shape wanted v e h = elim (bind-err (as_dict v) _ h) [
  | inl p ↦ as_dict-shape v e p
  | inr (alert, _, k) ↦ elim (Bool-cases (truthy (get alert "dismissed"))) [
    | inl q ↦ cc (rw q at k)
    | inr q ↦ elim (bind-err (severity_of (get alert "level")) _ (rw q at k)) [
      | inl p ↦ severity_of-shape _ e p
      | inr (severity, _, m) ↦ want-shape alert severity wanted e m
    ]
  ]
]

fold-shape :
    (vs : List Value) (wanted : Dict Key Wanted) (e : Exc)
    → fold_result consider wanted vs ≡ err e
    → is_shape e ≡ true
unfolding fold_result
fold-shape [] wanted e h = cc
fold-shape (v ∷ vs) wanted e h = elim (bind-err (consider wanted v) _ h) [
  | inl p ↦ consider-shape wanted v e p
  | inr (next, _, k) ↦ fold-shape vs next e k
]

-- Alerts that cannot be read raise an error of their shape.
pub wanted_issues-shape :
    (alerts : Value) (e : Exc) → wanted_issues alerts ≡ err e → is_shape e ≡ true
unfolding wanted_issues
wanted_issues-shape alerts e h = elim (bind-err (iterate alerts) _ h) [
  | inl p ↦ iterate-shape alerts e p
  | inr (vs, _, k) ↦ fold-shape vs [] e k
]
