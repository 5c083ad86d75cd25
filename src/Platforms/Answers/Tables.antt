-- ===== src/Platforms/Answers/Tables.antt =====
-- What the coordinators make of answers that are as the API documents them.
use ha_truenas_ng.Base.{◌≡◌, refl, ap, ℕ, zero, suc, String, some, List, [], ◌∷◌, All}
use ha_truenas_ng.Base.Dict.{Dict, insert-All}
use ha_truenas_ng.Result.{ok, recursion_error, ok-injective}
use ha_truenas_ng.Result.Holds.{Holds, Holds-ok, Holds-err, Holds-bind, Holds-fold, Holds-imp}
use ha_truenas_ng.Value.{Value, str, int, dict, Fields}
use ha_truenas_ng.Value.Access.{
  find, present, subscript, subscript_of, as_dict, iterate, iterate_or_empty,
}
use ha_truenas_ng.Value.Key.{Key, text, number, key_eq, hash_key}
use ha_truenas_ng.Value.Size.{depth}
use ha_truenas_ng.Coordinator.Indexed.{Any}
use ha_truenas_ng.Coordinator.Storage.{index_by, index_all}
use ha_truenas_ng.Coordinator.Datasets.{visit, flatten}
use ha_truenas_ng.Platforms.Answers.{HasText, HasNumber, IsTreeAt, IsTree, Each}
use ha_truenas_ng.Platforms.Ids.Names.{IsText, IsNumber}
use ha_truenas_ng.Platforms.Total.{IsDataset}
use ha_truenas_ng.Platforms.Prefixes.{All-imp}
use mathlib.Core.Path.{subst}

as_dict-is_dict : (v : Value) (fs : Fields) → as_dict v ≡ ok fs → v ≡ dict fs
unfolding as_dict
as_dict-is_dict (dict gs) fs h = ap dict (ok-injective h)
as_dict-is_dict _ fs h = cc

-- A name that is found is hashed to a key of its class.
key_of :
    (field_name : String) (v w id : Value) (fs : Fields) (key k : Key)
    → v ≡ dict fs
    → find field_name fs ≡ some w
    → hash_key w ≡ ok k
    → subscript_of v field_name ≡ ok id
    → hash_key id ≡ ok key
    → key ≡ k
unfolding subscript_of subscript
key_of field_name v w id fs key k p q r s t =
    let named : subscript_of (dict fs) field_name ≡ ok id =
      subst (λ x. subscript_of x field_name ≡ ok id) p s in
    let same : w ≡ id = ok-injective (subst (λ o. present o ≡ ok id) q named) in cc

pub subscript_of-IsText :
    (field_name : String) (v id : Value) (key : Key)
    → HasText field_name v
    → subscript_of v field_name ≡ ok id
    → hash_key id ≡ ok key
    → IsText key
unfolding hash_key
subscript_of-IsText field_name v id key t s h =
    let same : key ≡ text t.name =
      key_of field_name v (str t.name) id t.fields key (text t.name) t.is_dict t.has_name refl s
        h in
    rw same tt

subscript_of-IsNumber :
    (field_name : String) (v id : Value) (key : Key)
    → HasNumber field_name v
    → subscript_of v field_name ≡ ok id
    → hash_key id ≡ ok key
    → IsNumber key
unfolding hash_key
subscript_of-IsNumber field_name v id key t s h =
    let same : key ≡ number t.number =
      key_of field_name v (int t.number) id t.fields key (number t.number) t.is_dict t.has_number
        refl s h in
    rw same tt

module _ (field_name : String) (P : Value → Type 0) (Q : Key → Type 0)
    (keyed : (v id : Value) (key : Key)
      → P v
      → subscript_of v field_name ≡ ok id
      → hash_key id ≡ ok key
      → Q key) where
  unfoldable pub Kept : Dict Key Value → Type 0
  Kept = All (λ x. Q x.0 × P x.1)

  index_by-Kept :
      (table : Dict Key Value) (v : Value)
      → P v
      → Kept table
      → Holds Kept Any (index_by field_name table v)
  unfolding index_by Kept
  index_by-Kept table v p h =
      Holds-bind _ Any (subscript_of v field_name) _ (λ e _. tt)
        (λ id a.
          Holds-bind _ Any (hash_key id) _ (λ e _. tt)
            (λ key b.
              Holds-ok _ Any _
                (insert-All (λ x. Q x.0 × P x.1) key v table (keyed v id key p a b, p) h)))

  pub index_all-Kept : (raw : Value) → Each P raw → Holds Kept Any (index_all field_name raw)
  unfolding index_all Kept
  index_all-Kept raw each =
      Holds-bind _ Any (iterate raw) _ (λ e _. tt)
        (λ vs a.
          Holds-fold Kept Any P (index_by field_name) (λ table v p h. index_by-Kept table v p h) []
            vs (each vs a) tt)

-- The trees below a dataset.
All-IsTree : (vs : List Value) → ((n : ℕ) → All (IsTreeAt n) vs) → All IsTree vs
All-IsTree [] h = tt
All-IsTree (v ∷ vs) h = (λ n. (h n).0, All-IsTree vs (λ n. (h n).1))

unfoldable pub AreDatasets : Dict Key Value → Type 0
AreDatasets = All (λ x. IsText x.0 × IsDataset x.1)

visit-AreDatasets :
    (n : ℕ) (flattened : Dict Key Value) (v : Value)
    → IsTree v
    → AreDatasets flattened
    → Holds AreDatasets Any (visit n flattened v)
unfolding visit AreDatasets as_dict
visit-AreDatasets zero flattened v t h = Holds-err AreDatasets Any recursion_error tt
visit-AreDatasets (suc n) flattened v t h =
    let (named, d, _) = t 1 in
    Holds-bind _ Any (subscript_of v "id") _ (λ e _. tt)
      (λ id a.
        Holds-bind _ Any (hash_key id) _ (λ e _. tt)
          (λ key b.
            Holds-bind _ Any (as_dict v) _ (λ e _. tt)
              (λ fs c.
                Holds-bind _ Any (iterate_or_empty fs "children") _ (λ e _. tt)
                  (λ children k.
                    Holds-fold AreDatasets Any IsTree (visit n)
                      (λ table w u m. visit-AreDatasets n table w u m) _ children
                      (All-IsTree children
                        (λ m. (t (suc m)).2 fs children (as_dict-is_dict v fs c) k))
                      (insert-All (λ x. IsText x.0 × IsDataset x.1) key v flattened
                        (subscript_of-IsText "id" v id key named a b, d) h)))))

pub flatten-AreDatasets : (raw : Value) → Each IsTree raw → Holds AreDatasets Any (flatten raw)
unfolding flatten AreDatasets
flatten-AreDatasets raw each =
    Holds-bind _ Any (iterate raw) _ (λ e _. tt)
      (λ vs a.
        Holds-fold AreDatasets Any IsTree (visit (suc (depth raw)))
          (λ table v t h. visit-AreDatasets (suc (depth raw)) table v t h) [] vs (each vs a) tt)

-- A table of objects that are named by texts, or by numbers.
pub index_all-IsText :
    (field_name : String) (raw : Value)
    → Each (HasText field_name) raw
    → Holds (All (λ x. IsText x.0)) Any (index_all field_name raw)
unfolding Kept
index_all-IsText field_name raw each =
    Holds-imp _ (All (λ x. IsText x.0)) Any (λ t h. All-imp (λ x (k, _). k) t h) _
      (index_all-Kept field_name (HasText field_name) IsText
        (λ v id key t s h. subscript_of-IsText field_name v id key t s h) raw each)

pub index_all-IsNumber :
    (field_name : String) (raw : Value)
    → Each (HasNumber field_name) raw
    → Holds (All (λ x. IsNumber x.0)) Any (index_all field_name raw)
unfolding Kept
index_all-IsNumber field_name raw each =
    Holds-imp _ (All (λ x. IsNumber x.0)) Any (λ t h. All-imp (λ x (k, _). k) t h) _
      (index_all-Kept field_name (HasNumber field_name) IsNumber
        (λ v id key t s h. subscript_of-IsNumber field_name v id key t s h) raw each)
