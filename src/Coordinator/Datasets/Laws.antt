-- ===== src/Coordinator/Datasets/Laws.antt =====
-- What the flattening of the dataset tree gives.

use ha_truenas_ng.Base.{
  ℕ, zero, suc, ◌<◌, ◌≡◌, ◌≢◌, refl, ◌∙◌, ap, String, [], ◌∷◌, ◌++◌, arith, string_eq,
}
use ha_truenas_ng.Base.Dict
use ha_truenas_ng.Base.Dict.{Dict, NodupKeys, update, insert-NodupKeys, update-nil, update-append}
use ha_truenas_ng.Result.{ok, err, Exc, recursion_error, fold_result}
use ha_truenas_ng.Result.Holds.{Holds, Holds-bind, Holds-fold, err-Holds}
use ha_truenas_ng.Value.{Value, str, arr, dict, Items, nil, cons, Fields, field}
use ha_truenas_ng.Value.Access.{
  items, iterate, iterate_or_empty, or_value, truthy, subscript_of, as_dict, find, get,
}
use ha_truenas_ng.Value.Key.{Key, text, key_eq, hash_key}
use ha_truenas_ng.Value.Size.{depth, depth_items}
use ha_truenas_ng.Value.Depth.{Within-lt, Within-iterate, Within-iterate_or_empty, depth-as_dict}
use ha_truenas_ng.Value.Shallow.{
  subscript_of-shallow, hash_key-shallow, as_dict-shallow, iterate-shallow,
  iterate_or_empty-shallow,
}
use ha_truenas_ng.Coordinator.Datasets.{visit, flatten}

-- A dataset as the API describes it: its path, its children, and its other properties.
mutual
  pub data Dataset : Type 0 where
    dataset : String → Datasets → Fields → Dataset

  pub data Datasets : Type 0 where
    leaf : Datasets
    child : Dataset → Datasets → Datasets

mutual
  pub encode : Dataset → Value
  encode (dataset id ds rest) =
      dict (field "id" (str id) (field "children" (arr (encode_all ds)) rest))

  pub encode_all : Datasets → Items
  encode_all leaf = nil
  encode_all (child d ds) = cons (encode d) (encode_all ds)

-- Every dataset of the tree, parents before their children, under its path.
mutual
  unfolding encode

  pub preorder : Dataset → Dict Key Value
  preorder (dataset id ds rest) = (text id, encode (dataset id ds rest)) ∷ preorder_all ds

  pub preorder_all : Datasets → Dict Key Value
  preorder_all leaf = []
  preorder_all (child d ds) = preorder d ++ preorder_all ds

iterate-or_value : (vs : Items) → iterate (or_value (arr vs) (arr nil)) ≡ ok (items vs)
unfolding iterate or_value truthy
iterate-or_value nil = refl
iterate-or_value (cons v vs) = refl

visit-encode_head :
    (n : ℕ) (r : Dict Key Value) (id : String) (ds : Datasets) (rest : Fields)
    → visit (suc n) r (encode (dataset id ds rest))
      ≡ fold_result
          (visit n)
          (Dict.insert (text id) (encode (dataset id ds rest)) r)
          (items (encode_all ds))
unfolding visit encode subscript_of as_dict iterate_or_empty get find hash_key string_eq
visit-encode_head n r id ds rest = rw iterate-or_value

mutual
  unfolding preorder encode fold_result items depth update

  visit-encode :
      (d : Dataset) (n : ℕ) (r : Dict Key Value)
      → depth (encode d) < n
      → visit n r (encode d) ≡ ok (update r (preorder d))
  visit-encode (dataset id ds rest) zero r h = elim h [ ]
  visit-encode (dataset id ds rest) (suc n) r h =
      visit-encode_head n r id ds rest ∙ fold-encode_all ds n _ (omega arith)

  fold-encode_all :
      (ds : Datasets) (n : ℕ) (r : Dict Key Value)
      → depth_items (encode_all ds) < n
      → fold_result (visit n) r (items (encode_all ds)) ≡ ok (update r (preorder_all ds))
  fold-encode_all leaf n r h = rw (update-nil r)
  fold-encode_all (child d ds) n r h = rw (visit-encode d n r (omega arith)) (
      fold-encode_all ds n _ (omega arith) ∙ ap ok (update-append r (preorder d) (preorder_all ds)))

-- The flattened tree holds every dataset at any depth under its path, and nothing else: it is what
-- storing the datasets in preorder gives, so of two with one path the later stays, in the place
-- of the first.
pub flatten-encode_all :
    (ds : Datasets) → flatten (arr (encode_all ds)) ≡ ok (update [] (preorder_all ds))
unfolding flatten iterate depth
flatten-encode_all ds =
    fold-encode_all ds (suc (suc (depth_items (encode_all ds)))) [] (omega arith)

abbrev NotDeep : Exc → Type 0
NotDeep e = e ≢ recursion_error

-- A walk with fuel for the depth of the tree never runs out of it, and keeps the paths distinct.
visit-Holds :
    (n : ℕ) (r : Dict Key Value) (v : Value)
    → depth v < n
    → NodupKeys r
    → Holds NodupKeys NotDeep (visit n r v)
unfolding visit
visit-Holds zero r v h u = elim h [ ]
visit-Holds (suc n) r v h u =
    Holds-bind NodupKeys NotDeep (subscript_of v "id") _ (subscript_of-shallow v "id") λ id _.
      Holds-bind NodupKeys NotDeep (hash_key id) _ (hash_key-shallow id) λ key _.
        Holds-bind NodupKeys NotDeep (as_dict v) _ (as_dict-shallow v) λ fs p.
          Holds-bind NodupKeys NotDeep (iterate_or_empty fs "children") _
            (iterate_or_empty-shallow fs "children")
            λ cs q.
              Holds-fold NodupKeys NotDeep (λ c. depth c < n) (visit n)
                (λ b c k w. visit-Holds n b c k w) _ cs
                (Within-lt n _ cs (omega (arith, depth-as_dict v fs p))
                  (Within-iterate_or_empty fs "children" cs q))
                (insert-NodupKeys key v r u)

flatten-Holds : (v : Value) → Holds NodupKeys NotDeep (flatten v)
unfolding flatten
flatten-Holds v = Holds-bind NodupKeys NotDeep (iterate v) _ (iterate-shallow v) λ cs q.
    Holds-fold NodupKeys NotDeep (λ c. depth c < suc (depth v)) (visit (suc (depth v)))
      (λ b c k w. visit-Holds (suc (depth v)) b c k w) [] cs
      (Within-lt (suc (depth v)) _ cs (omega arith) (Within-iterate v cs q)) tt

pub flatten-terminates : (v : Value) → flatten v ≢ err recursion_error
flatten-terminates v h = err-Holds NodupKeys NotDeep (flatten v) (flatten-Holds v) h refl
