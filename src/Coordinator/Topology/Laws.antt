-- ===== src/Coordinator/Topology/Laws.antt =====
-- What the walk over a pool's topology gives.
use ha_truenas_ng.Base.{
  ℕ, zero, suc, ◌<◌, ◌≢◌, refl, String, [], arith, string_eq, Bool-cases, inl, inr,
}
use ha_truenas_ng.Base.Dict.{Dict, NodupKeys, insert-NodupKeys}
use ha_truenas_ng.Result.{Exc, err, recursion_error}
use ha_truenas_ng.Result.Holds.{Holds, Holds-ok, Holds-bind, Holds-fold, ok-Holds, err-Holds}
use ha_truenas_ng.Value.{Value, Fields}
use ha_truenas_ng.Value.Access.{iterate_or_empty, dict_or_empty, truthy, as_dict, get, is_str}
use ha_truenas_ng.Value.Key.{Key, key_eq, hash_key}
use ha_truenas_ng.Value.Size.{depth, depth_fields}
use ha_truenas_ng.Value.Depth.{Within-lt, Within-iterate_or_empty, depth-as_dict}
use ha_truenas_ng.Value.Shallow.{
  hash_key-shallow, as_dict-shallow, iterate_or_empty-shallow, dict_or_empty-shallow,
}
use ha_truenas_ng.Coordinator.Topology.{
  Leaf, topology_categories, store_leaf, visit_leaf, visit, visit_category, walk_topology_errors,
}

abbrev NotDeep : Exc → Type 0
NotDeep e = e ≢ recursion_error

store_leaf-Holds :
    (fs : Fields) (r : Dict Key Leaf) → NodupKeys r → Holds NodupKeys NotDeep (store_leaf fs r)
unfolding store_leaf
store_leaf-Holds fs r u = elim (Bool-cases (truthy (get fs "disk"))) [
  | inl q ↦ rw q (
      Holds-bind NodupKeys NotDeep (dict_or_empty fs "stats") _ (dict_or_empty-shallow fs "stats")
        λ stats _.
          Holds-bind NodupKeys NotDeep (hash_key (get fs "disk")) _
            (hash_key-shallow (get fs "disk"))
            λ key _. Holds-ok NodupKeys NotDeep _ (insert-NodupKeys key _ r u))
  | inr q ↦ rw q (Holds-ok NodupKeys NotDeep r u)
]

visit_leaf-Holds :
    (fs : Fields) (r : Dict Key Leaf) → NodupKeys r → Holds NodupKeys NotDeep (visit_leaf fs r)
unfolding visit_leaf
visit_leaf-Holds fs r u = elim (Bool-cases (is_str (get fs "type") "DISK")) [
  | inl q ↦ rw q (store_leaf-Holds fs r u)
  | inr q ↦ rw q (Holds-ok NodupKeys NotDeep r u)
]

visit-Holds :
    (n : ℕ) (r : Dict Key Leaf) (v : Value)
    → depth v < n
    → NodupKeys r
    → Holds NodupKeys NotDeep (visit n r v)
unfolding visit
visit-Holds zero r v h u = elim h [ ]
visit-Holds (suc n) r v h u = Holds-bind NodupKeys NotDeep (as_dict v) _ (as_dict-shallow v) λ fs p.
    Holds-bind NodupKeys NotDeep (visit_leaf fs r) _
      (λ e. err-Holds NodupKeys NotDeep (visit_leaf fs r) (visit_leaf-Holds fs r u))
      λ here made.
        Holds-bind NodupKeys NotDeep (iterate_or_empty fs "children") _
          (iterate_or_empty-shallow fs "children")
          λ cs q.
            Holds-fold NodupKeys NotDeep (λ c. depth c < n) (visit n)
              (λ b c k w. visit-Holds n b c k w) here cs
              (Within-lt n _ cs (omega (arith, depth-as_dict v fs p))
                (Within-iterate_or_empty fs "children" cs q))
              (ok-Holds NodupKeys NotDeep (visit_leaf fs r) (visit_leaf-Holds fs r u) made)

visit_category-Holds :
    (topology : Fields) (r : Dict Key Leaf) (category : String)
    → NodupKeys r
    → Holds NodupKeys NotDeep (visit_category (suc (depth_fields topology)) topology r category)
unfolding visit_category
visit_category-Holds topology r category u =
    let n = suc (depth_fields topology) in
    Holds-bind NodupKeys NotDeep (iterate_or_empty topology category) _
      (iterate_or_empty-shallow topology category)
      λ vs q.
        Holds-fold NodupKeys NotDeep (λ c. depth c < n) (visit n) (λ b c k w. visit-Holds n b c k w)
          r vs (Within-lt n _ vs (omega arith) (Within-iterate_or_empty topology category vs q)) u

walk-Holds : (pool : Fields) → Holds NodupKeys NotDeep (walk_topology_errors pool)
unfolding walk_topology_errors
walk-Holds pool =
    Holds-bind NodupKeys NotDeep (dict_or_empty pool "topology") _
      (dict_or_empty-shallow pool "topology")
      λ topology _.
        Holds-fold NodupKeys NotDeep (λ _. Unit {0})
          (visit_category (suc (depth_fields topology)) topology)
          (λ b category _ w. visit_category-Holds topology b category w) [] topology_categories
          (omega arith) tt

pub walk_topology_errors-terminates :
    (pool : Fields) → walk_topology_errors pool ≢ err recursion_error
walk_topology_errors-terminates pool h =
    err-Holds NodupKeys NotDeep (walk_topology_errors pool) (walk-Holds pool) h refl
