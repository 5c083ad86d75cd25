-- ===== src/Coordinator/Topology/Trees.antt =====
-- The walk over the topologies that the API describes.
use ha_truenas_ng.Base.{
  ℕ, zero, suc, ◌<◌, ◌≡◌, refl, ◌∙◌, ap, String, [], ◌∷◌, ◌++◌, arith, string_eq, ◌==◌, some,
  if◌then◌else◌, Bool-cases, inl, inr,
}
use ha_truenas_ng.Base.Int.{pos}
use ha_truenas_ng.Base.Dict.{Dict, update, update-nil, update-append}
use ha_truenas_ng.Result.{ok, fold_result}
use ha_truenas_ng.Value.{Value, str, int, arr, dict, null, Items, nil, cons, Fields, end, field}
use ha_truenas_ng.Value.Access.{
  items, iterate, iterate_or_empty, dict_or_empty, or_value, truthy, as_dict, find, get, get_or,
  is_str,
}
use ha_truenas_ng.Value.Key.{Key, text, key_eq, hash_key}
use ha_truenas_ng.Value.Size.{depth, depth_items, depth_fields}
use ha_truenas_ng.Coordinator.Topology.{
  Leaf, topology_categories, counters, leaf_of, store_leaf, visit_leaf, visit, visit_category,
  walk_topology_errors,
}

pub data GroupKind : Type 0 where
  mirror raidz1 raidz2 raidz3 draid replacing : GroupKind

abbrev pub kind_name : GroupKind → String
kind_name mirror = "MIRROR"
kind_name raidz1 = "RAIDZ1"
kind_name raidz2 = "RAIDZ2"
kind_name raidz3 = "RAIDZ3"
kind_name draid = "DRAID"
kind_name replacing = "REPLACING"

-- A disk with its name, counters and status, one that is gone and has no name, or a group. Each has
-- further fields, as `device`, `name`, `guid` or the counters of a group.
mutual
  pub data Vdev : Type 0 where
    disk : String → Fields → Value → Fields → Vdev
    detached : Value → Fields → Vdev
    group : GroupKind → Value → Vdevs → Fields → Vdev

  pub data Vdevs : Type 0 where
    leaf : Vdevs
    child : Vdev → Vdevs → Vdevs

-- The children of a disk, if the API lists them, are none.
pub childless : Fields → Fields
childless end = end
childless (field key value others) =
    field key (if "children" == key then arr nil else value) (childless others)

mutual
  unfolding childless

  pub encode : Vdev → Value
  encode (disk name stats status rest) = dict (
      field "type" (str "DISK") (
        field "disk" (str name)
          (field "stats" (dict stats) (field "status" status (childless rest)))))
  encode (detached status rest) =
      dict (field "type" (str "DISK") (field "disk" null (field "status" status (childless rest))))
  encode (group kind status vs rest) = dict (
      field "type" (str (kind_name kind))
        (field "status" status (field "children" (arr (encode_all vs)) rest)))

  pub encode_all : Vdevs → Items
  encode_all leaf = nil
  encode_all (child v vs) = cons (encode v) (encode_all vs)

abbrev leaf_entry : String → Fields → Value → Dict Key Leaf
leaf_entry name stats status =
    (
      text name,
      record {
        errors =
            counters (get_or stats "read_errors" (int (pos 0)))
              (get_or stats "write_errors" (int (pos 0)))
              (get_or stats "checksum_errors" (int (pos 0)));
        status = status;
      },
    )
    ∷ []

-- The named disks at any depth, with their counters (0 where the API gives none) and status.
mutual
  pub leaves : Vdev → Dict Key Leaf
  leaves (disk name stats status rest) = if name == "" then [] else leaf_entry name stats status
  leaves (detached status rest) = []
  leaves (group kind status vs rest) = leaves_all vs

  pub leaves_all : Vdevs → Dict Key Leaf
  leaves_all leaf = []
  leaves_all (child v vs) = leaves v ++ leaves_all vs

iterate-or_value : (vs : Items) → iterate (or_value (arr vs) (arr nil)) ≡ ok (items vs)
unfolding iterate or_value truthy
iterate-or_value nil = refl
iterate-or_value (cons v vs) = refl

as_dict-or_value : (fs : Fields) → as_dict (or_value (dict fs) (dict end)) ≡ ok fs
unfolding as_dict or_value truthy
as_dict-or_value end = refl
as_dict-or_value (field k v fs) = refl

iterate-childless : (rest : Fields) → iterate_or_empty (childless rest) "children" ≡ ok []
unfolding childless iterate_or_empty iterate items or_value truthy get find
iterate-childless end = refl
iterate-childless (field key value others) = elim (Bool-cases ("children" == key)) [
  | inl p ↦ rw p refl
  | inr p ↦ rw p (iterate-childless others)
]

store_leaf-named :
    (fs : Fields) (r : Dict Key Leaf) (name : String) (stats : Fields) (status : Value)
    (rest : Fields)
    → get fs "disk" ≡ str name
    → dict_or_empty fs "stats" ≡ ok stats
    → get fs "status" ≡ status
    → store_leaf fs r ≡ ok (update r (leaves (disk name stats status rest)))
unfolding store_leaf leaf_of truthy hash_key update leaves
store_leaf-named fs r name stats status rest p q s = elim (Bool-cases (name == "")) [
  | inl e ↦ rw (p, e)
  | inr e ↦ rw (p, e, q, s)
]

visit-disk :
    (n : ℕ) (r : Dict Key Leaf) (name : String) (stats : Fields) (status : Value) (rest : Fields)
    → visit (suc n) r (encode (disk name stats status rest))
      ≡ ok (update r (leaves (disk name stats status rest)))
unfolding visit encode visit_leaf as_dict iterate_or_empty dict_or_empty get find string_eq is_str
    iterate items or_value truthy fold_result
visit-disk n r name stats status rest =
    rw
      (
        store_leaf-named _ r name stats status rest refl (as_dict-or_value stats) refl,
        iterate-childless rest,
      )
      refl

visit-detached :
    (n : ℕ) (r : Dict Key Leaf) (status : Value) (rest : Fields)
    → visit (suc n) r (encode (detached status rest))
      ≡ ok (update r (leaves (detached status rest)))
unfolding visit encode visit_leaf store_leaf truthy as_dict iterate_or_empty iterate or_value items
    get find string_eq is_str fold_result update leaves
visit-detached n r status rest = rw (iterate-childless rest) refl

visit-group :
    (n : ℕ) (r : Dict Key Leaf) (kind : GroupKind) (status : Value) (vs : Vdevs) (rest : Fields)
    → visit (suc n) r (encode (group kind status vs rest))
      ≡ fold_result (visit n) r (items (encode_all vs))
unfolding visit encode visit_leaf as_dict iterate_or_empty get find string_eq is_str
visit-group n r mirror status vs rest = rw iterate-or_value
visit-group n r _ status vs rest = rw iterate-or_value

mutual
  unfolding leaves encode fold_result items depth

  visit-encode :
      (v : Vdev) (n : ℕ) (r : Dict Key Leaf)
      → depth (encode v) < n
      → visit n r (encode v) ≡ ok (update r (leaves v))
  visit-encode v zero r h = elim h [ ]
  visit-encode (disk name stats status rest) (suc n) r h = visit-disk n r name stats status rest
  visit-encode (detached status rest) (suc n) r h = visit-detached n r status rest
  visit-encode (group kind status vs rest) (suc n) r h =
      visit-group n r kind status vs rest ∙ fold-encode_all vs n r (omega arith)

  fold-encode_all :
      (vs : Vdevs) (n : ℕ) (r : Dict Key Leaf)
      → depth_items (encode_all vs) < n
      → fold_result (visit n) r (items (encode_all vs)) ≡ ok (update r (leaves_all vs))
  fold-encode_all leaf n r h = rw (update-nil r)
  fold-encode_all (child v vs) n r h =
      rw (visit-encode v n r (omega arith))
        (fold-encode_all vs n _ (omega arith) ∙ ap ok (update-append r (leaves v) (leaves_all vs)))

-- The vdevs of each category, and what else the API says of the topology and of the pool.
pub record PoolTree : Type 0 where
  pub stripes : Vdevs
  pub cache : Vdevs
  pub log : Vdevs
  pub spare : Vdevs
  pub special : Vdevs
  pub dedup : Vdevs
  pub others : Fields
  pub rest : Fields

pub encode_topology : PoolTree → Fields
unfolding encode
encode_topology t = field "data" (arr (encode_all t.stripes)) (
    field "cache" (arr (encode_all t.cache)) (
      field "log" (arr (encode_all t.log)) (
        field "spare" (arr (encode_all t.spare)) (
          field "special" (arr (encode_all t.special))
            (field "dedup" (arr (encode_all t.dedup)) t.others)))))

-- All named disks of the pool, category by category.
pub pool_leaves : PoolTree → Dict Key Leaf
pool_leaves t =
    leaves_all t.stripes
    ++ (leaves_all t.cache
        ++ (leaves_all t.log
            ++ (leaves_all t.spare ++ (leaves_all t.special ++ leaves_all t.dedup))))

-- One category of a topology whose list is known.
visit_category-encode :
    (topology : Fields) (category : String) (vs : Vdevs) (n : ℕ) (r : Dict Key Leaf)
    → get topology category ≡ arr (encode_all vs)
    → depth_items (encode_all vs) < n
    → visit_category n topology r category ≡ ok (update r (leaves_all vs))
unfolding visit_category iterate_or_empty
visit_category-encode topology category vs n r p h =
    rw (p, iterate-or_value (encode_all vs)) (fold-encode_all vs n r h)

fold-categories :
    (t : PoolTree) (n : ℕ)
    → depth_fields (encode_topology t) < n
    → fold_result (visit_category n (encode_topology t)) [] topology_categories
      ≡ ok (update [] (pool_leaves t))
unfolding fold_result encode_topology depth get find string_eq pool_leaves
fold-categories t n h =
    let top = encode_topology t in
    rw
      (
        visit_category-encode top "data" t.stripes n [] refl (omega arith),
        visit_category-encode top "cache" t.cache n _ refl (omega arith),
        visit_category-encode top "log" t.log n _ refl (omega arith),
        visit_category-encode top "spare" t.spare n _ refl (omega arith),
        visit_category-encode top "special" t.special n _ refl (omega arith),
        visit_category-encode top "dedup" t.dedup n _ refl (omega arith),
      )
      (simp (← update-append))

dict_or_empty-field :
    (key : String) (fs rest : Fields)
    → find key (field key (dict fs) rest) ≡ some (dict fs)
    → dict_or_empty (field key (dict fs) rest) key ≡ ok fs
unfolding dict_or_empty get
dict_or_empty-field key fs rest p = rw p (as_dict-or_value fs)

-- Whatever further fields the API gives of a disk, a group, the topology and the pool, the walk finds
-- every named disk of a pool, in whatever category and however deep, under its name, with its error
-- counters and its status, and nothing else; of two with one name the later stays.
pub walk_topology_errors-encode :
    (t : PoolTree)
    → walk_topology_errors (field "topology" (dict (encode_topology t)) t.rest)
      ≡ ok (update [] (pool_leaves t))
unfolding walk_topology_errors find string_eq
walk_topology_errors-encode t =
    rw (dict_or_empty-field "topology" (encode_topology t) t.rest refl)
      (fold-categories t (suc (depth_fields (encode_topology t))) (omega arith))
