-- ===== src/Coordinator/Indexed.antt =====
-- The tables that the coordinators index: every object stands under the field that names it, and no
-- two objects stand under one name.
use ha_truenas_ng.Base.{
  ◌≡◌, ℕ, zero, suc, refl, ap, Option, none, inl, inr, Bool-cases, String, some, [], All, All-any,
}
use ha_truenas_ng.Base.Dict
use ha_truenas_ng.Base.Dict.{Dict, NodupKeys, insert-NodupKeys, insert-All}
use ha_truenas_ng.Result.{Exc, recursion_error, ok, fold_result, ok-injective}
use ha_truenas_ng.Result.Holds.{Holds, Holds-ok, Holds-err, ok-Holds, Holds-bind, Holds-fold}
use ha_truenas_ng.Value.{Value, dict, Fields}
use ha_truenas_ng.Value.Access.{
  find, present, subscript, subscript_of, as_dict, iterate, iterate_or_empty, truthy,
}
use ha_truenas_ng.Value.Key.{Key, key_eq, hash_key}
use ha_truenas_ng.Coordinator.Storage.{
  StorageData, index_by, index_all, add_pool, add_disk, stable_id, disk_entry, assemble,
}
use ha_truenas_ng.Coordinator.Topology.{Leaf}
use ha_truenas_ng.Coordinator.Datasets.{visit, flatten}
use ha_truenas_ng.Value.Size.{depth}

-- An object that is stored under its field.
pub record IsNamedBy (field_name : String) (entry : Key × Value) : Type 0 where
  pub fields : Fields
  pub name : Value
  pub is_dict : entry.1 ≡ dict fields
  pub has_field : find field_name fields ≡ some name
  pub is_key : hash_key name ≡ ok entry.0

unfoldable pub IsIndexed : String → Dict Key Value → Type 0
IsIndexed field_name table = NodupKeys table × All (IsNamedBy field_name) table

abbrev pub Any : Exc → Type 0
Any _ = Unit

present-some : (o : Option Value) (v : Value) → present o ≡ ok v → o ≡ some v
present-some none v h = cc
present-some (some w) v h = ap some (ok-injective h)

module _ (field_name : String) where
  subscript_of-IsNamedBy :
      (v name : Value) (key : Key)
      → subscript_of v field_name ≡ ok name
      → hash_key name ≡ ok key
      → IsNamedBy field_name (key, v)
  unfolding subscript_of subscript
  subscript_of-IsNamedBy (dict fs) name key h k = record {
    fields = fs;
    name = name;
    is_dict = refl;
    has_field = present-some (find field_name fs) name h;
    is_key = k;
  }
  subscript_of-IsNamedBy _ name key h k = cc

  insert-IsIndexed :
      (v name : Value) (key : Key) (table : Dict Key Value)
      → IsIndexed field_name table
      → subscript_of v field_name ≡ ok name
      → hash_key name ≡ ok key
      → IsIndexed field_name (Dict.insert key v table)
  unfolding IsIndexed
  insert-IsIndexed v name key table (u, h) p q = (
    insert-NodupKeys key v table u,
    insert-All (IsNamedBy field_name) key v table (subscript_of-IsNamedBy v name key p q) h,
  )

  index_by-IsIndexed :
      (table : Dict Key Value) (v : Value)
      → IsIndexed field_name table
      → Holds (IsIndexed field_name) Any (index_by field_name table v)
  unfolding index_by
  index_by-IsIndexed table v h =
      Holds-bind _ Any (subscript_of v field_name) _ (λ e _. tt)
        (λ id p.
          Holds-bind _ Any (hash_key id) _ (λ e _. tt)
            (λ key q. Holds-ok _ Any _ (insert-IsIndexed v id key table h p q)))

  pub empty-IsIndexed : IsIndexed field_name []
  unfolding IsIndexed
  empty-IsIndexed = (tt, tt)

  pub index_all-IsIndexed :
      (raw : Value) → Holds (IsIndexed field_name) Any (index_all field_name raw)
  unfolding index_all
  index_all-IsIndexed raw =
      Holds-bind _ Any (iterate raw) _ (λ e _. tt)
        (λ vs _.
          Holds-fold (IsIndexed field_name) Any (λ _. Unit) (index_by field_name)
            (λ table v _ h. index_by-IsIndexed table v h) [] vs (All-any vs) empty-IsIndexed)

-- The flattened datasets, each under its path.
visit-IsIndexed :
    (n : ℕ) (flattened : Dict Key Value) (v : Value)
    → IsIndexed "id" flattened
    → Holds (IsIndexed "id") Any (visit n flattened v)
unfolding visit
visit-IsIndexed zero flattened v h = Holds-err (IsIndexed "id") Any recursion_error tt
visit-IsIndexed (suc n) flattened v h =
    Holds-bind _ Any (subscript_of v "id") _ (λ e _. tt)
      (λ id p.
        Holds-bind _ Any (hash_key id) _ (λ e _. tt)
          (λ key q.
            Holds-bind _ Any (as_dict v) _ (λ e _. tt)
              (λ fs _.
                Holds-bind _ Any (iterate_or_empty fs "children") _ (λ e _. tt)
                  (λ children _.
                    Holds-fold (IsIndexed "id") Any (λ _. Unit) (visit n)
                      (λ table c _ k. visit-IsIndexed n table c k) _ children (All-any children)
                      (insert-IsIndexed "id" v id key flattened h p q)))))

pub flatten-IsIndexed : (raw : Value) → Holds (IsIndexed "id") Any (flatten raw)
unfolding flatten
flatten-IsIndexed raw =
    Holds-bind _ Any (iterate raw) _ (λ e _. tt)
      (λ vs _.
        Holds-fold (IsIndexed "id") Any (λ _. Unit) (visit (suc (depth raw)))
          (λ table c _ k. visit-IsIndexed (suc (depth raw)) table c k) [] vs (All-any vs)
          (empty-IsIndexed "id"))

-- The disks, of which only the keys matter.
add_disk-NodupKeys :
    (by_devname : Dict Key Leaf) (temps : Value) (disks : Dict Key Fields) (v : Value)
    → NodupKeys disks
    → Holds NodupKeys Any (add_disk by_devname temps disks v)
unfolding add_disk
add_disk-NodupKeys by_devname temps disks v u =
    Holds-bind _ Any (as_dict v) _ (λ e _. tt)
      (λ disk _. elim (Bool-cases (truthy (stable_id disk))) [
        | inl q ↦ rw q (
            Holds-bind _ Any (disk_entry by_devname temps disk) _ (λ e _. tt)
              (λ entry _.
                Holds-bind _ Any (hash_key (stable_id disk)) _ (λ e _. tt)
                  (λ key _. Holds-ok NodupKeys Any _ (insert-NodupKeys key entry disks u))))
        | inr q ↦ rw q (Holds-ok NodupKeys Any disks u)
      ])

unfoldable pub IsStored : StorageData → Type 0
IsStored s = IsIndexed "guid" s.pools × NodupKeys s.disks

pub assemble-IsStored :
    (raw_pools raw_disks temps : Value) → Holds IsStored Any (assemble raw_pools raw_disks temps)
unfolding assemble IsStored
assemble-IsStored raw_pools raw_disks temps =
    Holds-bind _ Any (index_all "guid" raw_pools) _ (λ e _. tt)
      (λ pools p.
        Holds-bind _ Any (iterate raw_pools) _ (λ e _. tt)
          (λ pool_list _.
            Holds-bind _ Any (fold_result add_pool [] pool_list) _ (λ e _. tt)
              (λ by_devname _.
                Holds-bind _ Any (iterate raw_disks) _ (λ e _. tt)
                  (λ disk_list _.
                    Holds-bind _ Any (fold_result (add_disk by_devname temps) [] disk_list) _
                      (λ e _. tt)
                      (λ disks q. Holds-ok _ Any _ (
                        ok-Holds (IsIndexed "guid") Any _ (index_all-IsIndexed "guid" raw_pools) p,
                        ok-Holds NodupKeys Any _
                            (Holds-fold NodupKeys Any (λ _. Unit) (add_disk by_devname temps)
                              (λ d v _ u. add_disk-NodupKeys by_devname temps d v u) [] disk_list
                              (All-any disk_list) tt)
                            q,
                      ))))))
