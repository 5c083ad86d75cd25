-- ===== src/Platforms/Answers/Stored.antt =====
-- What the storage coordinator makes of the pools and the disks of the API.
use ha_truenas_ng.Base.{◌≡◌, true, Bool-cases, inl, inr, [], All}
use ha_truenas_ng.Base.Dict.{Dict, insert-All}
use ha_truenas_ng.Result.{ok, fold_result, ok-injective}
use ha_truenas_ng.Result.Holds.{Holds, Holds-ok, Holds-bind, Holds-fold, ok-Holds}
use ha_truenas_ng.Value.{Value, null, str, Fields}
use ha_truenas_ng.Value.Access.{subscript_of, or_value, truthy, as_dict, iterate}
use ha_truenas_ng.Value.Key.{Key, text, key_eq, hash_key}
use ha_truenas_ng.Coordinator.Indexed.{Any}
use ha_truenas_ng.Coordinator.Storage.{
  StorageData, index_all, add_pool, add_disk, stable_id, disk_entry, assemble,
}
use ha_truenas_ng.Coordinator.Topology.{Leaf}
use ha_truenas_ng.Platforms.Answers.{IsListedPool, IsOptionalText, IsListedDisk, Each}
use ha_truenas_ng.Platforms.Forwarded.{IsPoolAnswer}
use ha_truenas_ng.Platforms.Ids.Names.{IsText}
use ha_truenas_ng.Platforms.Total.{same_fields}
use ha_truenas_ng.Platforms.Prefixes.{All-imp}
use mathlib.Core.Path.{subst}
use ha_truenas_ng.Platforms.Answers.Tables.{subscript_of-IsText, Kept, index_all-Kept}

-- The stable identifier of a disk is a text, if it has one.
or_value-IsOptionalText :
    (v w : Value) → IsOptionalText v → IsOptionalText w → IsOptionalText (or_value v w)
unfolding or_value
or_value-IsOptionalText v w h k = elim (Bool-cases (truthy v)) [ inl q ↦ rw q h | inr q ↦ rw q k ]

stable-IsText :
    (v : Value) (key : Key) → IsOptionalText v → truthy v ≡ true → hash_key v ≡ ok key → IsText key
unfolding truthy hash_key
stable-IsText v key (inl p) h k =
    let none : truthy null ≡ true = subst (λ x. truthy x ≡ true) p h in cc
stable-IsText v key (inr (s, p)) h k =
    let found : hash_key (str s) ≡ ok key = subst (λ x. hash_key x ≡ ok key) p k in
    let same : text s ≡ key = ok-injective found in subst IsText same tt

stable_id-IsOptionalText :
    (v : Value) (fs : Fields) → IsListedDisk v → as_dict v ≡ ok fs → IsOptionalText (stable_id fs)
unfolding stable_id
stable_id-IsOptionalText v fs d h =
    let same : fs ≡ d.fields = same_fields v fs d.fields h d.is_dict in
    rw same (or_value-IsOptionalText _ _ (or_value-IsOptionalText _ _ d.serial d.identifier) d.name)

unfoldable pub AreDisks : Dict Key Fields → Type 0
AreDisks = All (λ x. IsText x.0)

add_disk-AreDisks :
    (by_devname : Dict Key Leaf) (temps : Value) (disks : Dict Key Fields) (v : Value)
    → IsListedDisk v
    → AreDisks disks
    → Holds AreDisks Any (add_disk by_devname temps disks v)
unfolding add_disk AreDisks
add_disk-AreDisks by_devname temps disks v d u =
    Holds-bind _ Any (as_dict v) _ (λ e _. tt)
      (λ disk a. elim (Bool-cases (truthy (stable_id disk))) [
        | inl q ↦ rw q (
            Holds-bind _ Any (disk_entry by_devname temps disk) _ (λ e _. tt)
              (λ entry _.
                Holds-bind _ Any (hash_key (stable_id disk)) _ (λ e _. tt)
                  (λ key b. Holds-ok AreDisks Any _ (
                    insert-All (λ x. IsText x.0) key entry disks
                      (stable-IsText (stable_id disk) key (stable_id-IsOptionalText v disk d a) q b)
                      u))))
        | inr q ↦ rw q (Holds-ok AreDisks Any disks u)
      ])

-- What is stored of pools and disks.
unfoldable pub ArePools : Dict Key Value → Type 0
ArePools = All (λ x. IsText x.0 × IsPoolAnswer x.1)

unfoldable pub AreStored : StorageData → Type 0
AreStored s = ArePools s.pools × AreDisks s.disks

pub assemble-AreStored :
    (raw_pools raw_disks temps : Value)
    → Each IsListedPool raw_pools
    → Each IsListedDisk raw_disks
    → Holds AreStored Any (assemble raw_pools raw_disks temps)
unfolding assemble AreStored AreDisks ArePools Kept
assemble-AreStored raw_pools raw_disks temps each_pool each_disk =
    Holds-bind _ Any (index_all "guid" raw_pools) _ (λ e _. tt)
      (λ pools p.
        Holds-bind _ Any (iterate raw_pools) _ (λ e _. tt)
          (λ pool_list _.
            Holds-bind _ Any (fold_result add_pool [] pool_list) _ (λ e _. tt)
              (λ by_devname _.
                Holds-bind _ Any (iterate raw_disks) _ (λ e _. tt)
                  (λ disk_list a.
                    Holds-bind _ Any (fold_result (add_disk by_devname temps) [] disk_list) _
                      (λ e _. tt)
                      (λ disks q. Holds-ok _ Any _ (
                        All-imp (λ x (k, (_, w)). (k, w)) pools
                            (ok-Holds (Kept "guid" IsListedPool IsText keyed_pool) Any _
                              (index_all-Kept "guid" IsListedPool IsText keyed_pool raw_pools
                                each_pool)
                              p),
                        ok-Holds AreDisks Any _
                            (Holds-fold AreDisks Any IsListedDisk (add_disk by_devname temps)
                              (λ d v l u. add_disk-AreDisks by_devname temps d v l u) [] disk_list
                              (each_disk disk_list a) tt)
                            q,
                      ))))))
  where
    keyed_pool :
        (v id : Value) (key : Key)
        → IsListedPool v
        → subscript_of v "guid" ≡ ok id
        → hash_key id ≡ ok key
        → IsText key
    keyed_pool v id key (t, _) s h = subscript_of-IsText "guid" v id key t s h
