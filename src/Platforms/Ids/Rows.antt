-- ===== src/Platforms/Ids/Rows.antt =====
-- The unique ids of the loops of sensor.py, which make an entity for each name of a table and each
-- description.
use ha_truenas_ng.Base.{◌≡◌, refl, ◌∙◌, ap, String, ◌<>◌, true, List, [], ◌∷◌, ◌++◌}
use ha_truenas_ng.Base.Dict.{Dict}
use ha_truenas_ng.Result.{Result}
use ha_truenas_ng.Result.Holds.{Holds, Holds-ok, Holds-bind, ok-Holds}
use ha_truenas_ng.Value.{Fields}
use ha_truenas_ng.Value.Key.{Key}
use ha_truenas_ng.Value.Runtime.{Runtime}
use ha_truenas_ng.Sensor.Tables.{Description}
use ha_truenas_ng.Platforms.{Added, add_each}
use ha_truenas_ng.Platforms.Grids.{ends_apart, row, grid, grid-IsApart}
use ha_truenas_ng.Platforms.Ids.{
  unique_ids, unique_ids-append, names, IsId, IsAdded, IsAdded-of, add_each-ids,
}
use ha_truenas_ng.Platforms.Sensors.{add_all, suffix_of}
use mathlib.Core.List.{map, Nodup}

module _ (py : Runtime) (host_id p : String) {A : Type 0} where
  -- The entities of one name.
  pub add_each-row :
      (n : String) (make : Description Fields → Result (Added A))
      → ((d : Description Fields) → IsId py host_id (p <> (n <> suffix_of d)) (make d))
      → (ds : List (Description Fields))
      → Holds
          (λ xs. unique_ids xs ≡ row host_id p (map suffix_of ds) n)
          (λ _. Unit)
          (add_each make ds)
  unfolding row
  add_each-row n make h ds = add_each-ids py host_id suffix_of (λ s. p <> (n <> s)) make h ds

  module _ {V : Type 0} (ss : List String) (make : Key × V → Result (List (Added A))) where
    add_all-ids :
        ((x : Key × V)
          → Holds (λ xs. unique_ids xs ≡ row host_id p ss (py.str_of_key x.0)) (λ _. Unit) (make x))
        → (table : Dict Key V)
        → Holds
            (λ xs. unique_ids xs ≡ grid host_id p ss (names py table))
            (λ _. Unit)
            (add_all make table)
    unfolding add_all grid names unique_ids
    add_all-ids h [] = Holds-ok (λ xs. unique_ids xs ≡ []) (λ _. Unit) [] refl
    add_all-ids h (x ∷ table) =
        Holds-bind _ (λ _. Unit) (make x) _ (λ e _. tt)
          (λ ys e.
            Holds-bind _ (λ _. Unit) (add_all make table) _ (λ e _. tt)
              (λ zs f.
                let ids =
                  ok-Holds (λ xs. unique_ids xs ≡ row host_id p ss (py.str_of_key x.0)) (λ _. Unit)
                    (make x) (h x) e in
                let rest =
                  ok-Holds (λ xs. unique_ids xs ≡ grid host_id p ss (names py table)) (λ _. Unit)
                    (add_all make table) (add_all-ids h table) f in
                Holds-ok _ (λ _. Unit) (ys ++ zs)
                  (unique_ids-append ys zs
                    ∙ (ap (λ ts. ts ++ unique_ids zs) ids
                        ∙ ap (λ ts. row host_id p ss (py.str_of_key x.0) ++ ts) rest))))

    -- The entities of a table.
    pub add_all-IsAdded :
        (table : Dict Key V)
        → ends_apart ss ≡ true
        → Nodup (names py table)
        → ((x : Key × V)
            → Holds
                (λ xs. unique_ids xs ≡ row host_id p ss (py.str_of_key x.0))
                (λ _. Unit)
                (make x))
        → IsAdded py host_id (p ∷ []) (add_all make table)
    add_all-IsAdded table c n h =
        IsAdded-of py host_id (p ∷ []) (grid host_id p ss (names py table)) (add_all make table)
          (add_all-ids h table) (grid-IsApart host_id p ss (names py table) c n)
