-- ===== src/Platforms/Ids.antt =====
-- The unique ids that switch.py, button.py, update.py and binary_sensor.py give to what they add:
-- what holds of them, for each way in which a platform adds entities.
pub mod Rows
pub mod Sensors
pub mod Distinct
pub mod Names
use ha_truenas_ng.Base.{
  ◌≡◌, refl, sym, ◌∙◌, ap, String, ◌<>◌, Bool, true, false, Option, List, [], ◌∷◌, ◌++◌,
}
use ha_truenas_ng.Base.Dict.{Dict}
use ha_truenas_ng.Result.{Exc, Result, ok, err, ◌>>=◌}
use ha_truenas_ng.Result.Holds.{Holds, Holds-ok, Holds-imp, Holds-bind, ok-Holds}
use ha_truenas_ng.Value.{Value}
use ha_truenas_ng.Value.Access.{as_dict, subscript_of}
use ha_truenas_ng.Value.Key.{Key}
use ha_truenas_ng.Value.Runtime.{Runtime}
use ha_truenas_ng.Entity.{pool_device_info}
use ha_truenas_ng.Platforms.{Added, Runtimes, add_each, add_if, on_hub, on_app, on_vm}
use ha_truenas_ng.Platforms.Prefixes.{
  clash_each, IsApart, IsApart-Nodup, IsApart-nil, IsApart-append, IsApart-map, IsApart-one,
}
use mathlib.Core.List.{map, Nodup}
use mathlib.Core.Path.{subst}

-- The ids of what a platform adds.
unfoldable pub unique_ids : {A : Type 0} → List (Added A) → List String
unique_ids [] = []
unique_ids (a ∷ xs) = a.unique_id ∷ unique_ids xs

pub unique_ids-append :
    {A : Type 0} (xs ys : List (Added A)) → unique_ids (xs ++ ys) ≡ unique_ids xs ++ unique_ids ys
unfolding unique_ids
unique_ids-append [] ys = refl
unique_ids-append (x ∷ xs) ys = ap (λ t. x.unique_id ∷ t) (unique_ids-append xs ys)

-- Two entities that are added have two ids.
unfoldable pub HasDistinctIds : {A : Type 0} → Result (List (Added A)) → Type 0
HasDistinctIds = Holds (λ xs. Nodup (unique_ids xs)) (λ _. Unit)

module _ (py : Runtime) where
  -- The names of a coordinator's table, as they are printed into the ids.
  unfoldable pub names : {V : Type 0} → Dict Key V → List String
  names = map (λ (name, _). py.str_of_key name)

  -- No two names of a table that the platforms read are printed alike.
  pub record IsNamed (runtime : Runtimes) : Type 0 where
    pub pools : Nodup (names runtime.pools)
    pub disks : Nodup (names runtime.disks)
    pub services : Nodup (names runtime.services)
    pub datasets : Nodup (names runtime.datasets)
    pub apps : Nodup (names runtime.apps)
    pub vms : Nodup (names runtime.vms)

  module _ (host_id : String) where
    -- The entity has this id.
    unfoldable pub IsId : {A : Type 0} → String → Result (Added A) → Type 0
    IsId id = Holds (λ a. a.unique_id ≡ host_id <> id) (λ _. Unit)

    -- The ids of what is added start with one of these, and are distinct.
    pub IsAdded : {A : Type 0} → List String → Result (List (Added A)) → Type 0
    IsAdded ps = Holds (λ xs. IsApart host_id ps (unique_ids xs)) (λ _. Unit)

    module _ {A : Type 0} where
      pub join :
          (ps qs : List String) (xs ys : List (Added A))
          → clash_each ps qs ≡ true
          → IsApart host_id ps (unique_ids xs)
          → IsApart host_id qs (unique_ids ys)
          → IsApart host_id (ps ++ qs) (unique_ids (xs ++ ys))
      join ps qs xs ys c h k =
          subst (IsApart host_id (ps ++ qs)) (sym (unique_ids-append xs ys))
            (IsApart-append host_id ps qs (unique_ids xs) (unique_ids ys) c h k)

      pub ok-HasDistinctIds :
          (ps : List String) (xs : List (Added A))
          → IsApart host_id ps (unique_ids xs)
          → HasDistinctIds (ok xs)
      unfolding HasDistinctIds
      ok-HasDistinctIds ps xs h =
          Holds-ok (λ xs. Nodup (unique_ids xs)) (λ _. Unit) xs (IsApart-Nodup host_id ps _ h)

    module _ {A B : Type 0} (P : B → Type 0) where
      pub IsId-bind :
          (p : String) (m : Result (Added A)) (f : Added A → Result B)
          → IsId p m
          → ((a : Added A)
              → IsApart host_id (p ∷ []) (unique_ids (a ∷ []))
              → Holds P (λ _. Unit) (f a))
          → Holds P (λ _. Unit) (m >>= f)
      unfolding IsId unique_ids
      IsId-bind p m f h k =
          Holds-bind P (λ _. Unit) m f (λ e _. tt)
            (λ a e. k a (
              subst (λ id. IsApart host_id (p ∷ []) (id ∷ []))
                (sym (ok-Holds (λ a. a.unique_id ≡ host_id <> p) (λ _. Unit) m h e))
                (IsApart-one host_id p)))

      pub IsAdded-bind :
          (ps : List String) (m : Result (List (Added A))) (f : List (Added A) → Result B)
          → IsAdded ps m
          → ((xs : List (Added A))
              → IsApart host_id ps (unique_ids xs)
              → Holds P (λ _. Unit) (f xs))
          → Holds P (λ _. Unit) (m >>= f)
      unfolding IsAdded
      IsAdded-bind ps m f h k =
          Holds-bind P (λ _. Unit) m f (λ e _. tt)
            (λ xs e. k xs (ok-Holds (λ xs. IsApart host_id ps (unique_ids xs)) (λ _. Unit) m h e))

    module _ {A : Type 0} where
      pub add_if-IsAdded :
          (enabled : Bool) (ps : List String) (m : Result (List (Added A)))
          → IsAdded ps m
          → IsAdded ps (add_if enabled m)
      unfolding add_if IsAdded unique_ids
      add_if-IsAdded true ps m h = h
      add_if-IsAdded false ps m h =
          Holds-ok (λ xs. IsApart host_id ps (unique_ids xs)) (λ _. Unit) []
            (IsApart-nil host_id ps)

      -- The ids of what a loop adds, if the id of each entity is that of its name.
      pub add_each-ids :
          {X : Type 0} (name : X → String) (label : String → String) (make : X → Result (Added A))
          → ((x : X) → IsId (label (name x)) (make x))
          → (xs : List X)
          → Holds
              (λ ys. unique_ids ys ≡ map (λ t. host_id <> label t) (map name xs))
              (λ _. Unit)
              (add_each make xs)
      unfolding add_each unique_ids IsId
      add_each-ids name label make h [] = Holds-ok (λ ys. unique_ids ys ≡ []) (λ _. Unit) [] refl
      add_each-ids name label make h (x ∷ xs) =
          Holds-bind _ (λ _. Unit) (make x) _ (λ e _. tt)
            (λ y e.
              Holds-bind _ (λ _. Unit) (add_each make xs) _ (λ e _. tt)
                (λ ys es.
                  let id =
                    ok-Holds (λ a. a.unique_id ≡ host_id <> label (name x)) (λ _. Unit) (make x)
                      (h x) e in
                  let ids =
                    ok-Holds (λ ys. unique_ids ys ≡ map (λ t. host_id <> label t) (map name xs))
                      (λ _. Unit) (add_each make xs) (add_each-ids name label make h xs) es in
                  Holds-ok _ (λ _. Unit) (y ∷ ys)
                    (ap (λ t. t ∷ unique_ids ys) id
                      ∙ ap (λ ts. (host_id <> label (name x)) ∷ ts) ids)))

      -- Added entities whose ids are known.
      pub IsAdded-of :
          (ps ids : List String) (m : Result (List (Added A)))
          → Holds (λ xs. unique_ids xs ≡ ids) (λ _. Unit) m
          → IsApart host_id ps ids
          → IsAdded ps m
      unfolding IsAdded
      IsAdded-of ps ids m h k =
          Holds-imp (λ xs. unique_ids xs ≡ ids) (λ xs. IsApart host_id ps (unique_ids xs))
            (λ _. Unit) (λ xs e. subst (IsApart host_id ps) (sym e) k) m h

      add_each-IsAdded :
          {V : Type 0} (p s : String) (make : Key × V → Result (Added A)) (table : Dict Key V)
          → Nodup (names table)
          → ((x : Key × V) → IsId (p <> (py.str_of_key x.0 <> s)) (make x))
          → IsAdded (p ∷ []) (add_each make table)
      unfolding names
      add_each-IsAdded p s make table n h =
          IsAdded-of (p ∷ []) (map (λ t. host_id <> (p <> (t <> s))) (names table))
            (add_each make table)
            (add_each-ids (λ x. py.str_of_key x.0) (λ t. p <> (t <> s)) make h table)
            (IsApart-map host_id p s (names table) n)

    -- A loop over a table, and one behind a toggle.
    module _ {A B : Type 0} (P : B → Type 0) {V : Type 0} (p s : String) where
      module _ (make : Key × V → Result (Added A)) (table : Dict Key V) where
        pub add_each-bind :
            (f : List (Added A) → Result B)
            → Nodup (names table)
            → ((x : Key × V) → IsId (p <> (py.str_of_key x.0 <> s)) (make x))
            → ((xs : List (Added A))
                → IsApart host_id (p ∷ []) (unique_ids xs)
                → Holds P (λ _. Unit) (f xs))
            → Holds P (λ _. Unit) (add_each make table >>= f)
        add_each-bind f n h k =
            IsAdded-bind P (p ∷ []) (add_each make table) f (add_each-IsAdded p s make table n h) k

        pub add_if-bind :
            (enabled : Bool) (f : List (Added A) → Result B)
            → Nodup (names table)
            → ((x : Key × V) → IsId (p <> (py.str_of_key x.0 <> s)) (make x))
            → ((xs : List (Added A))
                → IsApart host_id (p ∷ []) (unique_ids xs)
                → Holds P (λ _. Unit) (f xs))
            → Holds P (λ _. Unit) (add_if enabled (add_each make table) >>= f)
        add_if-bind enabled f n h k =
            IsAdded-bind P (p ∷ []) (add_if enabled (add_each make table)) f
              (add_if-IsAdded enabled (p ∷ []) (add_each make table)
                (add_each-IsAdded p s make table n h))
              k

    module _ (via : Option String) {A : Type 0} where
      pub on_hub-IsId :
          (info : Value) (x : A) (id : String) → IsId id (on_hub py host_id via info x id)
      unfolding on_hub IsId
      on_hub-IsId info x id =
          Holds-bind _ (λ _. Unit) (as_dict info) _ (λ e _. tt)
            (λ fs _. Holds-ok _ (λ _. Unit) _ refl)

      pub on_app-IsId :
          (x : A) (s : String) (app : Key × Value)
          → IsId ("_app_" <> (py.str_of_key app.0 <> s)) (on_app py host_id via x s app)
      unfolding on_app IsId
      on_app-IsId x s (name, app) =
          Holds-bind _ (λ _. Unit) (as_dict app) _ (λ e _. tt)
            (λ fs _. Holds-ok _ (λ _. Unit) _ refl)

      pub on_vm-IsId :
          (x : A) (s : String) (vm : Key × Value)
          → IsId ("_vm_" <> (py.str_of_key vm.0 <> s)) (on_vm py host_id via x s vm)
      unfolding on_vm IsId
      on_vm-IsId x s (name, vm) =
          Holds-bind _ (λ _. Unit) (as_dict vm) _ (λ e _. tt)
            (λ fs _. Holds-ok _ (λ _. Unit) _ refl)
