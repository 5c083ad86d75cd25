-- ===== src/Platforms/Available.antt =====
-- What the platforms add is available as long as the coordinators keep the data that it was added
-- from: what holds of the entities, for each way in which a platform adds them.
pub mod Entities
pub mod Sensors
use ha_truenas_ng.Base.{
  ◌≡◌, refl, ◌∙◌, ap, String, Bool, true, false, ◌&&◌, Option, List, [], ◌∷◌, ◌++◌, All,
}
use ha_truenas_ng.Base.Dict
use ha_truenas_ng.Base.Dict.{Dict, has_key-head, has_key-tail}
use ha_truenas_ng.Result.{Result, ◌>>=◌}
use ha_truenas_ng.Result.Holds.{Holds, Holds-ok, Holds-imp, Holds-bind, Holds-then}
use ha_truenas_ng.Value.{Value}
use ha_truenas_ng.Value.Access.{as_dict}
use ha_truenas_ng.Value.Key.{Key, key_eq}
use ha_truenas_ng.Value.Runtime.{Runtime}
use ha_truenas_ng.Entity.{available}
use ha_truenas_ng.Platforms.{Added, add_each, add_if, on_hub, on_app, on_vm}
use ha_truenas_ng.Platforms.Prefixes.{All-append, All-imp}
use ha_truenas_ng.Platforms.Sensors.{add_all}

-- Each name of a table is in it.
available-head :
    {V : Type 0} (up : Bool) (x : Key × V) (table : Dict Key V) → available up x.0 (x ∷ table) ≡ up
unfolding available
available-head true (k, v) table = has_key-head k v table
available-head false x table = refl

available-tail :
    {V : Type 0} (up : Bool) (x y : Key × V) (table : Dict Key V)
    → available up y.0 table ≡ up
    → available up y.0 (x ∷ table) ≡ up
unfolding available
available-tail true (k, v) y table h = has_key-tail y.0 k v table h
available-tail false x y table h = refl

-- The names under which an entity of the table is available.
pub Kept : {V : Type 0} → Bool → Dict Key V → Key × V → Type 0
Kept up table x = available up x.0 table ≡ up

All-Kept : {V : Type 0} (up : Bool) (table : Dict Key V) → All (Kept up table) table
unfolding Kept
All-Kept up [] = tt
All-Kept up (x ∷ table) = (
  available-head up x table,
  All-imp (λ y. available-tail up x y table) table (All-Kept up table),
)

module _ {A : Type 0} (P : Added A → Type 0) where
  -- Everything that is added satisfies `P`.
  unfoldable pub Every : Result (List (Added A)) → Type 0
  Every = Holds (All P) (λ _. Unit)

  pub add_if-Every :
      (enabled : Bool) (m : Result (List (Added A))) → Every m → Every (add_if enabled m)
  unfolding add_if Every
  add_if-Every true m h = h
  add_if-Every false m h = Holds-ok (All P) (λ _. Unit) [] tt

  module _ {X : Type 0} (Q : X → Type 0) where
    add_each-Every :
        (make : X → Result (Added A))
        → ((x : X) → Q x → Holds P (λ _. Unit) (make x))
        → (xs : List X) → All Q xs
        → Every (add_each make xs)
    unfolding add_each Every
    add_each-Every make h [] q = Holds-ok (All P) (λ _. Unit) [] tt
    add_each-Every make h (x ∷ xs) (q, qs) = Holds-then _ _ (make x) _ (h x q) (λ y p.
        Holds-then _ _ (add_each make xs) _ (add_each-Every make h xs qs)
          (λ ys ps. Holds-ok (All P) (λ _. Unit) (y ∷ ys) (p, ps)))

    add_all-Every :
        (f : X → Result (List (Added A)))
        → ((x : X) → Q x → Every (f x))
        → (xs : List X) → All Q xs
        → Every (add_all f xs)
    unfolding add_all Every
    add_all-Every f h [] q = Holds-ok (All P) (λ _. Unit) [] tt
    add_all-Every f h (x ∷ xs) (q, qs) = Holds-then _ _ (f x) _ (h x q) (λ ys p.
        Holds-then _ _ (add_all f xs) _ (add_all-Every f h xs qs)
          (λ zs ps. Holds-ok (All P) (λ _. Unit) (ys ++ zs) (All-append P ys zs p ps)))

-- The result of a constructor is the entity that it was called for.
unfoldable pub IsOf : {A : Type 0} → A → Result (Added A) → Type 0
IsOf x = Holds (λ a. a.entity ≡ x) (λ _. Unit)

All-tt : {X : Type 0} (xs : List X) → All (λ _. Unit {0}) xs
All-tt [] = tt
All-tt (x ∷ xs) = (tt, All-tt xs)

pub Every-each :
    {A X : Type 0} (P : Added A → Type 0) (make : X → Result (Added A))
    → ((x : X) → Holds P (λ _. Unit) (make x))
    → (xs : List X) → Every P (add_each make xs)
Every-each P make h xs = add_each-Every P (λ _. Unit) make (λ x _. h x) xs (All-tt xs)

module _ {A : Type 0} (available_in : A → Bool) (up : Bool) where
  -- An added entity is available if Home Assistant's part of it is.
  unfoldable pub IsUp : Added A → Type 0
  IsUp a = available_in a.entity ≡ up

  pub one-IsUp :
      (x : A) (m : Result (Added A)) → IsOf x m → available_in x ≡ up → Holds IsUp (λ _. Unit) m
  unfolding IsOf IsUp
  one-IsUp x m h k =
      Holds-imp (λ a. a.entity ≡ x) IsUp (λ _. Unit) (λ a e. ap available_in e ∙ k) m h

  module _ {V : Type 0} (table : Dict Key V) where
    -- The entities of a table's names, one for each name, or one for each of `ds` too.
    pub add_each-IsUp :
        (entity_of : Key × V → A) (make : Key × V → Result (Added A))
        → ((x : Key × V) → IsOf (entity_of x) (make x))
        → ((x : Key × V) → available_in (entity_of x) ≡ available up x.0 table)
        → Every IsUp (add_each make table)
    unfolding Kept
    add_each-IsUp entity_of make h e =
        add_each-Every IsUp (Kept up table) make
          (λ x k. one-IsUp (entity_of x) (make x) (h x) (e x ∙ k)) table (All-Kept up table)

    pub row-IsUp :
        {D : Type 0} (ds : List D) (x : Key × V) (entity_of : D → A) (make : D → Result (Added A))
        → ((d : D) → IsOf (entity_of d) (make d))
        → ((d : D) → available_in (entity_of d) ≡ available up x.0 table)
        → Kept up table x
        → Every IsUp (add_each make ds)
    unfolding Kept
    row-IsUp ds x entity_of make h e k =
        Every-each IsUp make (λ d. one-IsUp (entity_of d) (make d) (h d) (e d ∙ k)) ds

    pub add_all-IsUp :
        (f : Key × V → Result (List (Added A)))
        → ((x : Key × V) → Kept up table x → Every IsUp (f x))
        → Every IsUp (add_all f table)
    add_all-IsUp f h = add_all-Every IsUp (Kept up table) f h table (All-Kept up table)

  pub fixed-IsUp :
      {D : Type 0} (ds : List D) (entity_of : D → A) (make : D → Result (Added A))
      → ((d : D) → IsOf (entity_of d) (make d))
      → ((d : D) → available_in (entity_of d) ≡ up)
      → Every IsUp (add_each make ds)
  fixed-IsUp ds entity_of make h e =
      Every-each IsUp make (λ d. one-IsUp (entity_of d) (make d) (h d) (e d)) ds

module _ (py : Runtime) (host_id : String) (via : Option String) {A : Type 0} where
  pub on_hub-IsOf : (info : Value) (x : A) (id : String) → IsOf x (on_hub py host_id via info x id)
  unfolding on_hub IsOf
  on_hub-IsOf info x id =
      Holds-bind _ (λ _. Unit) (as_dict info) _ (λ e _. tt) (λ fs _. Holds-ok _ (λ _. Unit) _ refl)

  pub on_app-IsOf :
      (x : A) (s : String) (app : Key × Value) → IsOf x (on_app py host_id via x s app)
  unfolding on_app IsOf
  on_app-IsOf x s (name, app) =
      Holds-bind _ (λ _. Unit) (as_dict app) _ (λ e _. tt) (λ fs _. Holds-ok _ (λ _. Unit) _ refl)

  pub on_vm-IsOf : (x : A) (s : String) (vm : Key × Value) → IsOf x (on_vm py host_id via x s vm)
  unfolding on_vm IsOf
  on_vm-IsOf x s (name, vm) =
      Holds-bind _ (λ _. Unit) (as_dict vm) _ (λ e _. tt) (λ fs _. Holds-ok _ (λ _. Unit) _ refl)
