-- ===== src/Platforms/Total.antt =====
-- The platforms add their entities, and raise nothing, where the objects have what the constructors
-- read of them.
pub mod Entities
pub mod Sensors
use ha_truenas_ng.Base.{
  ◌≡◌, refl, sym, String, Bool, true, false, Option, some, List, [], ◌∷◌, ◌++◌, All, All-any,
}
use ha_truenas_ng.Base.Dict.{Dict}
use ha_truenas_ng.Result.{Exc, Result, ok, err, ◌>>=◌}
use ha_truenas_ng.Result.Holds.{Holds, Holds-ok, Holds-bind, err-Holds}
use ha_truenas_ng.Value.{Value, str, dict, Fields}
use ha_truenas_ng.Value.Access.{find, present, subscript, subscript_of, as_dict}
use ha_truenas_ng.Value.Key.{Key}
use ha_truenas_ng.Value.Runtime.{Runtime}
use ha_truenas_ng.Entity.{pool_device_info}
use ha_truenas_ng.Platforms.{Added, Runtimes, add_each, add_if, on_hub, on_app, on_vm}
use ha_truenas_ng.Platforms.Sensors.{add_all}
use mathlib.Core.Path.{subst}

-- A dict, and a dict with a field.
pub record IsDict (v : Value) : Type 0 where
  pub fields : Fields
  pub is_dict : v ≡ dict fields

pub record IsPool (v : Value) : Type 0 where
  pub fields : Fields
  pub id : Value
  pub guid : Value
  pub name : String
  pub is_dict : v ≡ dict fields
  pub has_id : find "id" fields ≡ some id
  pub has_guid : find "guid" fields ≡ some guid
  pub has_name : find "name" fields ≡ some (str name)

pub record IsDataset (v : Value) : Type 0 where
  pub fields : Fields
  pub pool : String
  pub is_dict : v ≡ dict fields
  pub has_pool : find "pool" fields ≡ some (str pool)

-- What the constructors of the platforms read.
pub record IsComplete (runtime : Runtimes) : Type 0 where
  pub info : IsDict runtime.info
  pub pools : All (λ x. IsPool x.1) runtime.pools
  pub datasets : All (λ x. IsDataset x.1) runtime.datasets
  pub apps : All (λ x. IsDict x.1) runtime.apps
  pub vms : All (λ x. IsDict x.1) runtime.vms

-- It returns.
unfoldable pub Total : {A : Type 0} → Result A → Type 0
Total = Holds (λ _. Unit) (λ _. ⊥)

pub Total-ok : {A : Type 0} (a : A) → Total (ok a)
unfolding Total
Total-ok a = Holds-ok (λ _. Unit) (λ _. ⊥) a tt

pub Total-then :
    {A B : Type 0} (m : Result A) (f : A → Result B)
    → Total m
    → ((a : A) → m ≡ ok a → Total (f a))
    → Total (m >>= f)
unfolding Total
Total-then m f h k =
    Holds-bind (λ _. Unit) (λ _. ⊥) m f (λ e p. err-Holds (λ _. Unit) (λ _. ⊥) m h p) k

pub Total-of : {A : Type 0} (m : Result A) (a : A) → m ≡ ok a → Total m
Total-of m a p = subst Total (sym p) (Total-ok a)

-- The fields of a dict.
pub same_fields : (v : Value) (fs gs : Fields) → as_dict v ≡ ok fs → v ≡ dict gs → fs ≡ gs
unfolding as_dict
same_fields (dict fs) gs hs p q = cc
same_fields _ gs hs p q = cc

-- An object that is read as a dict.
pub as_dict_of-Total : (v : Value) (fs : Fields) → v ≡ dict fs → Total (as_dict v)
unfolding as_dict
as_dict_of-Total v fs p = Total-of (as_dict v) fs (rw p refl)

pub as_dict-Total : (v : Value) → IsDict v → Total (as_dict v)
as_dict-Total v d = as_dict_of-Total v d.fields d.is_dict

subscript-Total :
    (fs : Fields) (key : String) (v : Value) → find key fs ≡ some v → Total (subscript fs key)
unfolding subscript
subscript-Total fs key v h = Total-of (subscript fs key) v (rw h refl)

pub subscript_of-Total :
    (v : Value) (fs : Fields) (key : String) (w : Value)
    → v ≡ dict fs
    → find key fs ≡ some w
    → Total (subscript_of v key)
unfolding subscript_of
subscript_of-Total v fs key w p h = rw p (subscript-Total fs key w h)

module _ {A : Type 0} where
  pub add_if-Total : (enabled : Bool) (m : Result (List A)) → Total m → Total (add_if enabled m)
  unfolding add_if
  add_if-Total true m h = h
  add_if-Total false m h = Total-ok []

  module _ {X : Type 0} (Q : X → Type 0) where
    pub add_each-Total :
        (make : X → Result A)
        → ((x : X) → Q x → Total (make x))
        → (xs : List X) → All Q xs
        → Total (add_each make xs)
    unfolding add_each
    add_each-Total make h [] q = Total-ok []
    add_each-Total make h (x ∷ xs) (q, qs) = Total-then (make x) _ (h x q) (λ y _.
        Total-then (add_each make xs) _ (add_each-Total make h xs qs) (λ ys _. Total-ok (y ∷ ys)))

    pub add_all-Total :
        (f : X → Result (List A))
        → ((x : X) → Q x → Total (f x))
        → (xs : List X) → All Q xs
        → Total (add_all f xs)
    unfolding add_all
    add_all-Total f h [] q = Total-ok []
    add_all-Total f h (x ∷ xs) (q, qs) = Total-then (f x) _ (h x q) (λ ys _.
        Total-then (add_all f xs) _ (add_all-Total f h xs qs) (λ zs _. Total-ok (ys ++ zs)))

  -- A constructor that raises for nothing.
  pub each-Total :
      {X : Type 0} (make : X → Result A)
      → ((x : X) → Total (make x))
      → (xs : List X) → Total (add_each make xs)
  each-Total make h xs = add_each-Total (λ _. Unit) make (λ x _. h x) xs (All-any xs)

  pub all-Total :
      {X : Type 0} (f : X → Result (List A))
      → ((x : X) → Total (f x))
      → (xs : List X) → Total (add_all f xs)
  all-Total f h xs = add_all-Total (λ _. Unit) f (λ x _. h x) xs (All-any xs)

module _ (py : Runtime) (host_id : String) (via : Option String) where
  module _ {A : Type 0} where
    pub on_hub-Total :
        (info : Value) (x : A) (id : String) → IsDict info → Total (on_hub py host_id via info x id)
    unfolding on_hub
    on_hub-Total info x id d =
        Total-then (as_dict info) _ (as_dict-Total info d) (λ fs _. Total-ok _)

    pub on_app-Total :
        (x : A) (s : String) (app : Key × Value)
        → IsDict app.1
        → Total (on_app py host_id via x s app)
    unfolding on_app
    on_app-Total x s (name, app) d =
        Total-then (as_dict app) _ (as_dict-Total app d) (λ fs _. Total-ok _)

    pub on_vm-Total :
        (x : A) (s : String) (vm : Key × Value) → IsDict vm.1 → Total (on_vm py host_id via x s vm)
    unfolding on_vm
    on_vm-Total x s (name, vm) d =
        Total-then (as_dict vm) _ (as_dict-Total vm d) (λ fs _. Total-ok _)

  -- A pool with a guid and a name has a device.
  pub pool_device_info-Total :
      (v : Value) (fs : Fields)
      → IsPool v
      → as_dict v ≡ ok fs
      → Total (pool_device_info py host_id fs via)
  unfolding pool_device_info
  pool_device_info-Total v fs p h =
      let r : fs ≡ p.fields = same_fields v fs p.fields h p.is_dict in
      Total-then (subscript fs "guid") _ (subscript-Total fs "guid" p.guid (rw r p.has_guid))
        (λ guid _.
          Total-then (subscript fs "name") _
            (subscript-Total fs "name" (str p.name) (rw r p.has_name)) (λ name _. Total-ok _))
