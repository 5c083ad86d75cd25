-- ===== src/Examples/Stores.antt =====
-- A server with a pool, a dataset, a service and a virtual machine, which answers as the API
-- documents it, and a runtime that prints keys apart.
use ha_truenas_ng.Base.{
  ◌≡◌, refl, sym, ◌∙◌, All, List, arith, ℕ, zero, suc, ap, ◌+◌, ◌*◌, String, ◌==◌, string_eq,
  if◌then◌else◌,
}
use ha_truenas_ng.Base.Int.{ℤ, pos, negsuc}
use ha_truenas_ng.Result.{Result, ok, ok-injective}
use ha_truenas_ng.Value.{Value, str, int, arr, nil, cons, dict, Fields, field, end}
use ha_truenas_ng.Value.Access.{get, or_value, items, find, iterate, truthy, iterate_or_empty}
use ha_truenas_ng.Value.Key.{Key, text, number}
use ha_truenas_ng.Value.Runtime.{Runtime}
use ha_truenas_ng.Client.Upstream.{Library}
use ha_truenas_ng.Client.Answers.{AnswersAs}
use ha_truenas_ng.Platforms.Answers.{
  HasText, HasNumber, IsListedPool, IsListedDisk, IsTreeAt, IsTree, Each, IsAnswer,
}
use ha_truenas_ng.Platforms.Total.{IsDict}
use mathlib.Core.Path.{subst}
use ha_truenas_ng.Platforms.Ids.Names.{PrintsKeys}
use ha_truenas_ng.Examples.{python}
use ha_truenas_ng.Examples.Setups.{reply}

-- Numbers are printed as tallies, the negative ones of odd length.
abbrev pub tally : ℕ → String
tally zero = String.[]
tally (suc n) = String.◌∷◌ "1" (tally n)

abbrev pub size : String → ℕ
size String.[] = 0
size (String.◌∷◌ c s) = suc (size s)

size-tally : (n : ℕ) → size (tally n) ≡ n
size-tally zero = refl
size-tally (suc n) = ap suc (size-tally n)

abbrev pub code : ℤ → ℕ
code (pos n) = 2 * n
code (negsuc n) = 2 * n + 1

code-injective : (m n : ℤ) → code m ≡ code n → m ≡ n
code-injective (pos m) (pos n) e = let same : m ≡ n = omega arith in ap pos same
code-injective (pos m) (negsuc n) e = absurd (omega arith)
code-injective (negsuc m) (pos n) e = absurd (omega arith)
code-injective (negsuc m) (negsuc n) e = let same : m ≡ n = omega arith in ap negsuc same

abbrev pub print : Key → String
print (text s) = s
print (number n) = tally (code n)
print _ = "key"

abbrev pub exact : Runtime
exact = record python { str_of_key = print }

pub exact-PrintsKeys : PrintsKeys exact
exact-PrintsKeys = record {
  text_lem = λ s. refl;
  number_lem = λ m n e.
      let s : size (tally (code m)) ≡ size (tally (code n)) = ap size e in
      let a = size-tally (code m) in
      let b = size-tally (code n) in let same : code m ≡ code n = cc in code-injective m n same;
}

-- A pool, a dataset of it, a service and a virtual machine.
abbrev pub tank : Value
tank = dict (field "id" (int (pos 1)) (field "guid" (str "7") (field "name" (str "tank") end)))

abbrev pub stocked : String → Result Value
stocked method =
    if method == "pool.dataset.query"
    then ok (arr (cons (dict (field "id" (str "tank/home") (field "pool" (str "tank") end))) nil))
    else if method == "service.query"
    then ok (arr (cons (dict (field "service" (str "nfs") end)) nil))
    else if method == "vm.query"
    then ok (arr (cons (dict (field "id" (int (pos 3)) end)) nil))
    else reply (ok (arr (cons tank nil))) method

abbrev pub store : Library
store = record {
  World = ℕ;
  Session = ℕ;
  construct = λ uri verify w. (ok 7, w);
  login = λ session user key w. (ok tt, w);
  call = λ session method params job timeout w. (stocked method, w);
  ping = λ session w. (ok (str "pong"), w);
  close = λ session w. (ok tt, w);
  enotauthenticated = pos 207;
}

-- What this server answers is as the API documents it.
abbrev home_dataset : Fields
home_dataset = field "id" (str "tank/home") (field "pool" (str "tank") end)

answer_at :
    (P : Value → Type 0) (m method : String) (w v : Value)
    → stocked m ≡ ok w
    → P w
    → stocked method ≡ ok v
    → method ≡ m
    → P v
answer_at P m method w v a p h e =
    subst P (ok-injective (sym a ∙ subst (λ x. stocked x ≡ ok v) e h)) p

one-Each : (P : Value → Type 0) (w : Value) → P w → Each P (arr (cons w nil))
unfolding iterate items
one-Each P w p vs e = subst (All P) (ok-injective e) (p, tt)

none-Each : (P : Value → Type 0) → Each P (arr nil)
unfolding iterate items
none-Each P vs e = subst (All P) (ok-injective e) tt

dict_fields : (fs gs : Fields) → dict fs ≡ dict gs → fs ≡ gs
dict_fields fs gs p = cc

home-children :
    (n : ℕ) (fs : Fields) (children : List Value)
    → dict home_dataset ≡ dict fs
    → iterate_or_empty fs "children" ≡ ok children
    → All (IsTreeAt n) children
unfolding iterate_or_empty get find or_value truthy iterate items string_eq
home-children n fs children p k =
    let none : iterate_or_empty home_dataset "children" ≡ ok children =
      subst (λ gs. iterate_or_empty gs "children" ≡ ok children)
        (sym (dict_fields home_dataset fs p)) k in
    subst (All (IsTreeAt n)) (ok-injective none) tt

home-IsTree : IsTree (dict home_dataset)
unfolding find string_eq
home-IsTree zero = tt
home-IsTree (suc n) = (
  record { fields = home_dataset; name = "tank/home"; is_dict = refl; has_name = refl },
  record { fields = home_dataset; pool = "tank"; is_dict = refl; has_pool = refl },
  home-children n,
)

tank-IsListedPool : IsListedPool tank
unfolding find string_eq
tank-IsListedPool = (
  record { fields = _; name = "7"; is_dict = refl; has_name = refl },
  record {
    fields = _;
    id = int (pos 1);
    name = "tank";
    is_dict = refl;
    has_id = refl;
    has_name = refl;
  },
)

nfs-HasText : HasText "service" (dict (field "service" (str "nfs") end))
unfolding find string_eq
nfs-HasText = record { fields = _; name = "nfs"; is_dict = refl; has_name = refl }

vm-HasNumber : HasNumber "id" (dict (field "id" (int (pos 3)) end))
unfolding find string_eq
vm-HasNumber = record { fields = _; number = pos 3; is_dict = refl; has_number = refl }

pub store-AnswersAs : AnswersAs store IsAnswer
unfolding string_eq
store-AnswersAs session method params job timeout w v h = record {
  info = answer_at IsDict "system.info" method _ v refl (record { fields = _; is_dict = refl }) h;
  pools =
      answer_at (Each IsListedPool) "pool.query" method _ v refl (one-Each _ tank tank-IsListedPool)
        h;
  disks = answer_at (Each IsListedDisk) "disk.query" method _ v refl (none-Each _) h;
  datasets =
      answer_at (Each IsTree) "pool.dataset.query" method _ v refl (one-Each _ _ home-IsTree) h;
  services =
      answer_at (Each (HasText "service")) "service.query" method _ v refl
        (one-Each _ _ nfs-HasText) h;
  apps = answer_at (Each (HasText "name")) "app.query" method _ v refl (none-Each _) h;
  vms = answer_at (Each (HasNumber "id")) "vm.query" method _ v refl (one-Each _ _ vm-HasNumber) h;
}
