-- ===== src/Platforms/Answers.antt =====
-- What the API documents of its answers, as far as the platforms depend on it.
pub mod Tables
pub mod Stored
pub mod Entry
use ha_truenas_ng.Base.{◌≡◌, ℕ, zero, suc, String, some, List, ◌⊎◌, All}
use ha_truenas_ng.Base.Int.{ℤ}
use ha_truenas_ng.Result.{ok}
use ha_truenas_ng.Value.{Value, null, str, int, dict, Fields}
use ha_truenas_ng.Value.Access.{find, get, iterate, iterate_or_empty}
use ha_truenas_ng.Platforms.Forwarded.{IsPoolAnswer}
use ha_truenas_ng.Platforms.Total.{IsDict, IsDataset}

-- A dict that is named by a text, or by a number.
pub record HasText (field_name : String) (v : Value) : Type 0 where
  pub fields : Fields
  pub name : String
  pub is_dict : v ≡ dict fields
  pub has_name : find field_name fields ≡ some (str name)

pub record HasNumber (field_name : String) (v : Value) : Type 0 where
  pub fields : Fields
  pub number : ℤ
  pub is_dict : v ≡ dict fields
  pub has_number : find field_name fields ≡ some (int number)

abbrev pub IsListedPool : Value → Type 0
IsListedPool v = HasText "guid" v × IsPoolAnswer v

-- A disk, whose serial, identifier and name are texts, or null or missing.
abbrev pub IsOptionalText : Value → Type 0
IsOptionalText v = (v ≡ null) ⊎ ((s : String) × (v ≡ str s))

pub record IsListedDisk (v : Value) : Type 0 where
  pub fields : Fields
  pub is_dict : v ≡ dict fields
  pub serial : IsOptionalText (get fields "serial")
  pub identifier : IsOptionalText (get fields "identifier")
  pub name : IsOptionalText (get fields "name")

-- A dataset whose descendants, down to a depth, have a path and a pool too.
abbrev pub IsTreeAt : ℕ → Value → Type 0
IsTreeAt zero v = Unit
IsTreeAt (suc n) v =
    HasText "id" v
    × IsDataset v
    × ((fs : Fields) (children : List Value)
        → v ≡ dict fs
        → iterate_or_empty fs "children" ≡ ok children
        → All (IsTreeAt n) children)

abbrev pub IsTree : Value → Type 0
IsTree v = (n : ℕ) → IsTreeAt n v

-- Each element of an answer.
abbrev pub Each : (Value → Type 0) → Value → Type 0
Each P raw = (vs : List Value) → iterate raw ≡ ok vs → All P vs

-- The answers to the methods that the coordinators call.
pub record IsAnswer (method : String) (v : Value) : Type 0 where
  pub info : method ≡ "system.info" → IsDict v
  pub pools : method ≡ "pool.query" → Each IsListedPool v
  pub disks : method ≡ "disk.query" → Each IsListedDisk v
  pub datasets : method ≡ "pool.dataset.query" → Each IsTree v
  pub services : method ≡ "service.query" → Each (HasText "service") v
  pub apps : method ≡ "app.query" → Each (HasText "name") v
  pub vms : method ≡ "vm.query" → Each (HasNumber "id") v
