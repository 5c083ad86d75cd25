-- ===== src/Repairs/Issues.antt =====
-- Home Assistant's issue registry, which is a parameter, and what repairs.py relies on of it.
use ha_truenas_ng.Base.{
  String, Bool, ◌≡◌, ◌&&◌, Option, none, some, List, [], ◌∷◌, ◌==◌, string_eq, if◌then◌else◌,
}
use ha_truenas_ng.Value.{Value, Fields}
use ha_truenas_ng.Value.Key.{Key, key_eq}

pub data Severity : Type 0 where
  warning error : Severity

pub record Issue : Type 0 where
  pub is_fixable : Bool
  pub severity : Severity
  pub translation_key : String
  pub placeholder_alert : Value
  pub placeholder_class : Value
  pub payload : Option Fields

pub record Registry : Type 1 where
  pub State : Type 0
  -- `registry.issues.items()`
  pub issues : State → List (String × Key × Issue)
  -- `registry.issues.get((domain, issue_id))`
  pub issue_at : State → String → Key → Option Issue
  -- `async_create_issue`, `async_delete_issue`
  pub create : State → String → Key → Issue → State
  pub delete : State → String → Key → State

-- The entry of a list under a domain and an identifier.
abbrev pub listed : String → Key → List (String × Key × Issue) → Option Issue
listed d k [] = none
listed d k ((e, j, issue) ∷ rest) = if d == e && k == j then some issue else listed d k rest

-- No two entries of a list have one domain and one identifier.
abbrev pub AreDistinct : List (String × Key × Issue) → Type 0
AreDistinct [] = Unit
AreDistinct ((d, k, _) ∷ rest) = (listed d k rest ≡ none) × AreDistinct rest

pub record IsLawful (R : Registry) : Type 0 where
  pub issue_at-create :
      (s : R.State) (d : String) (k : Key) (issue : Issue) (e : String) (j : Key)
      → R.issue_at (R.create s d k issue) e j
        ≡ (if e == d && j == k then some issue else R.issue_at s e j)
  pub issue_at-delete :
      (s : R.State) (d : String) (k : Key) (e : String) (j : Key)
      → R.issue_at (R.delete s d k) e j ≡ (if e == d && j == k then none else R.issue_at s e j)
  pub listed-issues :
      (s : R.State) (d : String) (k : Key) → listed d k (R.issues s) ≡ R.issue_at s d k
  pub issues-AreDistinct : (s : R.State) → AreDistinct (R.issues s)
