-- ===== src/Repairs/Listener.antt =====
-- repairs.py, `async_setup_alert_issues`: the issues over time, as entries are set up, their system
-- coordinators update, entries are unloaded and issues are fixed, in whatever order.
pub mod Current
use ha_truenas_ng.Base.{
  ◌≡◌, ◌≢◌, refl, sym, ◌∙◌, String, Bool, true, false, ◌&&◌, not, Option, none, some, List, [], ◌∷◌,
  ◌==◌, string_eq, contains, arith, inl, inr, Bool-cases, ◌⊎◌, if◌then◌else◌,
}
use ha_truenas_ng.Base.Dict
use ha_truenas_ng.Base.Dict.{Dict, NodupKeys}
use ha_truenas_ng.Result.{Result, ok, err}
use mathlib.Core.Path.{subst}
use ha_truenas_ng.Action.{Action, pure, ◌>>=◌}
use ha_truenas_ng.Value.{Value}
use ha_truenas_ng.Value.Access.{get, find, is_str}
use ha_truenas_ng.Value.Key.{Key, key_eq}
use ha_truenas_ng.Repairs.{
  Wanted, domain, issue_of, is_ours, alerts_of, wanted_issues, reconciled, reconcile,
  async_sync_alert_issues,
}
use ha_truenas_ng.Repairs.Issues.{Registry, Issue, IsLawful}
use ha_truenas_ng.Repairs.Sync.{settled, reconcile-at, wanted_issues-NodupKeys}

-- What can happen; `alerts` is the data of the entry's system coordinator, if it has any.
pub data Event : Type 0 where
  -- `async_setup_alert_issues`, and an update of the coordinator
  set_up updated : (entry_id : String) (alerts : Option Value) → Event
  -- the listener is taken off as the entry is unloaded
  unloaded : (entry_id : String) → Event
  -- a fix flow deletes the issue of its alert
  fixed : (uuid : Key) → Event

module _ (R : Registry) where
  -- The registry, and the entries whose system coordinators call `_handle_update`.
  pub record World : Type 0 where
    pub registry : R.State
    pub listeners : List String

  unfoldable pub handle_update : String → Option Value → World → World
  handle_update entry_id alerts w = record w {
    registry = (async_sync_alert_issues R entry_id alerts w.registry).1;
  }

  unfoldable pub async_setup_alert_issues : String → Option Value → World → World
  unfolding handle_update
  async_setup_alert_issues entry_id alerts w =
      handle_update entry_id alerts (record w { listeners = entry_id ∷ w.listeners })

  -- `list.remove`, of all occurrences
  unfoldable pub without : String → List String → List String
  without id [] = []
  without id (j ∷ ids) = let rest = without id ids in if j == id then rest else j ∷ rest

  unfoldable pub happen : Event → World → World
  unfolding handle_update async_setup_alert_issues
  happen (set_up entry_id alerts) w = async_setup_alert_issues entry_id alerts w
  happen (updated entry_id alerts) w =
      if contains w.listeners entry_id then handle_update entry_id alerts w else w
  happen (unloaded entry_id) w = record w { listeners = without entry_id w.listeners }
  happen (fixed uuid) w = record w { registry = R.delete w.registry domain uuid }

  -- The state after a run, whose last event stands first.
  unfoldable pub run : World → List Event → World
  run w [] = w
  run w (e ∷ past) = happen e (run w past)
