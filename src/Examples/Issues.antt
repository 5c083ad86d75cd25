-- ===== src/Examples/Issues.antt =====
-- An alert that becomes an issue, whose entry is unloaded before the alert goes.
use ha_truenas_ng.Base.{◌≡◌, refl, true, false, none, some, [], ◌∷◌, List, string_eq}
use ha_truenas_ng.Base.Dict
use ha_truenas_ng.Value.{arr, nil, cons, dict}
use ha_truenas_ng.Value.Access.{get, find, is_str, iterate, items, as_dict, truthy}
use ha_truenas_ng.Value.Key.{Key, text, hash_key, key_eq}
use ha_truenas_ng.Result.{fold_result}
use ha_truenas_ng.Repairs.{
  Wanted, domain, issue_of, is_ours, wanted_issues, consider, want, severity_of, existing,
  create_all, delete_all, reconcile, async_sync_alert_issues,
}
use ha_truenas_ng.Repairs.Issues.{Issue}
use ha_truenas_ng.Repairs.Listener.{
  Event, set_up, updated, unloaded, World, handle_update, async_setup_alert_issues, without, happen,
  run,
}
use ha_truenas_ng.Repairs.Listener.Current.{asked, run-IsCurrent}
use ha_truenas_ng.Examples.Entries.{kept, lawful, alert, hot}

abbrev start : World kept
start = record { registry = ([], tt); listeners = [] }

-- The last event stands first: it is not heard.
abbrev events : List Event
events =
    updated "e1" (some (arr nil))
    ∷ unloaded "e1"
    ∷ updated "e1" (some (arr (cons (dict alert) nil)))
    ∷ set_up "e1" none
    ∷ []

still_there :
    kept.issue_at (run kept start events).registry domain (text "u1") ≡ some (issue_of "e1" hot)
unfolding run happen handle_update async_setup_alert_issues without async_sync_alert_issues
    reconcile create_all delete_all existing wanted_issues consider want severity_of iterate items
    as_dict truthy get find hash_key fold_result string_eq key_eq Dict.insert Dict.has_key
    Dict.lookup is_ours issue_of is_str
still_there = refl

ours : is_ours "e1" domain (issue_of "e1" hot) ≡ true
unfolding is_ours issue_of get find is_str string_eq
ours = refl

-- No issue is there at first.
none_at_start :
    (k : Key) (issue : Issue)
    → kept.issue_at start.registry domain k ≡ some issue
    → is_ours "e1" domain issue ≡ false
none_at_start k issue h = cc

run-IsCurrent_example :
    (x : Wanted) × (Dict.lookup (text "u1") (asked kept "e1" start events) ≡ some x)
    × (issue_of "e1" hot ≡ issue_of "e1" x)
run-IsCurrent_example =
    run-IsCurrent kept lawful "e1" start events none_at_start (text "u1") (issue_of "e1" hot)
      still_there ours
