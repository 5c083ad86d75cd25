-- ===== src/Coordinator/Degrading.antt =====
-- coordinator.py, AppsCoordinator and VMsCoordinator: a group of calls that a system may lack.
pub mod Tables
use ha_truenas_ng.Base.{String, Option, none, some, [], if◌then◌else◌}
use ha_truenas_ng.Base.Dict.{Dict}
use ha_truenas_ng.Result.{Exc, is_truenas_error}
use ha_truenas_ng.Action.{Action, pure, raise, lift, catch, ◌>>=◌}
use ha_truenas_ng.Value.{Value}
use ha_truenas_ng.Value.Key.{Key}
use ha_truenas_ng.Coordinator.{Caller}
use ha_truenas_ng.Coordinator.Storage.{index_all}

module _ {S : Type 0} (call : Caller S) where
  -- `except TrueNASError`: no answer.
  abbrev pub no_answer : Exc → Action S (Option Value)
  no_answer e = if is_truenas_error e then pure none else raise e

  abbrev pub answered : Value → Action S (Option Value)
  answered raw = pure (some raw)

  -- Without an answer the table is empty.
  abbrev pub index_or_empty : String → Option Value → Action S (Dict Key Value)
  index_or_empty field_name none = pure []
  index_or_empty field_name (some raw) = lift (index_all field_name raw)

  unfoldable pub fetch_apps : Action S (Dict Key Value)
  fetch_apps = do
    raw ← catch (call "app.query" [] >>= answered) no_answer
    index_or_empty "name" raw

  unfoldable pub fetch_vms : Action S (Dict Key Value)
  fetch_vms = do raw ← catch (call "vm.query" [] >>= answered) no_answer; index_or_empty "id" raw
