-- ===== src/Coordinator.antt =====
-- coordinator.py: one coordinator for each group of API calls. `call` is the client's `call`.
pub mod Degrading
pub mod Datasets
pub mod Topology
pub mod Storage
pub mod System
pub mod Reporting
pub mod Versions
pub mod Polling
pub mod Indexed
pub mod Facts
pub mod Walks
use ha_truenas_ng.Base.{String, List, true, false, if◌then◌else◌}
use ha_truenas_ng.Result.{
  Exc, auth_error, connection_error, truenas_error, entry_auth_failed, update_failed, message,
}
use ha_truenas_ng.Action.{Action, raise, catch, handle}
use ha_truenas_ng.Value.{Value}

-- `self.client.call(method, *params)`
abbrev pub Caller : Type 0 → Type 0
Caller S = String → List Value → Action S Value

-- What `_async_update_data` raises in place of what `_fetch` raised.
unfoldable pub coordinator_error : Exc → Exc
unfolding message
coordinator_error (auth_error m) = entry_auth_failed m
coordinator_error (connection_error m) = update_failed m
coordinator_error (truenas_error m) = update_failed m
coordinator_error e = e

unfoldable pub update_data {ℓ} : {S A : Type ℓ} → Action S A → Action S A
unfolding coordinator_error
update_data fetch = catch fetch (λ e. raise (coordinator_error e))
