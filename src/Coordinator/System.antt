-- ===== src/Coordinator/System.antt =====
-- coordinator.py, SystemCoordinator: the system's data, its alerts, and its services by name.
use ha_truenas_ng.Base.{[]}
use ha_truenas_ng.Base.Dict.{Dict}
use ha_truenas_ng.Result.{Result, ok, ◌>>=◌}
use ha_truenas_ng.Action.{Action, decode, ◌>>=◌ as ◌▷◌}
use ha_truenas_ng.Value.{Value}
use ha_truenas_ng.Value.Key.{Key}
use ha_truenas_ng.Coordinator.{Caller}
use ha_truenas_ng.Coordinator.Storage.{index_all}

pub record SystemData : Type 0 where
  pub info : Value
  pub alerts : Value
  pub services : Dict Key Value

unfoldable pub assemble : Value → Value → Value → Result SystemData
assemble info alerts raw_services = do
  services ← index_all "service" raw_services
  ok (record { info = info; alerts = alerts; services = services })

module _ {S : Type 0} (call : Caller S) where
  unfoldable pub fetch : Action S SystemData
  fetch = call "system.info" [] ▷ λ info.
      call "alert.list" [] ▷ λ alerts. decode (call "service.query" []) (assemble info alerts)
