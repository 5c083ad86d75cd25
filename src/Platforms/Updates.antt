-- ===== src/Platforms/Updates.antt =====
-- The platform of update.py.
use ha_truenas_ng.Base.{Bool, String, Option, List, ◌∷◌}
use ha_truenas_ng.Result.{Result, ok, ◌>>=◌}
use ha_truenas_ng.Value.{Value}
use ha_truenas_ng.Value.Key.{Key}
use ha_truenas_ng.Value.Runtime.{Runtime}
use ha_truenas_ng.Entity.{available}
use ha_truenas_ng.Platforms.{Added, Runtimes, add_each, add_if, on_hub, on_app}

pub data Update : Type 0 where
  os_update : Update
  app_update : Key → Update

-- The `available` of each class; `up` is Home Assistant's own part.
unfoldable pub update_available : Bool → Runtimes → Update → Bool
update_available up runtime os_update = up
update_available up runtime (app_update name) = available up name runtime.apps

module _ (py : Runtime) (host_id : String) (via : Option String) where
  -- `TrueNASUpdateEntity(...)`, `TrueNASAppUpdateEntity(...)`
  unfoldable pub new_os_update : Value → Result (Added Update)
  unfolding on_hub
  new_os_update info = on_hub py host_id via info os_update "_os_update"

  unfoldable pub new_app_update : Key × Value → Result (Added Update)
  unfolding on_app
  new_app_update (name, app) = on_app py host_id via (app_update name) "_update" (name, app)

  unfoldable pub updates : Runtimes → Result (List (Added Update))
  updates runtime = do
    os ← new_os_update runtime.info
    of_apps ← add_if runtime.enable_apps (add_each new_app_update runtime.apps)
    ok (os ∷ of_apps)
