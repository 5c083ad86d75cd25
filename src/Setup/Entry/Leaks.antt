-- ===== src/Setup/Entry/Leaks.antt =====
-- A setup that fails once the system is identified.
use ha_truenas_ng.Base.{◌≡◌, refl, some, String, []}
use ha_truenas_ng.Result.{ok, err, connection_error, update_failed}
use ha_truenas_ng.Action.{handle, continue}
use ha_truenas_ng.Value.{Value, Fields}
use ha_truenas_ng.Value.Runtime.{Runtime}
use ha_truenas_ng.Client.{Config, State}
use ha_truenas_ng.Client.Upstream.{Library}
use ha_truenas_ng.Coordinator.{update_data}
use ha_truenas_ng.Coordinator.Storage as Storage
use ha_truenas_ng.Repairs.Issues.{Registry}
use ha_truenas_ng.Setup.{setup_client}
use ha_truenas_ng.Setup.Entry.{
  Host, first_refresh, refresh_all, prepare, Hass, async_setup_entry, caller,
}

module _ (py : Runtime) (L : Library) (c : Config) (host : Host) (R : Registry)
    (entry_id : String) where
  -- If the system was identified over a connection, and the query of the pools then fails, the setup
  -- raises what Home Assistant makes of the failed refresh, and the connection that the query left
  -- is not closed.
  pub async_setup_entry-leaves-open :
      (opts : Fields) (h : Hass py L c host R entry_id) (info host_id physmem : Value)
      (t u : State L) (m : String) (session : L.Session)
      → setup_client L c h.client ≡ (ok (info, host_id, physmem), t)
      → caller py L c host "pool.query" [] t ≡ (err (connection_error m), u)
      → u.client ≡ some session
      → ((async_setup_entry py L c host R entry_id opts h).0
          ≡ err (host.refresh_error (update_failed m)))
        × ((async_setup_entry py L c host R entry_id opts h).1.client.client ≡ some session)
  unfolding async_setup_entry prepare refresh_all first_refresh update_data Storage.fetch handle
      continue
  async_setup_entry-leaves-open opts h info host_id physmem t u m session p q r =
      rw (p, q) (refl, r)
