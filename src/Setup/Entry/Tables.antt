-- ===== src/Setup/Entry/Tables.antt =====
-- What a setup that returned holds in its tables follows from what the calls answer, and from what
-- the coordinators make of the answers.
use ha_truenas_ng.Base.{◌≡◌, refl, String, some}
use ha_truenas_ng.Result.{Result, ok, err}
use ha_truenas_ng.Result.Holds.{Holds-ok, Holds-bind}
use ha_truenas_ng.Action.{Action}
use ha_truenas_ng.Action.Returns.{
  Returns, Returns-ok, Returns-err, Returns-lift, Returns-handle, Returns-any, Returns-then,
  ok-Returns,
}
use ha_truenas_ng.Value.{Value, Fields}
use ha_truenas_ng.Value.Access.{as_dict}
use ha_truenas_ng.Value.Runtime.{Runtime}
use ha_truenas_ng.Client.{Config, State}
use ha_truenas_ng.Client.Upstream.{Library}
use ha_truenas_ng.Coordinator.{update_data}
use ha_truenas_ng.Repairs.{async_sync_alert_issues}
use ha_truenas_ng.Repairs.Issues.{Registry}
use ha_truenas_ng.Services.{Registered}
use ha_truenas_ng.Setup.Entry.{
  Refreshed, RuntimeData, Host, Hass, caller, first_refresh, refresh_all, runtime_of, prepare,
  published, synced, async_setup_entry,
}
use ha_truenas_ng.Coordinator.Facts.{
  Facts, Answers, storage-Stored, datasets-Flat, system-Served, apps-Apps, vms-Vms,
}

module _ (F : Facts) where
  -- The data of a setup that returned.
  pub record HasFacts (r : Refreshed) : Type 0 where
    pub storage : F.Stored r.storage
    pub datasets : F.Flat r.datasets
    pub system : F.Served r.system
    pub apps : F.Apps r.apps
    pub vms : F.Vms r.vms

  HasTables : RuntimeData → Type 0
  HasTables r = HasFacts r.refreshed

  module _ (py : Runtime) (L : Library) (c : Config) (host : Host) where
    -- A first refresh returns what the fetch does.
    refresh-Returns :
        {A : Type 0} (P : A → Type 0) (fetch : Action (State L) A) (s : State L)
        → Returns P (fetch s)
        → Returns P (first_refresh py L c host fetch s)
    unfolding first_refresh update_data
    refresh-Returns P fetch s h =
        Returns-handle P _ _ (Returns-handle P _ _ h (λ e t. Returns-err P _ t))
          (λ e t. Returns-err P _ t)

    module _ (answers : Answers F (caller py L c host)) where
      refresh_all-HasFacts :
          (physmem : Value) (s : State L) → Returns HasFacts (refresh_all py L c host physmem s)
      unfolding refresh_all
      refresh_all-HasFacts physmem s =
          Returns-then F.Stored HasFacts _ _
            (refresh-Returns F.Stored _ s (storage-Stored F _ answers s))
            λ storage t a.
              Returns-then F.Flat HasFacts _ _
                (refresh-Returns F.Flat _ t (datasets-Flat F _ answers t))
                λ datasets u b.
                  Returns-then F.Served HasFacts _ _
                    (refresh-Returns F.Served _ u (system-Served F _ answers u))
                    λ system v d.
                      Returns-then (λ _. Unit) HasFacts _ _ (Returns-any _)
                        λ reporting w _.
                          Returns-then (λ _. Unit) HasFacts _ _ (Returns-any _)
                            λ update x _.
                              Returns-then F.Apps HasFacts _ _
                                (refresh-Returns F.Apps _ x (apps-Apps F _ answers x))
                                λ apps y e.
                                  Returns-then F.Vms HasFacts _ _
                                    (refresh-Returns F.Vms _ y (vms-Vms F _ answers y))
                                    λ vms z f. Returns-ok HasFacts _ z (record {
                                      storage = a;
                                      datasets = b;
                                      system = d;
                                      apps = e;
                                      vms = f;
                                    })

      prepare-HasTables :
          (opts : Fields) (s : State L) → Returns HasTables (prepare py L c host opts s)
      unfolding prepare runtime_of HasTables
      prepare-HasTables opts s =
          Returns-then (λ _. Unit) HasTables _ _ (Returns-any _)
            λ found t _.
              Returns-then HasFacts HasTables _ _ (refresh_all-HasFacts (found.2) t)
                λ refreshed u h. Returns-lift HasTables _ u (
                  Holds-bind HasTables (λ _. Unit) (as_dict (found.0)) _ (λ e _. tt)
                    (λ fs _. Holds-ok HasTables (λ _. Unit) _ h))

      module _ (R : Registry) (entry_id : String) where
        synced-HasTables :
            (services : Registered) (r : RuntimeData) (s : State L)
            (m : Result (Unit {0}) × R.State)
            → HasTables r
            → Returns HasTables (synced py L c host R entry_id services r s m)
        synced-HasTables services r s (ok _, issues) h = Returns-lift HasTables _ _ (
            Holds-bind HasTables (λ _. Unit) (host.forward r) _ (λ e _. tt)
              (λ _ _. Holds-ok HasTables (λ _. Unit) r h))
        synced-HasTables services r s (err e, issues) h = Returns-err HasTables e _

        published-HasTables :
            (h : Hass py L c host R entry_id) (m : Result RuntimeData × State L)
            → Returns HasTables m
            → Returns HasTables (published py L c host R entry_id h m)
        published-HasTables h (ok r, s) k =
            synced-HasTables h.services r s
              (async_sync_alert_issues R entry_id (some r.refreshed.system.alerts) h.issues)
              (ok-Returns HasTables (ok r, s) k refl)
        published-HasTables h (err e, s) k = Returns-err HasTables e _

        -- A setup that returned.
        pub async_setup_entry-HasFacts :
            (opts : Fields) (h : Hass py L c host R entry_id) {r : RuntimeData}
            → (async_setup_entry py L c host R entry_id opts h).0 ≡ ok r
            → HasFacts r.refreshed
        unfolding async_setup_entry HasTables
        async_setup_entry-HasFacts opts h p =
            ok-Returns HasTables _
              (published-HasTables h (prepare py L c host opts h.client)
                (prepare-HasTables opts h.client))
              p
