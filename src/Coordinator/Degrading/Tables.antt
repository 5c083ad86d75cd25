-- ===== src/Coordinator/Degrading/Tables.antt =====
-- coordinator.py, `_fetch` of AppsCoordinator and VMsCoordinator over the client: what the tables
-- hold, by how the query went.
use ha_truenas_ng.Base.{◌≡◌, refl, String, List, [], none, false, true, arith}
use ha_truenas_ng.Base.Dict
use ha_truenas_ng.Base.Dict.{Dict}
use ha_truenas_ng.Result.{Result, ok, err, is_truenas_error, bind-ok}
use ha_truenas_ng.Result.Latest.{latest}
use ha_truenas_ng.Action.{handle, continue}
use ha_truenas_ng.Action.Post.{Post, err-Post}
use ha_truenas_ng.Value.{Value}
use ha_truenas_ng.Value.Access.{iterate}
use ha_truenas_ng.Value.Key.{Key, key_eq}
use ha_truenas_ng.Client
use ha_truenas_ng.Client.{Config, State}
use ha_truenas_ng.Client.Upstream.{Library}
use ha_truenas_ng.Client.Rules.{IsDocumented}
use ha_truenas_ng.Client.Errors.{Connected, Wrapped, call-Post}
use ha_truenas_ng.Coordinator.{Caller}
use ha_truenas_ng.Coordinator.Storage.{index_all}
use ha_truenas_ng.Coordinator.Storage.Index.{by_field, index_all-latest}
use ha_truenas_ng.Coordinator.Degrading.{no_answer, answered, index_or_empty, fetch_apps, fetch_vms}

module _ (L : Library) (D : IsDocumented L) (c : Config) (k : Key) where
  abbrev pub caller : Caller (State L)
  caller method params = Client.call L c method params false none

  -- What is under `k` in a table that was read.
  abbrev pub Reads : String → Value → Result (Dict Key Value) → Type 0
  Reads field_name raw (ok table) =
      (vs : List Value) × (iterate raw ≡ ok vs)
      × (Dict.lookup k table ≡ latest (by_field field_name) k vs none)
  Reads field_name raw (err e) = index_all field_name raw ≡ err e

  -- What a fetch ends with, by how its query went.
  pub Degrades : String → Result Value × State L → Result (Dict Key Value) × State L → Type 0
  Degrades field_name (ok raw, t) (r, u) = Reads field_name raw r × (u ≡ t)
  Degrades field_name (err e, t) m = m ≡ (ok [], t)

  index_all-Reads :
      (field_name : String) (raw : Value) (r : Result (Dict Key Value))
      → index_all field_name raw ≡ r
      → Reads field_name raw r
  unfolding index_all
  index_all-Reads field_name raw (err e) p = p
  index_all-Reads field_name raw (ok table) p =
      let (vs, q, _) = bind-ok (iterate raw) _ p in
      (vs, q, index_all-latest field_name raw vs table k q p)

  fetched :
      (field_name : String) (m : Result Value × State L)
      → Post (Connected L D c) (Wrapped L D c) m
      → Degrades field_name m (
          continue
            (handle (continue m (answered caller)) (no_answer caller))
            (index_or_empty caller field_name))
  unfolding Degrades handle continue
  fetched field_name (ok raw, t) h = (index_all-Reads field_name raw _ refl, refl)
  fetched field_name (err e, t) h =
      let w = err-Post (Connected L D c) (Wrapped L D c) (err e, t) h refl in
      let q : is_truenas_error e ≡ true = ground arith in rw q refl

  -- Over a library that keeps to its documentation, the apps and the VMs, each by its own query: if
  -- the query fails, for whatever error, a refused key too, the table is empty and nothing is
  -- raised; if it was answered, the table has under each key the last listed object whose name, or
  -- id, it is, and nothing else, and what is raised is what cannot be read in the answer. Nothing
  -- is asked of the system after the query.
  pub fetch-Degrades :
      (s : State L)
      → Degrades "name" (caller "app.query" [] s) (fetch_apps caller s)
        × Degrades "id" (caller "vm.query" [] s) (fetch_vms caller s)
  unfolding fetch_apps fetch_vms
  fetch-Degrades s = (
    fetched "name" _ (call-Post L D c "app.query" [] false none s),
    fetched "id" _ (call-Post L D c "vm.query" [] false none s),
  )
