-- ===== src/Coordinator/Facts.antt =====
-- What holds of the data of each coordinator, from what holds of the answers that it gets.
use ha_truenas_ng.Base.{String, Option, none, some, List, [], Bool-cases, inl, inr}
use ha_truenas_ng.Base.Dict.{Dict}
use ha_truenas_ng.Result.{Exc, is_truenas_error}
use ha_truenas_ng.Result.Holds.{Holds}
use ha_truenas_ng.Action.{catch, ◌>>=◌}
use ha_truenas_ng.Action.Returns.{
  Returns, Returns-ok, Returns-err, Returns-lift, Returns-handle, Returns-any, Returns-then,
}
use ha_truenas_ng.Value.{Value}
use ha_truenas_ng.Value.Key.{Key}
use ha_truenas_ng.Coordinator.{Caller}
use ha_truenas_ng.Coordinator.Storage as Storage
use ha_truenas_ng.Coordinator.Storage.{StorageData, index_all}
use ha_truenas_ng.Coordinator.Datasets as Datasets
use ha_truenas_ng.Coordinator.Datasets.{flatten}
use ha_truenas_ng.Coordinator.System as System
use ha_truenas_ng.Coordinator.System.{SystemData}
use ha_truenas_ng.Coordinator.Degrading.{fetch_apps, fetch_vms, index_or_empty, answered, no_answer}

-- What holds of the answers to each method, and of the data of each coordinator.
pub record Facts : Type 1 where
  pub Answer : String → Value → Type 0
  pub Stored : StorageData → Type 0
  pub Flat : Dict Key Value → Type 0
  pub Served : SystemData → Type 0
  pub Apps : Dict Key Value → Type 0
  pub Vms : Dict Key Value → Type 0
  pub assemble_lem :
      (pools disks temps : Value)
      → Answer "pool.query" pools
      → Answer "disk.query" disks
      → Holds Stored (λ _. Unit) (Storage.assemble pools disks temps)
  pub flatten_lem :
      (raw : Value) → Answer "pool.dataset.query" raw → Holds Flat (λ _. Unit) (flatten raw)
  pub system_lem :
      (info alerts services : Value)
      → Answer "system.info" info
      → Answer "service.query" services
      → Holds Served (λ _. Unit) (System.assemble info alerts services)
  pub apps_lem :
      (raw : Value) → Answer "app.query" raw → Holds Apps (λ _. Unit) (index_all "name" raw)
  pub vms_lem : (raw : Value) → Answer "vm.query" raw → Holds Vms (λ _. Unit) (index_all "id" raw)
  -- a system may lack apps and virtual machines
  pub no_apps : Apps []
  pub no_vms : Vms []

module _ (F : Facts) where
  abbrev pub Answers : {S : Type 0} → Caller S → Type 0
  Answers {S} call =
      (method : String) (params : List Value) (s : S)
      → Returns (F.Answer method) (call method params s)

  Found : String → Option Value → Type 0
  Found method none = Unit
  Found method (some raw) = F.Answer method raw

  module _ {S : Type 0} (call : Caller S) (answers : Answers call) where
    pub storage-Stored : (s : S) → Returns F.Stored (Storage.fetch call s)
    unfolding Storage.fetch
    storage-Stored s =
        Returns-then (F.Answer "pool.query") F.Stored _ _ (answers "pool.query" [] s) λ pools t p.
          Returns-then (F.Answer "disk.query") F.Stored _ _ (answers "disk.query" [] t) λ disks u d.
            Returns-then (λ _. Unit) F.Stored _ _ (Returns-any _)
              λ temps v _. Returns-lift F.Stored _ v (F.assemble_lem pools disks temps p d)

    pub datasets-Flat : (s : S) → Returns F.Flat (Datasets.fetch call s)
    unfolding Datasets.fetch
    datasets-Flat s =
        Returns-then (F.Answer "pool.dataset.query") F.Flat _ _ (answers "pool.dataset.query" _ s)
          λ raw t a. Returns-lift F.Flat _ t (F.flatten_lem raw a)

    pub system-Served : (s : S) → Returns F.Served (System.fetch call s)
    unfolding System.fetch
    system-Served s =
        Returns-then (F.Answer "system.info") F.Served _ _ (answers "system.info" [] s) λ info t i.
          Returns-then (λ _. Unit) F.Served _ _ (Returns-any _)
            λ alerts u _.
              Returns-then (F.Answer "service.query") F.Served _ _ (answers "service.query" [] u)
                λ raw v a. Returns-lift F.Served _ v (F.system_lem info alerts raw i a)

    no_answer-Found :
        (method : String) (e : Exc) (s : S) → Returns (Found method) (no_answer call e s)
    unfolding Found
    no_answer-Found method e s = elim (Bool-cases (is_truenas_error e)) [
      | inl q ↦ rw q (Returns-ok (Found method) none s tt)
      | inr q ↦ rw q (Returns-err (Found method) e s)
    ]

    found :
        (method : String) (s : S)
        → Returns (Found method) (catch (call method [] >>= answered call) (no_answer call) s)
    unfolding Found
    found method s =
        Returns-handle (Found method) _ _
          (Returns-then (F.Answer method) (Found method) _ _ (answers method [] s)
            λ raw t a. Returns-ok (Found method) (some raw) t a)
          (λ e t. no_answer-Found method e t)

    indexed :
        (P : Dict Key Value → Type 0) (method field_name : String)
        → P []
        → ((raw : Value) → F.Answer method raw → Holds P (λ _. Unit) (index_all field_name raw))
        → (raw : Option Value) (t : S) → Found method raw
        → Returns P (index_or_empty call field_name raw t)
    unfolding Found
    indexed P method field_name nothing lem none t a = Returns-ok P [] t nothing
    indexed P method field_name nothing lem (some raw) t a = Returns-lift P _ t (lem raw a)

    pub apps-Apps : (s : S) → Returns F.Apps (fetch_apps call s)
    unfolding fetch_apps
    apps-Apps s =
        Returns-then (Found "app.query") F.Apps _ _ (found "app.query" s)
          λ raw t a. indexed F.Apps "app.query" "name" F.no_apps F.apps_lem raw t a

    pub vms-Vms : (s : S) → Returns F.Vms (fetch_vms call s)
    unfolding fetch_vms
    vms-Vms s =
        Returns-then (Found "vm.query") F.Vms _ _ (found "vm.query" s)
          λ raw t a. indexed F.Vms "vm.query" "id" F.no_vms F.vms_lem raw t a
