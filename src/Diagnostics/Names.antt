-- ===== src/Diagnostics/Names.antt =====
-- Under which keys a diagnostics download shows the disks.
use ha_truenas_ng.Base.{
  ◌≡◌, sym, ◌∙◌, ap, Bool, true, false, Option, none, some, [], Bool-cases, inl, inr,
}
use ha_truenas_ng.Base.Dict
use ha_truenas_ng.Base.Dict.{Dict}
use ha_truenas_ng.Result.{Result, ok, err, bind-ok, ok-injective}
use ha_truenas_ng.Result.Latest.{stored, latest, fold-latest}
use ha_truenas_ng.Value.{Fields}
use ha_truenas_ng.Value.Access.{truthy}
use ha_truenas_ng.Value.Key.{Key, key_eq, hash_key}
use ha_truenas_ng.Coordinator.Storage.{StorageData}
use ha_truenas_ng.Diagnostics.{
  device_name, add_by_name, disks_by_name, Snapshot, storage_dict, raw_of,
  async_get_config_entry_diagnostics,
}

-- A disk under its device name, if it has one.
abbrev pub named_entry : Bool → Result Key → Fields → Option (Key × Fields)
named_entry false key disk = none
named_entry true (err e) disk = none
named_entry true (ok key) disk = some (key, disk)

abbrev pub by_device_name : Fields → Option (Key × Fields)
by_device_name disk = named_entry (truthy (device_name disk)) (hash_key (device_name disk)) disk

add_by_name-stored :
    (d d' : Dict Key Fields) (disk : Fields)
    → add_by_name d disk ≡ ok d'
    → d' ≡ stored (by_device_name disk) d
unfolding add_by_name
add_by_name-stored d d' disk h = elim (Bool-cases (truthy (device_name disk))) [
  | inl q ↦
      let (key, p, k) = bind-ok (hash_key (device_name disk)) _ (rw q at h) in
      rw (q, p) (sym (ok-injective k))
  | inr q ↦ rw q (sym (ok-injective (rw q at h)))
]

disks_by_name-latest :
    (disks named : Dict Key Fields) (k : Key)
    → disks_by_name disks ≡ ok named
    → Dict.lookup k named ≡ latest by_device_name k (Dict.values disks) none
unfolding disks_by_name Dict.lookup
disks_by_name-latest disks named k h =
    fold-latest add_by_name by_device_name add_by_name-stored (Dict.values disks) [] named k h

module _ {Download : Type 0} (redact : Snapshot → Download) where
  -- A download that succeeds hands over for redaction the data as they are, but for the disks: under
  -- each key there stands the last disk whose device name has that key, and nothing else.
  pub async_get_config_entry_diagnostics-names :
      (runtime : Snapshot) (storage : StorageData) (out : Download) (k : Key)
      → runtime.storage ≡ some storage
      → async_get_config_entry_diagnostics redact runtime ≡ ok out
      → (shown : Dict Key Fields) × (out
          ≡ redact (record runtime { storage = some (record storage { disks = shown }) }))
        × (Dict.lookup k shown ≡ latest by_device_name k (Dict.values storage.disks) none)
  unfolding async_get_config_entry_diagnostics raw_of
  async_get_config_entry_diagnostics-names runtime storage out k p h =
      let (raw, q, r) = bind-ok (raw_of runtime) _ h in
      let (kept, a, b) = bind-ok (storage_dict runtime.storage) _ q in
      let (shown, c, d) = bind-ok (disks_by_name storage.disks) _ (rw p at a) in
      (
        shown,
        sym (ok-injective r)
            ∙ ap redact (
                sym (ok-injective b)
                ∙ ap (λ (o : Option StorageData). record runtime { storage = o })
                    (sym (ok-injective d))),
        disks_by_name-latest storage.disks shown k c,
      )
