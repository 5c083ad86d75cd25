-- ===== src/Services/Lifecycle.antt =====
-- The services over the life of the integration's entries. Home Assistant moves an entry out of its
-- loaded state before it calls `async_unload_entry`, and into it once `async_setup_entry` returned.
use ha_truenas_ng.Base.{
  ◌≡◌, refl, String, Bool, true, false, Option, none, some, List, [], ◌∷◌, ◌==◌, string_eq, arith,
  inl, inr, Bool-cases, ◌⊎◌, ◌||◌, not, if◌then◌else◌,
}
use ha_truenas_ng.Services.{
  Entry, ConfigEntries, Registered, async_register_services, async_unregister_services, any_loaded,
}

-- The entries of the integration, those whose platforms are being set up, and the services. While an
-- entry awaits its platforms its services are registered, and it is not loaded yet.
pub record Life : Type 0 where
  pub entries : List Entry
  pub forwarding : List String
  pub services : Registered

-- The entry with an identifier is moved into the loaded state, or out of it.
unfoldable pub mark : String → Bool → List Entry → List Entry
mark id loaded [] = []
mark id loaded (e ∷ es) =
    (if e.entry_id == id then record e { is_loaded = loaded } else e) ∷ mark id loaded es

-- The entry with an identifier is removed. Home Assistant unloads it first.
pub remove : String → List Entry → List Entry
remove id [] = []
remove id (e ∷ es) = if e.entry_id == id then es else e ∷ remove id es

abbrev pub find_entry : String → List Entry → Option Entry
find_entry id [] = none
find_entry id (e ∷ es) = if e.entry_id == id then some e else find_entry id es

abbrev pub entries_of : List Entry → ConfigEntries
entries_of es = record { async_entries = λ _. es; async_get_entry = λ id. find_entry id es }

unfoldable pub is_forwarding : String → List String → Bool
is_forwarding id [] = false
is_forwarding id (x ∷ xs) = x == id || is_forwarding id xs

unfoldable pub settle : String → List String → List String
settle id [] = []
settle id (x ∷ xs) = let rest = settle id xs in if x == id then rest else x ∷ rest

unfoldable pub is_busy : List String → Bool
is_busy [] = false
is_busy (x ∷ xs) = true

-- What can happen to an entry.
pub data Event : Type 0 where
  -- a new entry, not loaded yet
  added : String → Event
  -- `async_setup_entry` registered the services and awaits the platforms
  registered : String → Event
  -- `async_setup_entry` returned, or raised before or while it awaited the platforms
  loaded failed : String → Event
  -- `async_unload_entry` closed the client, or left the entry as the platforms could not be unloaded
  unloaded unload_failed : String → Event
  removed : String → Event

unfoldable pub happen : Event → Life → Life
unfolding mark remove is_forwarding settle
happen (added id) s = record s {
  entries = record { entry_id = id; domain = "truenas_ng"; is_loaded = false } ∷ s.entries;
}
happen (registered id) s = record s {
  forwarding = id ∷ s.forwarding;
  services = async_register_services s.services;
}
happen (loaded id) s =
    if is_forwarding id s.forwarding
    then record s { entries = mark id true s.entries; forwarding = settle id s.forwarding }
    else s
happen (failed id) s = record s {
  entries = mark id false s.entries;
  forwarding = settle id s.forwarding;
}
happen (unloaded id) s =
    let left = mark id false s.entries in
    record s { entries = left; services = async_unregister_services (entries_of left) s.services }
happen (unload_failed id) s = record s { entries = mark id false s.entries }
happen (removed id) s = record s { entries = remove id (mark id false s.entries) }

-- An event that may come while entries are being set up: all but an unload.
unfoldable pub is_orderly : Event → Life → Bool
unfolding is_busy
is_orderly (unloaded id) s = not (is_busy s.forwarding)
is_orderly _ s = true

-- The histories in which no entry is unloaded while another awaits its platforms.
pub data Reach (s : Life) : Life → Type 0 where
  here : Reach s s
  next : {t : Life} → Reach s t → (e : Event) → is_orderly e t ≡ true → Reach s (happen e t)

-- An entry is loaded, or is about to be.
abbrev pub in_use : Life → Bool
in_use s = any_loaded s.entries || is_busy s.forwarding

-- While an entry is loaded or about to be both services are there, and otherwise there are both or
-- neither.
abbrev pub IsServed : Life → Type 0
IsServed s =
    ((in_use s ≡ false) ⊎ (s.services.dismiss_alert ≡ true))
    × (s.services.restore_alert ≡ s.services.dismiss_alert)

any_loaded-mark :
    (id : String) (es : List Entry) → any_loaded (mark id false es) ≡ true → any_loaded es ≡ true
unfolding any_loaded mark
any_loaded-mark id [] h = h
any_loaded-mark id (e ∷ es) h = ground (arith, any_loaded-mark id es)

any_loaded-remove :
    (id : String) (es : List Entry) → any_loaded (remove id es) ≡ true → any_loaded es ≡ true
unfolding any_loaded remove
any_loaded-remove id [] h = h
any_loaded-remove id (e ∷ es) h = ground (arith, any_loaded-remove id es)

is_busy-settle :
    (id : String) (xs : List String) → is_busy (settle id xs) ≡ true → is_busy xs ≡ true
unfolding is_busy settle
is_busy-settle id [] h = h
is_busy-settle id (x ∷ xs) h = refl

is_forwarding-is_busy :
    (id : String) (xs : List String) → is_forwarding id xs ≡ true → is_busy xs ≡ true
unfolding is_busy is_forwarding
is_forwarding-is_busy id [] h = h
is_forwarding-is_busy id (x ∷ xs) h = refl

-- What is still in use was in use before.
less-IsServed :
    (s t : Life)
    → t.services ≡ s.services
    → (in_use t ≡ true → in_use s ≡ true)
    → IsServed s
    → IsServed t
less-IsServed s t p f (h, k) = elim (Bool-cases (in_use t)) [
  | inl q ↦ (ground (arith, f q), cc)
  | inr q ↦ (inl q, cc)
]

happen-IsServed :
    (e : Event) (s : Life) → is_orderly e s ≡ true → IsServed s → IsServed (happen e s)
unfolding happen any_loaded async_register_services async_unregister_services is_busy is_orderly
happen-IsServed (added id) s o (h, k) = (h, k)
happen-IsServed (registered id) s o (h, k) = ground arith
happen-IsServed (loaded id) s o (h, k) = elim (Bool-cases (is_forwarding id s.forwarding)) [
  | inl q ↦ ground (arith, is_forwarding-is_busy id s.forwarding q)
  | inr q ↦ rw q (h, k)
]
happen-IsServed (failed id) s o i =
    less-IsServed s (happen (failed id) s) refl
      (λ u. ground (arith, any_loaded-mark id s.entries, is_busy-settle id s.forwarding)) i
happen-IsServed (unloaded id) s o (h, k) =
    ground (arith, any_loaded-mark id s.entries, Bool-cases (any_loaded (mark id false s.entries)))
happen-IsServed (unload_failed id) s o i =
    less-IsServed s (happen (unload_failed id) s) refl
      (λ u. ground (arith, any_loaded-mark id s.entries)) i
happen-IsServed (removed id) s o i =
    less-IsServed s (happen (removed id) s) refl
      (λ u.
        ground
          (arith, any_loaded-mark id s.entries, any_loaded-remove id (mark id false s.entries)))
      i

-- Before any entry is set up there are no services.
abbrev pub fresh : Life
fresh = record {
  entries = [];
  forwarding = [];
  services = record { dismiss_alert = false; restore_alert = false };
}

Reach-Served : (s : Life) → Reach fresh s → IsServed s
unfolding any_loaded is_busy
Reach-Served s here = (inl refl, refl)
Reach-Served s (next {t} r e o) = happen-IsServed e t o (Reach-Served t r)

unloaded-left :
    (id : String) (s : Life)
    → IsServed s
    → (happen (unloaded id) s).services.dismiss_alert ≡ any_loaded (mark id false s.entries)
unfolding happen async_unregister_services
unloaded-left id s (h, k) =
    ground (arith, any_loaded-mark id s.entries, Bool-cases (any_loaded (mark id false s.entries)))

-- Whatever is set up, fails, is unloaded and is removed, in whatever order, but that no entry is
-- unloaded while another awaits its platforms: while an entry is loaded or awaits its platforms both
-- services are registered, there is never one without the other, and an unload leaves them exactly
-- if another entry is still loaded.
pub Reach-IsServed :
    (s : Life) (id : String)
    → Reach fresh s
    → IsServed s
      × ((happen (unloaded id) s).services.dismiss_alert ≡ any_loaded (mark id false s.entries))
Reach-IsServed s id r = (Reach-Served s r, unloaded-left id s (Reach-Served s r))

any_loaded-mark_in :
    (id : String) (es : List Entry) (e : Entry)
    → find_entry id es ≡ some e
    → any_loaded (mark id true es) ≡ true
unfolding any_loaded mark
any_loaded-mark_in id [] e h = cc
any_loaded-mark_in id (x ∷ es) e h = ground (arith, any_loaded-mark_in id es e)

find_entry-mark :
    (id other : String) (es : List Entry) (e : Entry)
    → find_entry id es ≡ some e
    → (f : Entry) × (find_entry id (mark other false es) ≡ some f)
unfolding mark
find_entry-mark id other [] e h = cc
find_entry-mark id other (x ∷ es) e h =
    let rest = find_entry-mark id other es e in
    elim (Bool-cases (x.entry_id == id)) [
      | inl p ↦ elim (Bool-cases (x.entry_id == other)) [
        | inl q ↦ rw (q, p) (_, refl)
        | inr q ↦ rw (q, p) (_, refl)
      ]
      | inr p ↦ elim (Bool-cases (x.entry_id == other)) [
        | inl q ↦ rw (q, p) (rest (rw p at h))
        | inr q ↦ rw (q, p) (rest (rw p at h))
      ]
    ]

-- An entry that awaits its platforms while the only loaded entry is unloaded gets loaded without the
-- two services.
pub unloaded-loaded-unserved :
    (s : Life) (gone id : String) (e : Entry)
    → any_loaded (mark gone false s.entries) ≡ false
    → is_forwarding id s.forwarding ≡ true
    → find_entry id s.entries ≡ some e
    → let after = happen (loaded id) (happen (unloaded gone) s) in
      (any_loaded after.entries ≡ true)
      × (after.services.dismiss_alert ≡ false)
      × (after.services.restore_alert ≡ false)
unfolding happen async_unregister_services
unloaded-loaded-unserved s gone id e h k p =
    let (f, q) = find_entry-mark id gone s.entries e p in
    let l = any_loaded-mark_in id (mark gone false s.entries) f q in ground arith
