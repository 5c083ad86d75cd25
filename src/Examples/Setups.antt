-- ===== src/Examples/Setups.antt =====
-- Setting an entry up on a server with one pool's worth of answers, and on one without its pools.
use ha_truenas_ng.Base.{
  arith, ◌≡◌, refl, ℕ, true, false, none, some, [], String, ◌==◌, string_eq, if◌then◌else◌,
}
use ha_truenas_ng.Base.Int.{pos}
use ha_truenas_ng.Result.{Result, ok, err, client_exception, connection_error, entry_not_ready}
use ha_truenas_ng.Action.{handle, continue}
use ha_truenas_ng.Value.{Value, str, int, arr, nil, cons, dict, field, end}
use ha_truenas_ng.Value.Access.{subscript_of, find}
use ha_truenas_ng.Value.Key.{text}
use ha_truenas_ng.Client.{State, call, connect, close, raw_call, ensure_connected, external, retry}
use ha_truenas_ng.Client.Upstream.{Library}
use ha_truenas_ng.Client.Rules.{IsDocumented, Raises, is_transport}
use ha_truenas_ng.Services.{Registered}
use ha_truenas_ng.Services.Lifecycle.{
  settle, is_busy, Life, Reach, here, next, happen, added, registered, loaded, unloaded, fresh,
  mark, find_entry, is_forwarding, is_orderly, IsServed, Reach-IsServed, unloaded-loaded-unserved,
}
use ha_truenas_ng.Services.{any_loaded}
use ha_truenas_ng.Setup.{setup_client, identify, connect_and_identify}
use ha_truenas_ng.Setup.Entry.{Host, Hass, async_setup_entry}
use ha_truenas_ng.Setup.Entry.Outcomes.{Outcome, async_setup_entry-Outcome}
use ha_truenas_ng.Setup.Entry.Leaks.{async_setup_entry-leaves-open}
use ha_truenas_ng.Examples.{config, python}
use ha_truenas_ng.Examples.Entries.{alert, kept, lawful}

abbrev pub info : Value
info = dict (field "physmem" (int (pos 16)) (field "hostname" (str "nas") end))

-- A server that answers each method; the pools only if it has them.
abbrev pub reply : Result Value → String → Result Value
reply pools method =
    if method == "system.info"
    then ok info
    else if method == "system.host_id"
    then ok (str "h1")
    else if method == "pool.query"
    then pools
    else if method == "alert.list"
    then ok (arr (cons (dict alert) nil))
    else if method == "update.status"
    then ok (dict end)
    else ok (arr nil)

abbrev server_with : Result Value → Library
server_with pools = record {
  World = ℕ;
  Session = ℕ;
  construct = λ uri verify w. (ok 7, w);
  login = λ session user key w. (ok tt, w);
  call = λ session method params job timeout w. (reply pools method, w);
  ping = λ session w. (ok (str "pong"), w);
  close = λ session w. (ok tt, w);
  enotauthenticated = pos 207;
}

abbrev nas : Library
nas = server_with (ok (arr nil))

reply_lem : (method : String) → Raises is_transport (reply (ok (arr nil)) method)
reply_lem method = ground arith

documented : IsDocumented nas
documented = record {
  construct_lem = λ uri verify w. tt;
  login_lem = λ session user key w. tt;
  call_lem = λ session method params job timeout w. reply_lem method;
  ping_lem = λ session w. tt;
}

abbrev pub home : Host
home = record {
  refresh_error = λ e. entry_not_ready "refresh";
  device_id = λ d. "hub";
  forward = λ r. ok tt;
}

abbrev pub unregistered : Registered
unregistered = record { dismiss_alert = false; restore_alert = false }

abbrev new_hass : (L : Library) → State L → Hass python L config home kept "e1"
new_hass L s = record { client = s; issues = ([], tt); services = unregistered }

abbrev unconnected : (pools : Result Value) → State (server_with pools)
unconnected pools = record { client = none; world = 0 }

async_setup_entry-Outcome_example :
    Outcome python nas documented config home
      (λ e. refl)
      kept
      lawful
      "e1"
      (text "u1")
      (new_hass nas (unconnected (ok (arr nil))))
      (async_setup_entry python nas config home kept "e1" end
        (new_hass nas (unconnected (ok (arr nil)))))
async_setup_entry-Outcome_example =
    async_setup_entry-Outcome python nas documented config home (λ e. refl) kept lawful "e1"
      (text "u1") end (new_hass nas (unconnected (ok (arr nil)))) refl

abbrev no_pools : Library
no_pools = server_with (err (client_exception none "boom"))

abbrev connected : State no_pools
connected = record { client = some 7; world = 0 }

identified :
    setup_client no_pools config (unconnected (err (client_exception none "boom")))
    ≡ (ok (info, str "h1", int (pos 16)), connected)
unfolding setup_client identify connect_and_identify connect call ensure_connected raw_call external
    retry handle continue string_eq subscript_of find
identified = refl

lost_pools :
    call no_pools config "pool.query" [] false none connected
    ≡ (err (connection_error "boom"), connected)
unfolding connect close call ensure_connected raw_call external retry handle continue string_eq
lost_pools = refl

async_setup_entry-leaves-open_example :
    ((async_setup_entry python no_pools config home kept "e1" end
        (new_hass no_pools (unconnected (err (client_exception none "boom"))))).0
      ≡ err (entry_not_ready "refresh"))
    × ((async_setup_entry python no_pools config home kept "e1" end
          (new_hass no_pools (unconnected (err (client_exception none "boom"))))).1.client.client
        ≡ some 7)
async_setup_entry-leaves-open_example =
    async_setup_entry-leaves-open python no_pools config home kept "e1" end
      (new_hass no_pools (unconnected (err (client_exception none "boom")))) info (str "h1")
      (int (pos 16)) connected connected "boom" 7 identified lost_pools refl

-- An entry that was added and set up, and another one that is unloaded.
abbrev one_loaded : Life
one_loaded = happen (loaded "e1") (happen (registered "e1") (happen (added "e1") fresh))

abbrev both_loaded : Life
both_loaded = happen (loaded "e2") (happen (registered "e2") (happen (added "e2") one_loaded))

abbrev served : Life
served = happen (unloaded "e2") both_loaded

one_loaded_lem : Reach fresh one_loaded
unfolding is_orderly happen string_eq
one_loaded_lem = next (next (next here (added "e1") refl) (registered "e1") refl) (loaded "e1") refl

both_loaded_lem : Reach fresh both_loaded
unfolding is_orderly happen string_eq
both_loaded_lem =
    next (next (next one_loaded_lem (added "e2") refl) (registered "e2") refl) (loaded "e2") refl

Reach-IsServed_example :
    IsServed served
    × ((happen (unloaded "e1") served).services.dismiss_alert
        ≡ any_loaded (mark "e1" false served.entries))
unfolding is_orderly is_busy happen settle string_eq
Reach-IsServed_example = Reach-IsServed served "e1" (next both_loaded_lem (unloaded "e2") refl)

-- The second entry awaits its platforms.
abbrev overlapping : Life
overlapping = happen (registered "e2") (happen (added "e2") one_loaded)

gone_lem : any_loaded (mark "e1" false overlapping.entries) ≡ false
unfolding happen any_loaded mark string_eq
gone_lem = refl

awaits_lem : is_forwarding "e2" overlapping.forwarding ≡ true
unfolding happen is_forwarding string_eq
awaits_lem = refl

known_lem :
    find_entry "e2" overlapping.entries
    ≡ some (record { entry_id = "e2"; domain = "truenas_ng"; is_loaded = false })
unfolding happen string_eq
known_lem = refl

unloaded-loaded-unserved_example :
    (any_loaded (happen (loaded "e2") (happen (unloaded "e1") overlapping)).entries ≡ true)
    × ((happen (loaded "e2") (happen (unloaded "e1") overlapping)).services.dismiss_alert ≡ false)
    × ((happen (loaded "e2") (happen (unloaded "e1") overlapping)).services.restore_alert ≡ false)
unloaded-loaded-unserved_example =
    unloaded-loaded-unserved overlapping "e1" "e2"
      (record { entry_id = "e2"; domain = "truenas_ng"; is_loaded = false }) gone_lem awaits_lem
      known_lem
