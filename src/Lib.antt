-- ===== src/Lib.antt =====
-- The TrueNAS (Native) integration for Home Assistant, custom_components/truenas_ng.
--
-- The program polls a TrueNAS system over a vendored WebSocket client and shows it in Home
-- Assistant. A wrapper (client.py) keeps one connection, maps the library's exceptions to its own
-- and sends a request again over a new connection. Seven coordinators (coordinator.py) query the
-- system through it and index what it answers; the platforms read their data, and switches,
-- buttons and updates act through the wrapper. Setup (__init__.py) and the config flow
-- (config_flow.py) identify the system with a client of their own; repairs.py turns alerts into
-- issues of Home Assistant's registry, which its fix flow confirms; services.py dismisses and
-- restores alerts.
--
-- Files, and the code that they are about:
--   Value and its children: the values that the API gives, with Python's truth tests, `or`, `.get`,
--     iteration and hashing; Value/Runtime has `to_int` of client.py.
--   Result, Action and their children: exceptions, code that changes a state and may raise, where
--     an exception keeps the state that was reached before it, and the rules for both.
--     Result/Latest is about the loops that store entries in a dict.
--   Client: class TrueNASClient of client.py; Client/Upstream is the vendored client as a
--     parameter. Client/Connections is about the connections that are open. Client/Threads has
--     `call` and `close` as steps that take turns, since `close` of client.py waits for no lock.
--     Client/Answers is about what `call` returns.
--   Coordinator and its children: the `_fetch` of each coordinator of coordinator.py, in Datasets,
--     Topology (`_walk_topology_errors`), Storage, System, Reporting, Versions (UpdateCoordinator)
--     and Degrading (apps and VMs); Polling has their constructors, with the intervals; Indexed
--     and Facts are about the tables of all of them, Walks is about the recursion.
--   Entity: entity.py. Sensor, Sensor/Tables and Platforms/Sensors: sensor.py.
--   BinarySensor: the states of binary_sensor.py. Control: the actions of switch.py, button.py and
--     update.py.
--   Platforms and its children: the `async_setup_entry` of the five platforms, with the
--     constructors of their entities; Platforms/Ids is about the unique ids, Platforms/Available
--     about availability, Platforms/Total about what the constructors read. Platforms/Forwarded
--     has what __init__.py hands to them, Platforms/Answers what the API documents of its answers.
--   Setup: __init__.py with const.py, up to the identification of the system; Setup/Entry:
--     `async_setup_entry` of __init__.py to its end, with its children on what it leaves behind;
--     what `async_forward_entry_setups` raises is a parameter.
--   ConfigFlow: the probes and steps of config_flow.py, and in ConfigFlow/Closing the connections that
--     a validation leaves; ConfigFlow/Forms: the schemas of their forms
--     and the data that they save; ConfigFlow/Options: the options form. What voluptuous makes of
--     the schemas is a parameter.
--   Repairs: repairs.py, with Repairs/RoundTrip on an alert's way from the sync to the fix flow, and
--     Repairs/Listener on the issues over time.
--   Services: services.py; Services/Lifecycle: when __init__.py registers and removes them, with the
--     wait for the platforms in between.
--   Diagnostics: diagnostics.py. Examples: concrete inputs.
--
-- Bounds: the two recursive walks (datasets, topology) take fuel, the depth of the value that is
-- walked and one call more, which is what their recursion needs; running out of it is Python's
-- RecursionError. The interpreter's own limit, and cyclic values, which JSON has not, are left out.
-- Integers are Python's; a float is the bit pattern of an IEEE double.
--
-- Not modelled: truenas_api_client, a vendored library, whose operations and documented exceptions
-- are a parameter; Home Assistant's registries, config entries, refreshes and forms, which are
-- parameters where a result depends on them, as are voluptuous and the redaction of diagnostics;
-- logging and translations; times, dates and sets, which the vendored decoder can give but the
-- API's fields here do not. A dict's key is kept as what Python hashes and compares, so the text of
-- a key is a parameter of its class.
pub mod Base
pub mod Result
pub mod Value
pub mod Action
pub mod Client
pub mod Coordinator
pub mod Entity
pub mod BinarySensor
pub mod Control
pub mod Sensor
pub mod Repairs
pub mod Services
pub mod Diagnostics
pub mod Platforms
pub mod Setup
pub mod ConfigFlow
pub mod Examples
