-- ===== src/Lib.antt =====
-- Models of the Fronius Modbus integration, and the theorems that make it correct.
--
-- The integration polls a Fronius inverter over Modbus, shows what it reads, and writes the controls
-- of the storage and of the inverter. All paths are under custom_components/fronius_modbus.
--
-- - Common, Numbers, Exec: lists, tests, integers and floats; the arithmetic of floats as a
--   parameter; actions that keep what they wrote beside the error that they raise.
-- - Registers: fronius_modbus_api/writes.py. Which registers hold what a write would put there. The
--   library modbus_connection is the parameter Component; Registers/Simulated is one to try things on.
-- - Storage: fronius_modbus_api/storage.py. Modes holds the tables and what the registers mean,
--   Control the state of StorageControl and sync_from_device, Fields, Live, SetMode and SetRate the
--   writes; Derivation, Sync, Writes and Window the theorems.
-- - Derived: derived.py. Throttle, Grid, Load and Total, each with its theorems.
-- - Events: inverter_events.py, over Json. Parse, Leading, Tracker with its Queue.
-- - Device: fronius_modbus_api/device.py. Scan walks the SunSpec chain, Setup places the components,
--   Meters probes the meters, Poll is one poll; Addresses and Kept hold the invariant of the meters,
--   Fixed that of the components,
--   Reported and Outage what a poll reports and raises; Channels and Identity are the rest of the
--   device.
--   The library is the parameter Library.
-- - Controls: fronius_modbus_api/controls.py. The flags and the enable pulse; Switches holds the
--   setters, Pulse the theorems. Component, clocks and cancellation are the parameter Outside.
-- - Coordinator: coordinator.py. The poll cycle of the integration, over a Link to the device;
--   Values holds what a good poll builds and derives, with the definitions of Storage and Derived;
--   Laws, Retained and Recycle the theorems.
-- - MeterTopology: meter_topology.py, on what the web client read.
-- - Web: the web half. Text is what Python does with texts and floats, a parameter; Flags and Configs
--   the readers of answers. Readings: component_readings.py, its table in First and Second. Client:
--   FroniusWebClient of froniuswebclient.py over the parameter Http, which is the library requests
--   with the login; Batteries holds the writes of the battery, Reads the reads, Changes and Window the
--   theorems. Modbus: ensure_modbus_enabled and its neighbours, ipaddress and the socket a parameter;
--   Meters: the parser of the power meters; ExportLimit: export_limit.py with the writes and reads
--   that use it. Control: FroniusWebControl of web_control.py, over the parameter Site; Jobs runs the
--   client's calls and handles a rejected login, Refresh is one poll, over Events and Apply, Setters
--   and SocLimits the writes, Tickets the write lock with _last_writer_wins, as a step on events;
--   Login, Windows, Sources, Delivery and the Laws beside a module the theorems. Tokens:
--   token_store.py, with urlparse a parameter.
--
-- A float is the rank of its bit pattern in the order of the doubles, so comparing, negating, max and
-- min are exact; NaN is left out, and sums, products and rounding are parameters (Numbers). The walk
-- of a refused chain runs on MAXIMUM_MODELS rounds, as in the source; no other fuel is used. A lock is
-- a flag, which a poll between two writes sees.
--
-- What the inverter keeps is assumed where a theorem says so: the record Keeper of Web/Client/Changes
-- says that a read shows the configuration that is kept and that a write is merged in; the inverter of
-- Web/Simulated is one. In Web/Control a call runs to its end: the lock and its waiters are in Tickets
-- alone, where no caller is cancelled while it waits.
--
-- Not modelled: logging, texts of errors, the host application's entities and forms, the digest of the
-- login, the body of the delayed web refresh.
pub mod Common
pub mod Numbers
pub mod Exec
pub mod Registers
pub mod Storage
pub mod Derived
pub mod Json
pub mod Events
pub mod Device
pub mod Controls
pub mod Coordinator
pub mod MeterTopology
pub mod Web
