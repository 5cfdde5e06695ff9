-- ===== src/Lib.antt =====
-- A verification library for the bridge of thatsmatter, which offers Home Assistant entities to Matter
-- controllers. The bridge keeps a catalog of exports on disk, serves a control plane over HTTP through
-- which Home Assistant edits the catalog, pushes states and fetches commands, and runs a Matter node
-- whose endpoints mirror the catalog. What is modelled, by file of the repository:
--
-- bridge/src/catalog/model.rs is Catalog/Model. bridge/src/catalog/store.rs is Catalog/Store (the store,
-- its checks, `alloc_endpoint`), Catalog/Alloc (the search of `alloc_endpoint`), Catalog/Persist
-- (`persist`), Catalog/Load (`load_or_new`) and Catalog/Methods (`create`, `patch`, `delete`, `replace`,
-- `set_bridge_name`). A method is a function on the store and the files of the data directory that
-- returns a result beside the new state, also on an error, since the code does not undo what it wrote.
--
-- bridge/src/matter/export_plane.rs is Matter/Slot (one bridged endpoint), Matter/Rebuild (a slot after
-- a change of the catalog), Matter/NodeLabel (`clamp_utf8`), Matter/Plane (the table of slots and
-- `set_exports`), Matter/Apply (`apply_state`, the controllers' writes and the command queue),
-- Matter/Reports (`drain_reports`, `bump_dataver`), Matter/Dispatch (`read`, `write`, `invoke` and the
-- cluster handlers), Matter/Dispatch/Metadata (the declared node, with bridge/src/matter/device_types.rs),
-- Matter/Window (the pairing window) and Matter/Run (one pass of `run`). An atomic or a locked value is
-- its value, and a method is one step. Where threads meet, their steps interleave: Matter/Generation is
-- the hand-over of configuration generations, Matter/Mailbox that of window requests.
-- bridge/src/matter/on_off_map.rs is Matter/OnOffMap, and bridge/src/matter/clusters is
-- Matter/WindowCovering.
--
-- bridge/src/ipc/handlers.rs, bridge/src/ipc/types.rs, bridge/src/state.rs and the trait of
-- bridge/src/matter/backend.rs are Ipc: a handler is a step on the catalog and the state of a backend,
-- which is an interface. bridge/src/ipc/server.rs is Ipc/Router, and Ipc/Race has the steps of concurrent
-- requests. bridge/src/matter/dev.rs is Dev, an instance of that interface.
-- bridge/src/matter/rs_matter_backend.rs is RsMatter (the checks before readiness), RsMatter/Threads (the
-- start as steps of its caller and of the stack thread, by the flags that they share), RsMatter/Start (the
-- start as one function, for each pace at which that thread goes on) and RsMatter/Backend (the other
-- instance of the interface, over Matter/Plane).
-- bridge/src/matter/pairing.rs is Pairing. bridge/src/main.rs and bridge/src/config.rs are Startup, which
-- composes the load of the catalog, the commissioning material, a backend and its first exports.
-- bridge/src/matter/lan_netif.rs is Lan and bridge/src/matter/commissioning.rs is Commissioning.
--
-- custom_components/thatsmatter, the integration in Home Assistant, is Ha: Ha/Models (models.py, helpers.py)
-- and Ha/Store (store.py) have the exports that Home Assistant keeps, Ha/Manager (export_manager.py) the
-- edits of its user up to the push that follows, Ha/Client (bridge_client.py) the synchronisation of the
-- bridge with them, over the handlers of Ipc, Ha/Runtime (coordinator.py) the push of the catalog,
-- Ha/States (coordinator.py) the push of states, and Ha/Commands (coordinator.py) the service calls that
-- a controller's commands become.
--
-- Base has the lists, texts, maps and results that these share. Files named Examples run the theorems
-- on concrete inputs.
--
-- Parameters. serde_json is a `Codec` whose printed values parse back, or, for a request body, what it
-- reads of it; the file system is the success of each call, in the order of the calls; clocks, random
-- draws, the host's network interfaces and the answers of the Matter stack are arguments. Strings are
-- lists of code points, whose length in UTF-8 is written out. The type of JSON values is a variable.
-- For a request of Home Assistant, a `Link` says whether it arrives and its answer returns, and what the
-- bridge's file system does; no other client's request comes between those of a synchronisation, a save to
-- .storage succeeds, and an id is canonical. A `dict` of texts is the list of its entries by their keys.
--
-- Bounds and fuel. Endpoint ids and `next_endpoint` are 16-bit numbers and wrap as written. The search
-- for a free endpoint runs on fuel of 65536 steps, which is enough since it visits every id. Data
-- versions wrap at 2^32. The 64-bit generation counters wrap in `set_exports`; in Matter/Generation and
-- Dev they are taken not to wrap. The loop that draws a passcode is a function of the list of draws,
-- which returns as soon as one is allowed.
--
-- Not modelled: the sockets of bridge/src/matter/net_stack.rs, the codes and texts that rs-matter
-- renders, a panic of the stack thread, the parsing of the command line and of HTTP, the attribute lists
-- of the declared clusters, logging, the `UniqueID` string and, of the integration in Home Assistant, the
-- forms, entities, notifications, the load of its .storage and the loops that poll.
-- The inner loop of a pass of `run` goes by the answers to its bumps, since each bump that succeeds ends
-- it unless a request comes meanwhile, which is Matter/Generation's.
pub mod Base
pub mod Catalog
pub mod Matter
pub mod Ipc
pub mod Lan
pub mod Commissioning
pub mod Dev
pub mod Pairing
pub mod RsMatter
pub mod Startup
pub mod Ha
