-- ===== src/Lib.antt =====
-- Verification library of numax, a runtime whose nodes replicate data types without coordination.
--
-- The parts and how they interact. crates/nx-sync has the operations that nodes exchange and the six
-- replicated data types. crates/nx-core/src/sync_manager holds one registry of each type by key. A
-- batch of remote operations is filtered through the window of seen identifiers, worked out in a
-- table of updates, written to the store, and only then committed to the registries, the window and
-- the operation log, which answers the pulls of other peers. The manager also keeps the health of its
-- peers and the times at which it dials them again. crates/nx-store keeps keys and values in the
-- embedded database sled. A guest, a WebAssembly module, calls crates/nx-sdk, which calls the host
-- functions of crates/nx-core/src/host_api with addresses in its memory; those read and write the
-- store, answer lists in an encoding that the SDK parses, and change the replicated data of the node:
-- each change goes to the registry and the store, and as an operation to the broadcast queue.
--
-- Which file models what:
--   Prelude       the shared names, tests, lists over native numbers, keys with a lawful order, words
--   Map, Set      `BTreeMap`, `HashMap`, `BTreeSet` and `HashSet` as entries in key order
--   Sync.Op       crates/nx-sync/src/op.rs, node_id.rs, error.rs
--   Sync.GCounter, Sync.PnCounter, Sync.LwwRegister, Sync.LwwMap, Sync.OrSet, Sync.Rga
--                 the files of those names in crates/nx-sync/src/crdt, one function for each method
--   Sync.Convergence   replicas that exchange states, for any merge and for that of each type
--   SyncManager.SeenOps   `SeenOps` of crates/nx-core/src/sync_manager/types.rs, and
--                 `plan_seen_evictions`, `apply_seen_insertions` of replication.rs
--   SyncManager.OpLog     the operation log of replication.rs
--   SyncManager.Updates   the appliers of apply.rs and the commit of their updates
--   SyncManager.Apply     `apply_remote_ops` of apply.rs and `remember_ops` of replication.rs
--   SyncManager.Peer      peer.rs
--   Store         crates/nx-store/src/store.rs and error.rs: Store.Sled is what the store uses of
--                 sled, Store.Scan its reads, Store.Writes its writes
--   Abi           return codes, `u32` numbers as bytes and UTF-8, on which host and guest agree
--   HostApi.Guest, HostApi.Db, HostApi.Encode
--                 crates/nx-core/src/host_api/db.rs, and the encoders of host_api/crdt.rs
--   HostApi.Crdt  the changes of host_api/crdt.rs, and sequences of them
--   HostApi.Reads the reads of host_api/crdt.rs
--   Sdk.Ffi, Sdk.Db, Sdk.Parse
--                 crates/nx-sdk/src/ffi.rs and db.rs, and the parsers of crates/nx-sdk/src/crdt
--   Sdk.OrSet     crates/nx-sdk/src/crdt/orset.rs
--   Sdk.Link      the SDK over the modelled host functions
--   Examples      the theorems at concrete inputs
--
-- How the code is read. A `String` or `Vec<u8>` is the list of its bytes, compared byte by byte as
-- Rust compares strings. A `HashMap` is a map in key order, since nothing that is modelled depends on
-- its iteration order: where a loop runs over one, it writes each key once. A method on `&mut self`
-- returns the new state with its result. `u64` and `u32` numbers are native numbers with the
-- saturation or the wraparound of the source written out; sums are those of a release build. Generated
-- identifiers, the answer of the store and the last instant of the platform's clock are arguments.
-- sled, a third-party database, is a record of its operations; what is proved of the store assumes
-- that it shows its entries in key order, and that a write that succeeds leaves the entries it means
-- to. The guest's memory is a record too, and where the guest lays its slices is a parameter. The
-- guest is a 32-bit program, the host a 64-bit one.
-- The locks of a call are held from its start to its end, so that a call is one step.
--
-- Fuel. `append_children` of the sequence type recurs on a depth, one more than the number of
-- elements, since the way from the head down to an element passes no element twice; `none` would mark
-- a depth that did not suffice. The loops of the SDK that double their buffer have 16 attempts, more
-- than lead from 64 bytes past 1 MiB; `scan` and `keys` take a number of pages, and `none` marks one
-- that did not suffice. The other functions recur on their data.
--
-- Not modelled: JSON, TLS, sockets, WebAssembly, metrics and logging, which are calls of libraries; and
-- so far the persisted form of the state, its migration, the reconnect candidates, discovery,
-- configuration and the background loops of the manager; the SDK calls of the replicated types
-- other than sets, of which only the parsers are modelled.
mod Prelude
mod Map
mod Set
pub mod Sync
pub mod SyncManager
pub mod Store
pub mod Abi
pub mod HostApi
pub mod Sdk
mod Examples
