-- ===== src/Lib.antt =====
-- hla4-rs: the run-time infrastructure of a federation after IEEE 1516.1-2025 (HLA 4).
--
-- Federates connect to a server over the Federate Protocol (crates/hla-wire), whose sessions carry
-- calls and callbacks in frames. The server (crates/hla-rti) keeps the federations: it dispatches
-- each call to a handler, which changes the federation and queues callbacks for other federates.
-- What classes and attributes there are is the federation's object model (crates/hla-omt).
--
-- Prelude: shared helpers. Tests and Lists over the native numbers, Results for Rust's Result,
--   Int for i32, Eq for the types compared by ==, Map for HashMap (an association list whose order
--   stands for the order of iteration), Sets for HashSet and Counting for sets compared by size.
-- Wire: crates/hla-wire/src. Bytes, MessageType, MessageHeader, Frame, Payload and Sequence are
--   framing.rs, with decode and encode of each body; Codec is codec.rs, the decoder over a growing
--   buffer and the blocking read_frame; Session is session.rs, the client's and the server's side
--   of the new-session handshake. A byte is a number below 256, a stream a list of bytes.
-- Encoding: crates/hla-encoding/src/lib.rs, the standard data types as bytes, with the trait as a
--   record of operations and RoundTrip its laws.
-- Omt: crates/hla-omt/src/lib.rs, the merged object model and its class chain. The iterator runs on
--   fuel, one more than the classes, which no chain without a cycle exceeds. Merge is
--   crates/hla-omt/src/merge.rs: the union of modules and the depth-first assignment of handles, on
--   fuel one more than the classes, which no path from a root exceeds.
-- Rti: crates/hla-rti/src. State holds the records of lib.rs and session.rs. Exception is
--   exception.rs. Callback and Routing are routing.rs: a callback is a constructor for the function
--   that builds its protobuf message. Subscriptions is SubscriptionMatrix of lib.rs, a table by
--   attribute with a reverse index of reference counts (u32, with its wrap-around).
--   Handler is what a handler leaves: the federation, the callbacks it queues and its response.
--   SyncPoints is dispatch/sync_points.rs, Save is dispatch/save.rs. Time is time.rs: the bound on
--   time stamps and the waves of grants, whose recursion runs on fuel, one more than the federates.
--   TsoQueue, TimeManagement and TimeQueries are dispatch/time_mgmt.rs with the queue of
--   dispatch/data_flow.rs. F64 is what the code uses of f64, with the laws of IEEE 754 that the
--   proofs rely on as hypotheses; the examples put whole numbers and an infinity in its place.
--   Handles is handles.rs. Declaration is dispatch/declaration.rs, Ownership dispatch/ownership.rs,
--   Regions dispatch/ddm_lifecycle.rs and dispatch/ddm_matching.rs, each with its arms of the table
--   of calls in dispatch/mod.rs. DataFlow is dispatch/data_flow.rs, with Objects for
--   dispatch/object_mgmt.rs and the calls on an instance and Interactions for the rest and the arms
--   of the table of calls. HandleLookup is dispatch/handle_lookup.rs. Federations is
--   dispatch/federation_mgmt.rs, over the node's map of federations, and Defaults what a federation
--   and a federate start with.
--
-- A handler is a function of the node, the session and the federation that the session has joined.
-- Locks and atomics are left out: the functions state what one call does, and a sequence of calls
-- is a sequence of such steps. Handles are their raw numbers, and the texts beside an exception's
-- name are left out.
--
-- Not modelled: the sockets and tasks of the server and of the client library (hla-federate), the
-- protobuf messages (hla-fedpro-proto, generated), the XML parser, snapshots on
-- the disk and their restore, metrics, the command line, and of the table of calls the remaining
-- lookups, the directed interactions and the subscriptions with a rate, passively or with regions.
mod Prelude
pub mod Wire
pub mod Encoding
pub mod Omt
pub mod Rti
