-- ===== src/Lib.antt =====
-- The core of tangle, a relay for groups in the manner of NIP-29: the state of the groups that the
-- stored events give, who may write and who may read, the records of the events that the relay
-- generates, and the state that the relay keeps for a connection.
--
-- The relay receives an event, checks its structure and classifies it by its kind and its group
-- tags, asks the write policy whether its author may write it, stores it, applies it to the
-- projection of its tenant and merges the records of the events to generate into the outbox. A
-- query, or the fan-out of a stored event to the live subscriptions of a connection, shows an
-- event where the read gate lets one of the authenticated keys of the connection see it. After a
-- restart the projection is rebuilt from the stored events.
--
-- Files and the code that they model (functions keep their names; what stands under impl GroupX is
-- a function that takes the state last or is a parameter of a section):
--
--   Protocol: crates/tangle_protocol/src/lib.rs, the checked scalars.
--   Groups/Errors, Config, Ids, Kinds, EventView, Tags, Classification, Roles, Metadata: the files
--   errors.rs, lib.rs, ids.rs, kinds.rs, event_view.rs, tags.rs, classification.rs, roles.rs and
--   metadata.rs of crates/tangle_groups/src.
--   Groups/Projection and its children Apply and Rebuild: projection.rs. Its children Registers,
--   Updates, Effects, Stamps, Convergence and AnyOrder are about a rebuild and the incremental
--   application of the same events, Frame and Deletion about what an event leaves alone, Failing
--   about events that cannot be applied.
--   Groups/WriteGate, Groups/Authority, Groups/WritePolicy: write_gate.rs and policy.rs, with the
--   specification of the policy in WritePolicy/Spec.
--   Groups/ReadGate: read_gate.rs, and event_visible_to_auth of
--   crates/tangle_runtime/src/groups.rs, with the specification in ReadGate/Spec.
--   Groups/Outbox: outbox.rs, with its merges, its replay plan and its documents of keys as
--   children.
--   Groups/Signing: signing.rs. Its children Printed, Stays and Snapshot are about the tags of a
--   metadata snapshot as the parser of metadata reads them, Listed about the lists of
--   administrators and members.
--   Groups/StorageKeys: the keys of the extra tables of projection.rs and outbox.rs, and how
--   groups.rs of the runtime splits them.
--   Runtime/Store: the handle of crates/tangle_store_pocket/src/lib.rs, with the scan over the
--   events in its child Scan.
--   Runtime/GroupService: groups.rs of crates/tangle_runtime/src. GroupService itself plans the
--   events to generate; its child State is the state with the store below it and the loops that
--   generate events, Writes the write of an event. Its children Settles, Counts, Drains, Outcomes,
--   Generates, Planned, Tracks, Merging, Planning and Completes are about what these leave behind:
--   Planned about the records that are planned, Merging about their way into the outbox, Tracks
--   and Generates about their way through the loops, Planning about them when the loops have
--   ended, and Completes puts these together.
--   Runtime/Relay: relay/core.rs of crates/tangle_runtime/src, first its limits with the checks of
--   requests. Its child Queries is the query of the stored events, with Bounded, Visible and
--   Ordered about it; Counts is the count of stored events, with its loop in Counting, and Silent
--   and Private about its sketch; Requests is the answers to a connection, with Replies about
--   them; Events is the handling of a client event, with the checks of pocket_event_validation.rs,
--   and Answers is about it.
--   Runtime/ResourceLimits: resource_limits.rs of crates/tangle_runtime/src, with Interleaved
--   about the threads that share a counter.
--   Runtime/Auth, Runtime/Live, Runtime/RateLimits, Runtime/Errors: relay/auth.rs, relay/live.rs,
--   rate_limits.rs and errors.rs of crates/tangle_runtime/src.
--   Common: lists, results, orders, maps and sets in the order of their keys, texts as lists of
--   code points.
--   Tests: concrete events and states, runs of the definitions on them, and the theorems applied
--   to them.
--
-- State is passed and returned: a function that mutates its receiver returns the new one, and a
-- failing one returns its error, which leaves the state. Errors are their kind and prefix; message
-- texts are left out. Numbers are natural numbers; where the source saturates, so does the model,
-- at the bound of the type. BTreeMap and BTreeSet are lists in the order of their keys, under the
-- derived order of the keys. Where code changes a store and may fail, a function of the model
-- takes the state and returns its result with the state after it, also for an error
-- (Common/Effects). Loops over lists are recursions on the list. Two loops run on fuel: the scan
-- over the stored events, on as many passes as the map of events has bytes, since every event
-- takes at least one, and the generation of events, on as many passes as the plan has records,
-- since every pass that goes on settles one.
--
-- The database below the store is a library: it is the record Pocket of the functions that the
-- handle calls, of which nothing is assumed but, for the scan, that an event takes at least one
-- byte and that an event that is read ends at most at 2 ^ 63, since the map of events is a file in
-- memory. The signer of generated events, with the encoding of their tags, is the record
-- RelaySigner. A value of an extra table is the value whose JSON text the source writes. The
-- search of the store with its screen, the test of a filter and the making of a filter are the
-- record Search, of which two theorems, Visible and Replies, assume what the library documents: it
-- returns only events that the screen matched. The length of an event's content and the check of
-- its signature are the record EventReads.
--
-- A counter that threads share is a step relation: a step is one atomic operation of one thread,
-- with what each thread in the loop read last as part of the state.
--
-- PocketEvent is of the library of the store: it is what the trait GroupEventView reads of it,
-- with tags that may be malformed and values that may not be UTF-8. The check of an event's
-- signature, the matching of a filter and the type of filters are parameters. The keys of the rate
-- limiter are any ordered type.
--
-- Not modelled: the asynchronous runtime, sessions and the server, the event bus, JSON of messages
-- and documents except the keys of the outbox, configuration files, tenants and hosts, backup and
-- export, logging, the command line and the benchmarks.
pub mod Common
pub mod Groups
pub mod Protocol
pub mod Runtime
pub mod Tests
