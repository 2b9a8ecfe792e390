-- ===== src/Lib.antt =====
-- A model of the core of the host client, with the theorems that make it correct.
--
-- The host keeps a local copy of documents that indexers replicate over a peer-to-peer network,
-- attests to them, prunes the old ones, and serves paid GraphQL queries on them. A document of a
-- peer passes the replication filter, is attested, and is pushed to the pruner's queue; a query
-- passes the billing gate, which reads the epoch clock and the balance authorizer.
--
-- Prelude: tests, lists, association lists for Go maps, and signed integers of 64 bits.
-- Pruner/DocId: pkg/pruner/docid_codec.go. `extract_uuid` and `restore_doc_id` take the package's
--   captured prefix as their state; a string is a list of bytes.
-- Pruner/Queue, Pruner/Persist: pkg/pruner/event_queue.go. `push`, `drain_docs`, `drain_blocks` and
--   `requeue` are functions on `Store`, the queue with that prefix; `save` and `load_from_file` act
--   on the two files that they touch, with the system call that fails as an argument.
-- Pruner/Config, Pruner/Documents, Pruner/Purge, Pruner/Lifecycle: pkg/pruner/config.go and
--   pkg/pruner/pruner.go: the runs by the queue and by block range over what DefraDB answers, and
--   the start and stop of the pruning loop.
-- Acp/Query, Acp/Request: pkg/acp/parser.go: the request and the walk to its top-level fields. The
--   walk recurses on the fragment depth that is left, 17 with the operation's own level, as the
--   source bounds it by 16.
-- Acp/Epoch, Acp/Balance: pkg/acp/epoch.go and pkg/acp/balance.go. The lock regions are the steps.
-- Acp/Gate: pkg/acp/middleware.go and pkg/acp/capture.go: `wrap` and all that it decides.
-- Acp/Recording: pkg/acp/middleware.go: records that are submitted wait, run in one of 64 places, and end;
--   `Reach` are the interleavings of these steps.
-- Accounting: pkg/accounting/recorder.go and client.go: `record_service` makes a record and submits it.
-- Host/Filter: pkg/host/replication_filter.go with its part of config/config.go.
-- Attestation/Record: pkg/attestation/attestationRecordService.go: records made, merged, and posted
--   in a batch, where a found document is shared by the records that name it.
-- Attestation/Blocks: pkg/attestation/blockSignatureVerifier.go: the signature cache, the check of
--   a CID list and the CID collector.
--
-- Attestation/Blocks/Verify, Attestation/Post, Attestation/Documents, Attestation/Attested: the check
--   of a block signature; one record or a batch posted to the database, which answers through
--   `Store`; pkg/attestation/signatureVerifier.go; and the lookup of a CID through its block.
-- Host/Attesters, Host/Metrics: pkg/host/observedAttesters.go and pkg/server/metrics.go.
-- Host/Extract, Host/Signature, Host/Events: pkg/host/attestationHandler.go. `process_block_signature_document`
--   acts on `Host`, the fields that the handler reads and changes; `handle_update` acts on
--   `Listener`, with the queue that `doc_worker_step` serves. A post is tried 5 times, and a document
--   is fetched 10 times, as in the source.
-- Host/Pipeline: pkg/host/processingPipeline.go: a batch writer as a function of what its loop meets,
--   and an attestation that is tried 10 times, as in the source.
-- Host/Provenance: pkg/host/DocumentProvenanceService.go, with the processing depth bounded by 5.
-- Snapshot/Merkle, Snapshot/Import: pkg/snapshot/importer.go. The Merkle root takes as many rounds as
--   there are roots, since each round with more than one hash shortens the list.
-- Snapshot/Bootstrap: pkg/host/snapshot_bootstrap.go: the choice of the snapshots to import, with the
--   sort as an argument. Snapshot/Seeding: their import, where `Seeding` answers for the downloads.
-- Network: pkg/defradb/network_handler.go and network_state.go. A connection attempt is one step of
--   as many rounds as the configuration has retries.
-- Views: pkg/view/view.go and viewManager.go. `register_view` is a function on `Manager`, and what
--   DefraDB, the file system, base64 and the regular expressions answer stands in `Services`.
-- Views/Wire: pkg/view/view.go: a view's name and the view from its wire format.
-- Views/Wasm, Views/Saved: pkg/view/wasmRegistry.go: the directory of WASM files with the paths that are
--   remembered, and views.json. Every download stands with what meets it.
-- Views/Startup: pkg/view/viewManager.go: `load_and_register_views`, over the manager, the WASM registry and
--   views.json.
-- Acp/Registry: pkg/acp/registry.go: the view manager fills the services of the gate.
-- Hub/Events, Hub/Hydration, Hub/Dispatch, Hub/Listener: pkg/shinzohub/events.go: a message's events, the
--   fetch of a view's bundle in 3 attempts, as in the source, the events sent, and the event loop as
--   rounds over what `Feed` answers.
-- Hub/Lcd: pkg/shinzohub/query.go and view_processor.go: the pages of views; as many rounds as pages.
-- Host/Registrations: pkg/host/host.go: the loop over the hub's events, which registers their views.
-- Host/Discovery: pkg/host/peer_discovery.go: the bootstrap peers' addresses, in their order.
--
-- Loops are recursions on their slices, or on the source's own bounds; where the source has none, the
-- number of rounds is an argument: any number for the event loop, which never ends by itself, and one
-- more than there are pages for the gateway, which ends with the last page. A Go map is a list of entries
-- whose keys do not repeat, read in that order where the source reads it in any. DefraDB, the
-- hub, the GraphQL parser, HTTP, JSON, CIDs, Merkle roots, signatures, the websocket and the Unicode
-- case folding stand as arguments.
--
-- Not modelled: logging, goroutines that only wait or log, the start and stop of the pipeline's
-- writers and of the reconnection loop, the download of snapshots, the assembly of the host, the HTTP
-- server, the schemas of views, and the calls that ask the hub for heights and balances.

pub mod Prelude
pub mod Pruner
pub mod Acp
pub mod Host
pub mod Attestation
pub mod Snapshot
pub mod Network
pub mod Views
pub mod Hub
pub mod Accounting
