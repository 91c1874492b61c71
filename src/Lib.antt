-- ===== src/Lib.antt =====
-- onlykas sells access to media: creators publish posts, buyers pay for one post or for a membership
-- with transactions of the Kaspa network, and the backend grants access by the receipts it writes.
-- This library models the backend's core.
--
-- Domain models backend/src/domain/models.ts, the records that everything else keeps. Store models
-- backend/src/memory-store.ts: a record of thirteen maps (Map is JavaScript's Map, an association list
-- in insertion order) and one function per method of MemoryStore, in Store/Auth, Payments,
-- Memberships, Posts, Purchases and Covenants. Store/Op has the calls that change the state as data,
-- so that a history of the store is a list of calls; Store/Keys, Kept, CovenantKeys, History and
-- Frames carry what holds of every call, and Replay, Receipts, OneEach, Media, Claims, Mirror, Pending
-- and Offers what the store promises of challenges, purchases, publications, workflows and covenants.
-- A method that returns a value and changes the state is a function into a pair.
--
-- Auth models backend/src/application/auth-use-cases.ts (createSessionUseCases,
-- createProfileUseCases), Publish models publication-use-cases.ts, delete-post.ts and previewKey of
-- media-preview.ts there, and Reconcile models reconcile-workflows.ts there: WorkflowReconciler.run is
-- `reconcile`, a pass is a function of the store and the counts so far. These use the store only by
-- its methods. Access models membership-access.ts there. Checkout and View model routes of
-- backend/src/app.ts as functions of the store: `/api/posts/:id/payments/prepare` and
-- `/api/payments/:id/finalize` are `prepare_payment` and `finalize_payment`, `/api/posts/:id` and
-- `/api/creators/:address` are `view_post` and `creator_page`. RateLimit models
-- backend/src/adapters/http/rate-limit.ts, and Fee backend/src/payment-fee.ts and membershipFeeSompi
-- of shared/src/index.ts.
--
-- Sql has the statements that backend/src/libsql-store.ts uses, on tables as lists of rows: insertion,
-- deletion, update, and insertion with an update on a conflict. Durable models LibsqlStore and the
-- schema after all migrations of backend/src/adapters/persistence/migrations.ts: Durable/Rows the rows
-- and their decoders, Durable/Auth, Payments, Memberships, Posts, Purchases, Covenants and Feedback the
-- methods, Durable/Calls the calls as data. Mirrors, Refines and Reads relate it to Store, Constraints
-- has the unique keys of the schema, Claims, Offers, Leases, Roundtrip and Migrations (the loop of
-- applyMigrations) what a table promises. Functions that both stores have are named with their module.
--
-- Price models the prices of shared/src/index.ts (parsePostPrice, parseKasToSompi,
-- parseMembershipPrice) and formatKas of frontend/src/format.ts on code points. Membership models the
-- membership routes of backend/src/app.ts: those that prepare in Membership, those that finalize in
-- Membership/Finalize, as `purchase_prepare`, `purchase_finalize` and so on for offers, prices and
-- cancellations. Verifier models KaspaMembershipVerifier of backend/src/verifier.ts; Verifier/Head and
-- Sound are about the checks, Find, Answers and Complete about the search, and Verifier/OnChain joins it
-- to Access and Membership.
--
-- The services outside of the process (Ports: the gateways, the verifier; the wallet's signature
-- check, the object storage, the clock, fresh ids) are parameters: what they answer is an argument,
-- and an answer is a value or a throw; Membership takes the gateway's transactions and Verifier the
-- node's answers (Node) in this way, one snapshot for a call. Locale holds the functions on text that
-- depend on the host's locale, Durable takes JSON and the database's order of texts, and Verifier the
-- functions of backend/src/membership-contract.ts on scripts and payloads (Contract). Numbers are
-- natural numbers where the source has none below 0: times in milliseconds, sizes, counts and sompi;
-- JavaScript keeps them exact below 2 ^ 53 and in a bigint. The scores that the verifier reads from a
-- payload, and the numbers that JSON holds, are signed (Prelude/Int). Every loop is a recursion on a list,
-- but for the digits of a number, where n + 1 rounds of a division by ten are enough for n. Between
-- two awaits the process runs alone; requests that are served during the upload of a publication are a
-- list of calls of the store.
--
-- Not modelled: the transactions that the Kaspa SDK builds and reads (backend/src/payment-gateway.ts,
-- membership-gateway.ts, membership-contract.ts, ppv-payload.ts, wallet-verifier.ts); the other routes
-- of backend/src/app.ts; the database's connection, its failures other than the refusals of the
-- schema, and resetDatabase; object storage, media, the delivery of feedback, logging, metrics and
-- configuration; the text of the estimated dates of a membership, of which the time value is kept; and
-- the web client (frontend), except for formatKas.
pub mod Access
pub mod Auth
pub mod Checkout
pub mod Domain
pub mod Durable
pub mod Fee
pub mod Locale
pub mod Map
pub mod Membership
pub mod Ports
pub mod Prelude
pub mod Price
pub mod Publish
pub mod RateLimit
pub mod Reconcile
pub mod Sql
pub mod Store
pub mod Tests
pub mod Verifier
pub mod View
