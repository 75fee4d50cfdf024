-- ===== src/Lib.antt =====
-- Verification of the core of the gqlize packages: who may see and write which rows and fields, and
-- the stores and transactions underneath.
--
-- The parts and how they interact. A definition carries a permission bag: functions that the
-- gate asks whether a model, a field or a method is allowed, and one, `scope`, that answers with
-- a filter on rows. A role's rules tree is compiled to such a bag. A request passes the guards,
-- which keep hidden fields out of filters and orders; its scope is resolved once for the request
-- and merged into the caller's filter; an adapter matches rows against the result. Mutations run
-- in a coordinator that opens one transaction for each adapter, and the adapter for Valkey
-- buffers its writes in an overlay; its queries go through the equality indexes and never scan.
-- A relationship between models of two adapters is resolved and written by accessors that go to
-- each adapter in turn, and check the scopes themselves. A client holds cursors and ids that the
-- codecs mint. The read cache keeps encoded results in a bounded store, under keys that a write
-- of a model the read touched makes unreachable.
--
-- The files, by what they are about (paths from the repository's root):
--   Gate/Allow           packages/utilize/src/gate.ts: Permission, isAllowed, isFieldExposed, ...
--   Gate/Where           packages/utilize/src/gate.ts: normaliseScopeWhere, mergeScopeWhere
--   Gate/Resolve         packages/utilize/src/gate.ts: asResolvedScope, resolveScope, andScopes
--   Gate/Bind            packages/utilize/src/gate.ts: bindScopeParameters; Bound the proofs
--   Gate/Allowed, Normal, Merged, Gathered, Composed, Resolved   the proofs about these
--   Permissions/Gates, Scope, Bag   packages/utilize/src/permissions.ts: decideKey to
--                        createRoleBasedPermissions; Decisions, Verdicts, Sugar, Meaning and
--                        Creates the proofs
--   Guards/Checks        packages/utilize/src/guards.ts; Oracle and Output the proofs
--   Valkey/Match         packages/ormize-adapter-valkey/src/query.ts: matchWhere
--   Valkey/Plan, Planner packages/ormize-adapter-valkey/src/query.ts: resolveWhere and executeQuery over
--                        an Executor; Filters, Candidates, Conditions, Searches, Found, Steps, Asked, Added,
--                        Answers and Queried the proofs
--   Valkey/Transaction, Buffer   packages/ormize-adapter-valkey/src/transaction.ts: the reads and the
--                        writes of ValkeyTransaction; Direct the writes of DirectExecutor; Sets,
--                        Overlay and Commit the proofs
--   Valkey/Indexes       packages/ormize-adapter-valkey/src/keys.ts and indexes.ts; Kinds and
--                        Membership the proofs
--   ReadCache/Memory     packages/ormize/src/read-cache/memory-store.ts: MemoryCacheStore; Accounts,
--                        Limits and Recency the proofs
--   ReadCache/Cache      packages/ormize/src/read-cache/index.ts: shapeOf, excluded, fits and
--                        rememberOversized; Oversized the proof
--   ReadCache/Reads      the same file: the steps of read and invalidate between their awaits, a read
--                        that leads a flight or waits for one; Current the proof
--   Codec/Datum, Tags    packages/ormize/src/read-cache/codec.ts: encode and decode; RoundTrip the proof
--   Codec/Rows           packages/ormize-adapter-valkey/src/serialize.ts: serialize and deserialize;
--                        Stored the proof
--   Ormize/Transaction   packages/ormize/src/transaction.ts and `transaction` of
--                        packages/ormize/src/engine/transactions.ts; Atomicity the proofs
--   Ormize/Scope, Includes   packages/ormize/src/scope.ts: principalKey to scopeFor, and
--                        scopeIncludePlan; Memo and Covered the proofs
--   Snapshot/Reachability   packages/gqlize/src/graphql/snapshot/reachability.ts: collectSnapshotTypes;
--                        Walk and Reached the proofs
--   Wire/Cursors, Ids    packages/gqlize/src/codecs/cursor.ts and id.ts: the codecs of cursors and ids;
--                        Text and Decimals what they do with characters; CursorTrips, Longest and IdTrips
--                        the proofs
--   Cross/Keys, Accessors, Edges   packages/ormize/src/cross-adapter.ts: writable, btmKeys and the get
--                        accessors; the accessors that write a foreign key; those that write join rows.
--                        Host is the interface they call, Store what the proofs rely on in it, in a
--                        run in which none of its calls fails: records of laws on filters, scopes, lookups,
--                        reads and writes, of which a theorem takes those it needs; Linked, Links, Linking,
--                        Replaced, Denied and Reached the proofs
--   Js/Value, Indexed    JavaScript values, and the keys of arrays and texts; Common the shared types,
--                        maps and lemmas
-- The modules named Examples hold the tests and the theorems at concrete inputs.
--
-- Conventions. Numbers are the non-negative integers; the index of a cursor is an integer. An
-- object is the list of its own enumerable entries in order, and `===` on two objects is false,
-- as it is for distinct references. A `Map` is an association list in insertion order. A promise
-- is the result it settles with. A thrown error is the error of a result. Names of combinators
-- are ASCII, so lower-casing is that of A to Z. What the JavaScript engine computes and the code
-- only uses (relational operators on mixed values, `String(v)`, regular expressions,
-- `JSON.stringify`) is a parameter: the records Engine (of the matcher, and of the codecs), Scan
-- and Text, and the fields `decimal` and `parse_float` of Client; so are the hash in
-- `encodeValue`, base64, JSON and the keyed digest of the cursors, and the global ids of
-- graphql-relay. So are the Valkey client, the ORM adapters and the merge of the package
-- deepmerge. The loop of collectSnapshotTypes runs on fuel, with the number of types of the
-- schema, since each is popped once at most, and the digits of a number are printed on fuel,
-- with the number itself; every other loop is structural, over the list or the value that the
-- code walks. The accessors across adapters take each awaited call as a step on the world of the
-- datastores, which can throw and keeps what was done before.
--
-- Not modelled: log lines; the GraphQL schema, resolvers, command line and the rest of the
-- snapshots of packages/gqlize; the adapter for Sequelize; the wiring of the ORM manager and the
-- verbs of nested mutations; the markers of gate.ts; the hosts (packages/nestize,
-- packages/temporalize) and generators (packages/ormize-zod4). They are input and output around
-- the parts here, or calls of third-party packages, or not reached yet.
pub mod Common
pub mod Codec
pub mod Js
pub mod Gate
pub mod Valkey
pub mod Guards
pub mod ReadCache
pub mod Permissions
pub mod Ormize
pub mod Snapshot
pub mod Wire
pub mod Cross
