-- ===== src/Lib.antt =====
-- Verification of the media catalog of data-processing (src/media_catalog).
--
-- The catalog synchronizes metadata from providers. `MetadataSyncService.synchronize`
-- (src/media_catalog/remote_sync/service.py) opens a run in the catalog, lets a
-- `BoundedRemoteExecutor` (remote_sync/executor.py) fetch pages through a `RequestGate`
-- (remote_sync/request_gate.py) within the limits of a `BudgetTracker` (remote_sync/budget.py), keeps
-- every raw response, commits each page with a checkpoint in one transaction
-- (persistence/remote.py, database.py), and closes the run at its end. Beside it stand the
-- resolution of pasted links (link_resolution.py) and the marking of wrong data (tombstone.py).
--
-- Prelude, Effect: shared names; a step takes a state and gives an outcome (returned, raised, or
-- unfinished where a loop's fuel ran out) with the state that it leaves, also where it raises.
-- Effect/Triple has the rules that compose steps; a triple states that the step ends.
--
-- RemoteSync/Types, Stored and Session: the values of adapters/contracts.py, its continuations as the text
-- that a checkpoint stores, and the objects that a run shares: the clock, the tracker, the gate's last
-- request, the provider, the store.
--
-- RemoteSync/Budget (`SyncLimits`, `BudgetTracker`), RemoteSync/Gate (`RequestGate`),
-- RemoteSync/Executor (`BoundedRemoteExecutor`), RemoteSync/Service and Service/Sync
-- (`MetadataSyncService`; `retain_response`, `commit_page`, `resume_continuation`, `finish` and
-- `synchronize` are the methods of these names, `conclude` is the `try` statement). Their child modules
-- hold the proofs. RemoteSync/Executor/Contract is the interface between the executor and its
-- callbacks, and RemoteSync/Service/Keeps fills it for the service.
--
-- Persistence/Tables, Runs, Raw (`RemoteWrites`): tables are lists of rows, a write is a step that may
-- raise, and a transaction undoes what a raising write has done. Rows, Last and RunLaws hold the laws.
--
-- Links (`resolve_link`; Text has its regular expressions, Path the segments of a path, Resolve the
-- dispatch on hosts), Tombstone (`tombstone_posts`, `tombstone_lookup_run`), Relationships (the review
-- of relationships/review.py with its writes), Tests (concrete inputs).
--
-- Lineage (`_Components` of relationships/dependence.py, over nodes with any total order; `find` is
-- recursive, and raises RecursionError where its calls do not fit under Python's recursion limit, which is
-- a field of the order; each parent is earlier than its node),
-- Lineage/Order (the order of Python's tuples), Lineage/Roots (`lineage_components`, with the rows of a
-- catalog). Leads relates a node to its root, Partition and Classes compare roots with connectedness.
--
-- Identity (discovery/review.py: the tables; a raise rolls them back), Identity/Digits (`parse_match_ref`),
-- Identity/Review (`MatchReviewService.review`), Identity/Confirm (`confirm_identity`), Identity/Rebuild
-- (`rebuild_identity_component`) and Identity/Forest (its union-find, over the dictionary of Lineage). A
-- decision writes its row and its log first, and then the identities follow: `Following` has this step,
-- `Joining` and `Confirming` the confirmation, `Closure`, `Inserting`, `Placing`, `Components`,
-- `Rebuilding` and `Rebuilt` the rebuild, `Reviewing`, `History`, `Calls`, `Revisions` and `Conflicts`
-- whole calls. The loop
-- `while changed` runs on fuel of one more than the edges, since a pass that changes something takes an
-- edge in; `find` on fuel of one more than the edges, since each link makes a tree higher by one at most.
-- Forest/Ranked has the rank that shows it. The checks of tables that a review can fail are kept (a note
-- of more than 2000 characters, a target that is the subject); a new row id is one more than the largest.
--
-- Acquisition: Policies and Recipes (acquisition/policies.py: destinations, statuses, diagnostics; the
-- providers' policies and the recipes that they give), Transfer (the values and header readers of
-- acquisition/transfer.py; Headers and Written relate the texts of Content-Range to the code's reading), Engine (`HTTPTransferEngine`: its calls, its
-- variables and `_request`), Engine/Attempt, Transition, Attempts and Settle (`transfer`: the body of
-- its `try` statement, its transitions, its loop, and what follows a failed attempt). `_request` runs on
-- fuel of one more than `max_redirects`; the loop over attempts is structural. A session of the storage
-- (storage/cas.py) is a handle with its size, and the storage's operations may raise. Engine/Keeps states
-- the invariant of a transfer, and its child modules that each part keeps it.
--
-- Times are whole ticks. In the remote sync the clock moves on by any amount between two readings, and
-- never back; in a transfer it is any function. The gate's loop runs on fuel of one more than its retries,
-- and the executor's on fuel of one more than the request limit: a turn that goes on uses up a retry, or a
-- request. The adapter, the page writer, the hooks of an origin, the digest, urlsplit, urljoin, parse_qs,
-- json, strip, lower, int and dates are parameters. Left out: tests of Python types (isinstance) where the
-- annotations exclude the case, wall-clock stamps of rows, the validation of texts,
-- messages of errors, in the remote sync headers other than Retry-After and Content-Type, and SQL beyond
-- what the writes do.
--
-- Not modelled: the labels of lineages, the planning and publication of acquisitions, the scans of discovery,
-- lookup, library, projections, imports, storage, the provider adapters and the command line.
pub mod Prelude
pub mod Effect
pub mod Links
pub mod RemoteSync
pub mod Persistence
pub mod Tombstone
pub mod Relationships
pub mod Lineage
pub mod Identity
pub mod Acquisition
pub mod Tests
