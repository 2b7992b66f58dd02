-- ===== src/Lib.antt =====
-- A model of the services of NimoOS-Photos, a photo library on a NAS, and what holds of them. The
-- program is a Go server over an SQLite database, a file system and an ML server; its services share
-- the table assets and call one another through injected functions. State is passed explicitly, a
-- statement or a system call that can fail asks an argument whether it does, the clock is an argument,
-- and goroutines and timers are steps of a relation or events of a schedule.
--
-- Prelude: shared types and lemmas: native numbers, byte strings (Go strings, with Go's order), lists,
--   keyed maps (Go maps, and tables by primary key), path/filepath, and float64 as an interface
--   without laws.
-- Assets: the columns of the table assets (pkg/sqlite/db.go) that are used, and SELECT and UPDATE by id.
-- Files: the file system as paths with bytes, and what its calls answer.
-- Backfill/Gate: service/backfillgate.go, Run, complete and firePending on chains; Gate/Schedule has the
--   executions under way, the timers and the steps.
-- Backfill/Retry: service/backfillretry.go, recordBackfillFailure, clearBackfillFailure and
--   backfillCooldownSQL on the ledger.
-- Tasks: service/tasks.go, Upsert, Remove, List and sweepStale on the registry of five maps.
-- ScanRoots: service/scanroots.go on the text of /proc/mounts, and isInSnapshotsDir of
--   service/snapshots.go. ScanRoots/Printed is the text that the kernel makes of a list of mounts.
-- MountGuard: service/mountguard.go, AlignOnStartup and checkOnce; it uses Assets and ScanRoots.
-- Trash: service/trash.go, TrashAsset, RestoreAsset, PurgeAsset, EmptyTrash, RestoreAllTrash and
--   PurgeExpired; it uses Assets, Files and ScanRoots. Trash/Move is renameOrCopy, Trash/Dedupe is
--   dedupePath, Trash/Purge is PurgeAsset, Trash/Bulk has the loops, Trash/Purge/Gallery what a purge takes
--   from other assets.
-- UploadStore: service/uploadstore/store.go.
-- Albums: service/album.go, the operations that write.
-- Marks: service/favorites.go and service/views.go.
-- SearchCut: service/searchcut.go.
-- SmartViews: service/smartview.go, on the tables smart_views and smart_view_matches. SmartViews/Scores is
--   evalParsed and parseWithDescFallback, SmartViews/Evaluate is Evaluate, SmartViews/Manual is
--   PinAssets, RemoveAssets and RestoreAssets, SmartViews/Membership the abstract view. The answers of
--   the queries and of ParseConditions are functions.
-- Ingest: service/indexer.go, the tracker of ingest batches (noteEnqueueWithBatch, noteResultWithBatch,
--   onIdle) and the entry points Enqueue, EnqueueWithBatch, MarkAndReserve and SubmitReserved; it uses
--   Tasks and ScanRoots. Ingest/Counts has the calls and the delayed cleanups in any order,
--   Ingest/Late a cleanup that comes while a file is in flight.
-- Watchdog: service/mlwatchdog.go, Tick; Watchdog/Runs has the ticks one after another.
-- Captions: service/captionfeed.go, FeedOne, OnRestore and a round of the backfill.
-- Clusters: service/faces.go, regionQuery, DBSCAN, buildNeighborLists and DBSCANWithProgress. A vector is
--   its index, and whether the cosine distance of two is at most epsilon is a test that the functions take;
--   the number of CPUs is an argument, and the workers write one after another, in any order in
--   Clusters/Workers. Clusters/Neighbors has the rows that the workers write, Clusters/Equal the two
--   algorithms, Clusters/Labels the labels and Clusters/Fuel the queue of a cluster.
-- Persons: service/persons.go, UpdatePerson, SetPersonCover, UnlockPersonCover, DetachAssetsFromPerson,
--   recomputeOneCentroidTx, selectCoverFace and the calls that hide, restore and purge, with MergePersons
--   of service/search.go. Persons/Rows has the tables, Persons/Cover the choice of a cover, Persons/Calls
--   any sequence of calls, in which the sweep PurgeDuePersons is its steps. The numbers computed from
--   embeddings and boxes are functions of the faces.
-- Moments: service/momentstore.go, SyncRecipeMoments, the edits of a moment's members (PinMomentAssets,
--   ExcludeMomentAssets), HideMoment, SetMomentTitle and ReorderMoments. Moments/Rows has the tables,
--   Moments/Derived the replay of edits and the derived columns, Moments/Sync the synchronisation,
--   Moments/Calls the calls on a moment; the drafts are arguments.
-- Rerun: service/embedder.go, the two flags of Backfill (running, rerunPending), with each atomic operation
--   a step of a goroutine.
-- Trips: splitByGap of service/moments_trip.go.
--
-- Fuel: dedupePath loops until a name is free; its model tries as many names as there are files and
-- then one more, which is enough since the names are distinct (Trash.Dedupe.dedupe_path-free). The
-- decimal digits of a number have the number itself as fuel, which is more than their count. The queue
-- of a cluster has n + n * n rounds for n points, since each of the n points adds its neighbours once
-- (Clusters.Fuel.dbscan_terminates). All other loops are structural. Go's int and int64 values that
-- the models hold are counts, times and positions, and are natural numbers without overflow; times are
-- nanoseconds in Backfill and Tasks, milliseconds in the ledger, and seconds elsewhere.
--
-- Not modelled: HTTP routes, decoding and thumbnails, the ML server and its clients, the migrations,
-- the other services (watching and scanning, the face pipeline, search, the mining of moments, places,
-- storage), the indexing of a file, the parser of view conditions, and queries that only join columns
-- for display. Of service/faces.go only the clustering is modelled, without its progress reports. In
-- Trash, CleanupOrphanTrashDirs and errors of a SELECT other than a missing row are left out; in
-- Captions, the guard of Backfill, which is that of Rerun. Of os.Stat only whether a path is that of a
-- file is modelled: no directories, and no error other than that there is none. That a transaction
-- without a Commit leaves the database as it was is taken from SQLite: in Persons and SmartViews a body
-- that fails at any statement yields the old tables.
pub mod Prelude
pub mod Assets
pub mod Files
pub mod Backfill
pub mod Tasks
pub mod ScanRoots
pub mod MountGuard
pub mod Trash
pub mod UploadStore
pub mod Albums
pub mod Marks
pub mod SearchCut
pub mod Trips
pub mod SmartViews
pub mod Ingest
pub mod Watchdog
pub mod Captions
pub mod Clusters
pub mod Persons
pub mod Moments
pub mod Rerun
