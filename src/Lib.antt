-- ===== src/Lib.antt =====
-- muxprune: removal of audio and subtitle tracks from video files, with its queue of jobs.
--
-- The program scans libraries of video files, and runs jobs that remux, edit, reorder or merge them.
-- The parts, and the files that model them:
--
--   Probe         internal/probe/probe.go. `Probe` runs ffprobe and, for a Matroska file, `mkvmerge
--                 -J`, whose track numbers `alignMkvIDs` gives to the streams. `Probe.antt` has the
--                 types and the alignment, Probe/Parse the JSON document (`ParseFFprobe`), Probe/Run
--                 the whole call, Probe/Align its proofs.
--   Engine        internal/engine/engine.go, attrs_unix.go and nice_unix.go. The pure part is in
--                 Engine/Types, Engine/Validate (`validate`), Engine/Args (`mkvmergeArgs`,
--                 `ffmpegArgs`) and Engine/Output (`verify`, `sizeFloor`).
--                 Engine/Io is the file system, a function from paths to files that each operation
--                 passes on, errors included, and the record `Os` of the calls of the system.
--                 Engine/Replace has `statReplaceable`, `tempPath`, `wrapNice`, `replaceOriginal`;
--                 Engine/External `ValidateExternalFiles`; Engine/Remux `RemoveTracks`,
--                 `ReorderTracks` and `MergeTracks`. The other children are proofs.
--                 Engine/Edit is `EditMetadata` with `validLanguageTag` and `stripControl`, and
--                 Engine/Recycle has `DeleteSidecar`, `uniqueDst`, `moveFile` and `PurgeRecycle`.
--   Store         internal/store/store.go. Store/Payload has the JSON payloads, Store/Jobs the
--                 statements on the jobs table and Store/Jobs/Listing `ListJobs`. Store/Tables has
--                 the other records, the database `Db` and the referential actions, and
--                 Store/Libraries, Store/Files and Store/Sidecars (with the settings and
--                 `CreateJob`) the statements on it. Store/Browse is `ListFiles`, `GetFile` and
--                 `Stats`, with the patterns of LIKE in Store/Browse/Like; Store/Table is what holds
--                 of any table; Store/Integrity says what the schema promises, and its children and
--                 the rest are proofs.
--   Scan          internal/scan. Scan/Names is sidecar.go and the labels of scanner.go, Scan/Walk the
--                 callback of `filepath.WalkDir` on a tree of entries, Scan/One `scanOne` and
--                 `ScanFile`, and Scan/LibraryScan `ScanLibrary`, which work on the database of
--                 Store. Scan/Matched, Owned, Grows, Kept, Loop and Pruned are proofs.
--   Watch         internal/watch, and `enqueue` of cmd/muxprune/main.go. `Watch.antt` has `tick`, which
--                 reads the libraries and queues jobs in the database; Watch/Reconcile is
--                 `Monitor.Reconcile` and Watch/Watcher the watcher of a library: its walk, its events
--                 and its timer. The children of both, and Watch/Due, are proofs.
--   Runner        internal/jobs/runner.go. `Runner.antt` has `finalStatus`, `clampLog`,
--                 `staleFingerprint` and the reports on an operation, Runner/Execute `execute` and
--                 `run`, which calls the engine and finishes the row in the jobs table, and
--                 Runner/Drain the inner loop of one `worker`. Runner/System is `Start` with any
--                 number of workers: the table with the jobs that they hold, and steps in any order.
--                 The scanner and the other tables are parameters, in the record `Deps`.
--   Locks         `KeyedMutex` of internal/engine/engine.go as the steps of its goroutines; its children
--                 are proofs.
--   RateLimit     the rate limiter of internal/api/security.go, which the HTTP handlers ask.
--   Base          shared helpers: tests, lists, byte texts, paths, integers, results.
--   Examples      the theorems at concrete inputs.
--
-- Strings are lists of bytes. Go's `int` and `int64` are integers without a bound, save where a text
-- is parsed (`strconv.ParseInt`). `float64` is not modelled: its operations are a parameter, the
-- record `Float`. The programs (ffprobe, mkvmerge, ffmpeg) and the system calls are parameters too,
-- with the hypotheses, where a theorem needs them, that a tool writes no file but its output and
-- that a temporary name is new; without the first a run of a tool may change any file, as other
-- processes may while it runs.
-- The locks of a path are a part of their own, Locks: an operation is modelled as it runs alone on
-- its file, while other processes may act where the system calls do. The SQL engine is modelled by
-- what the statements mean; a failing database is not, save for `FinishJob` in Runner/System, and
-- keys are natural numbers without a bound.
-- The only fuel is that of the decimal printing of a number n, which is given n + 1 rounds and needs no more since each divides by ten,
-- that of `uniqueDst`, which ends in one round more than there are taken names, the rounds of a
-- worker, of which as many as there are queued jobs are enough, and the batches of `TouchFilesBulk`,
-- of which there are no more than identifiers.
--
-- A scan sees the files as they are when it starts: the walk is a tree, and what `os.Stat` shows of
-- a path does not change. A context that is done after n questions is the number n.
--
-- Not modelled: the rest of internal/api (HTTP handlers) and of cmd/muxprune (flags and start-up);
-- `ParsePath` of internal/scan/arrparse.go, whose labels are for display only and are a parameter;
-- the goroutines of the watchers, and the progress events; fsnotify, which is a
-- parameter; the opening and migration of a database file; and the parts for other systems than Unix.
pub mod Base
pub mod Probe
pub mod Engine
pub mod Store
pub mod Scan
pub mod Watch
pub mod Locks
pub mod Runner
pub mod RateLimit
mod Examples
