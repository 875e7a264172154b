-- ===== src/Lib.antt =====
-- Offline Reels: a library of Instagram Reels that are collected on a server, normalized to one
-- playable format and served to devices that keep them offline.
--
-- The server part is apps/api (Python). A Collector run finds Reels in a browser feed, downloads
-- each one to the object store and commits a row of instagram_reels, an item of its run and a
-- pending row of instagram_normalization_jobs in one transaction. Normalizer workers claim pending
-- jobs under a lease, convert the source, publish the result and commit a row of videos; a
-- reconciler takes back claims whose lease has expired. The parts meet only in the database.
--
-- Base: shared names, tests on numbers, texts, tables as lists of rows (`find` is session.get,
--   `put` is the UPDATE of one row, `select_first` is ORDER BY … LIMIT 1).
-- Domain: apps/api/app/instagram/contracts.py (Statuses, Reasons) and transitions.py
--   (Transitions, and Paths for sequences of allowed changes).
-- Action: Python code that mutates what it can reach and may raise, with try, except and finally.
--   Action/Keeps and Action/Lands are the rules by which such code keeps a property, or gets from
--   one to another on each way out.
-- Pipeline/Schema: the rows of apps/api/app/db/models/instagram.py and video.py. Columns that no
--   modelled transaction reads are left out (codecs, sizes and updated_at of a video or a Reel).
-- Pipeline/Transaction: `with sessions.begin()`. A transaction is a function from the database
--   to an error or to a result and the new database; an error rolls everything back. A write
--   checks the constraints of its table and raises `integrity_error`.
-- Pipeline/Persistence: class CollectorPersistence of
--   apps/api/app/instagram/collector/persistence.py: its transactions on runs, Reels and items, one
--   definition for each method, by its name.
-- Pipeline/Accounts: its transactions on accounts, its queries of what an account owns, and the
--   completion of a run for a total.
-- Pipeline/Normalizer: claim, reconcile, _commit_ready and _finish_failure of
--   apps/api/app/instagram/normalizer/worker.py, and VideoRepository.upsert of
--   apps/api/app/repositories/videos.py.
-- Pipeline/After and Pipeline/Invariant: a logic of committed transactions, and the invariant of
--   the tables with its proof for each transaction.
-- Pipeline/System: transactions of the Collector and of any number of workers as steps.
-- Pipeline/Claiming, Pipeline/RunStatus and Pipeline/Counters: what claims, changes of a run's
--   status and the counters of a run promise.
-- Collector: CollectorEngine of apps/api/app/instagram/collector/service.py over the ports of
--   contracts.py, which are parameters: the loop (Turn), one move of the feed (Transition), one
--   source (Source), and `collect` with its handlers (Collect). Canonical: canonical.py, with
--   urllib's urlsplit as a parameter. A log of the calls that matter stands beside the state.
--   `fuel` bounds the turns of the loop, and more than max_advances is enough. KeyboardInterrupt
--   may come out of any call of a port, and of the cancellation probe, and nowhere else. The
--   aggregate diagnostics of a transition, which nothing of `collect` reads, are left out.
-- Collector/Ledger: the proofs about the log and the counters; Collector/Guarantees: the theorems.
-- Work: run_once of apps/api/app/instagram/normalizer/worker.py with _process and what it calls,
--   over the object store, ffmpeg and the transactions as ports, with a log of what a
--   publication reads, commits and deletes. Temporary directories are left out.
-- Media/Ranges: apps/api/app/media/ranges.py and the span that stream_video of
--   apps/api/app/api/videos.py reads; Media/PythonInt: str.strip and int on header texts, with
--   Python's default limit of 4300 digits.
-- Media/Feed: VideoRepository.list, VideoService.list (apps/api/app/services/videos.py) and the
--   next cursor of list_videos; a cursor stands for its signed token. `follow` is a client; its
--   fuel is a number of pages, and more than the number of videos is enough.
-- Login: LoginSessionService of apps/api/app/instagram/login_sessions.py on the same database; the
--   SHA-256 of a launch token is a parameter.
-- Management: the control plane of apps/api/app/api/management.py on its own tables: pairing,
--   sessions and CSRF tokens, the rate limiter and idempotent requests. SHA-256 and str.lower are
--   parameters, a stored JSON text is the object that it encodes, `begin` is `with
--   sessions.begin()`, and `meanwhile` is what other transactions commit before
--   an INSERT, or before an IntegrityError is handled.
-- Examples: concrete databases, and the theorems at them.
--
-- Timestamps are numbers of microseconds, UUIDs are numbers in the order of UUIDs. The clock, the
-- new UUIDs and the rows that SKIP LOCKED passes over are arguments, and the theorems hold for all
-- of them. The transactions are taken one after the other; a worker locks the rows that it writes
-- (FOR UPDATE), the Collector does not, and what its transactions do to each other when they
-- overlap is not modelled. The loops are over lists of rows.
--
-- Not modelled: the queries reel_status and account_durable_baseline, the worker's status and verify
-- reports, the routes of the management API, the browser feed, Instagram's pages and HTTP traffic,
-- ffmpeg and ffprobe, MinIO, the other HTTP routers, the operators' scripts, the fixtures and the
-- web client.
pub mod Base
pub mod Action
pub mod Domain
pub mod Media
pub mod Pipeline
pub mod Collector
pub mod Login
pub mod Examples
pub mod Management
pub mod Work
