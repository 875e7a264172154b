-- ===== src/Pipeline/Invariant.antt =====
-- What holds of the tables between two transactions.
pub mod Moves
pub mod Arrivals
pub mod Rows
pub mod Claims
pub mod Failures
pub mod Recovery
pub mod Commits
pub mod Collection
pub mod Runs
use mathlib.Core.Option
use offline_reels.Base.Table.{find, IsKeyed}
use offline_reels.Domain.Statuses.{ReelPipelineStatus, NormalizationJobStatus, reel_eq}
use offline_reels.Pipeline.Schema.{
  Job, Db, reel_key, Reel, job_key, is_pending, is_running, reel_checks,
}
use offline_reels.Base.{
  Option, ◌≤◌, ℕ, some, ◌≡◌, count_if, if◌then◌else◌, ◌==◌, ◌<◌, true, none, List, ◌||◌, ◌*◌,
}
use offline_reels.Pipeline.Normalizer.{max_normalization_attempts}

-- How many rows in the given status one Reel stands for.
abbrev pub in_status : ReelPipelineStatus → Option Reel → ℕ
in_status s none = 0
in_status s (some r) = if r.pipeline_status == s then 1 else 0

-- Attempts are bounded, a waiting job has one left, and a held job has used one.
abbrev pub AttemptsFit : Job → Type 0
AttemptsFit j =
    (j.attempt_count ≤ max_normalization_attempts)
    × (j.status ≡ NormalizationJobStatus.pending → j.attempt_count < max_normalization_attempts)
    × (j.status ≡ NormalizationJobStatus.running → 1 ≤ j.attempt_count)

-- A Reel with a ready source has exactly one waiting job, a Reel that is being normalized has
-- exactly one held job, and no other Reel has either; the rows obey the checks of their tables.
pub record IsConsistent (reels : List Reel) (jobs : List Job) : Type 0 where
  pub reels_keyed : IsKeyed reel_key reels
  pub jobs_keyed : IsKeyed job_key jobs
  pub waiting :
      (r : ℕ)
      → count_if (is_pending r) jobs
        ≡ in_status ReelPipelineStatus.source_ready (find reel_key r reels)
  pub held :
      (r : ℕ)
      → count_if (is_running r) jobs
        ≡ in_status ReelPipelineStatus.normalizing (find reel_key r reels)
  pub attempts : (k : ℕ) (j : Job) → find job_key k jobs ≡ some j → AttemptsFit j
  pub checks : (k : ℕ) (r : Reel) → find reel_key k reels ≡ some r → reel_checks r ≡ true

abbrev pub Consistent : Db → Type 0
Consistent db = IsConsistent db.reels db.jobs

-- The Reel of a job.
abbrev pub reel_of : ℕ → List Job → Option ℕ
reel_of k jobs = Option.map (λ j. j.reel_id) (find job_key k jobs)

-- No job disappears or goes over to another Reel.
abbrev pub SameReels : List Job → List Job → Type 0
SameReels jobs jobs' = (k r : ℕ) → reel_of k jobs ≡ some r → reel_of k jobs' ≡ some r

-- What a transaction from `db` keeps.
pub record IsKept (db db' : Db) : Type 0 where
  pub consistent : Consistent db'
  pub same_reels : SameReels db.jobs db'.jobs
