-- ===== src/Pipeline/Invariant/Claims.antt =====
-- `claim` keeps the tables consistent.
use offline_reels.Base.Table.{find, put, key-find, find-put}
use offline_reels.Base.Select.{select_first-find, select_first}
use offline_reels.Pipeline.Transaction.{reel_admitted, save_job, save_reel, ok}
use offline_reels.Pipeline.After.{After, After-if, After-save_reel, After-save_job, After-option}
use offline_reels.Pipeline.Normalizer.{
  Worker, claim_row, max_normalization_attempts, exhausted_job, failed_reel, retry_exhausted_code,
  claimed_job, normalizing_reel, claim, is_waiting, ClaimedNormalizationJob,
}
use offline_reels.Pipeline.Schema.{Reel, Job, Db, job_key, reel_key}
use offline_reels.Base.{
  refl, ℕ, List, ◌≡◌, true, some, ltb, ◌+◌, arith, false, Bool, Option-cases, inl, inr,
}
use offline_reels.Pipeline.Invariant.{
  Consistent, job_key, reel_key, NormalizationJobStatus, max_normalization_attempts, AttemptsFit,
  IsKept,
}
use offline_reels.Domain.Statuses.{NormalizationJobStatus, ReelPipelineStatus}
use offline_reels.Pipeline.Invariant.Moves.{move-IsConsistent, SameReels-put}
use offline_reels.Pipeline.Invariant.Rows.{
  reel_admitted-checks, After-required, IsKept-refl, found_itself, Holds,
}

module _ (w : Worker) (now : ℕ) (job : Job) (reel : Reel) (db : Db) (inv : Consistent db)
    (job_there : find job_key job.id db.jobs ≡ some job)
    (reel_there : find reel_key reel.id db.reels ≡ some reel) (of_reel : job.reel_id ≡ reel.id)
    (waits : job.status ≡ NormalizationJobStatus.pending)
    (is_ready : reel.pipeline_status ≡ ReelPipelineStatus.source_ready) where
  fits : AttemptsFit job
  fits = inv.attempts job.id job job_there

  exhausted :
      reel_admitted (failed_reel now retry_exhausted_code reel) db.reels ≡ true
      → IsKept db (record db {
        reels = put reel_key (failed_reel now retry_exhausted_code reel) db.reels;
        jobs = put job_key (exhausted_job now job) db.jobs;
      })
  exhausted c = record {
    consistent =
        move-IsConsistent inv job (exhausted_job now job) reel
          (failed_reel now retry_exhausted_code reel) job_there reel_there of_reel of_reel
          (ground (arith, fits)) (reel_admitted-checks _ _ c) (ground arith) (ground arith);
    same_reels = SameReels-put job (exhausted_job now job) db.jobs job_there refl;
  }

  claimed :
      ltb max_normalization_attempts (job.attempt_count + 1) ≡ false
      → reel_admitted (normalizing_reel reel) db.reels ≡ true
      → IsKept db (record db {
        reels = put reel_key (normalizing_reel reel) db.reels;
        jobs = put job_key (claimed_job w now job) db.jobs;
      })
  claimed e c = record {
    consistent =
        move-IsConsistent inv job (claimed_job w now job) reel (normalizing_reel reel) job_there
          reel_there of_reel of_reel (ground (arith, fits)) (reel_admitted-checks _ _ c)
          (ground arith) (ground arith);
    same_reels = SameReels-put job (claimed_job w now job) db.jobs job_there refl;
  }

  After-claim_row : After (IsKept db) (claim_row w now job reel db)
  unfolding claim_row
  After-claim_row =
      After-if (IsKept db) (ltb max_normalization_attempts (job.attempt_count + 1)) _ _ db
        (λ e. After-save_job (IsKept db) _ (exhausted_job now job) db λ _.
          After-save_reel (IsKept db) _ (failed_reel now retry_exhausted_code reel) _
            λ c. exhausted c)
        (λ e. After-save_job (IsKept db) _ (claimed_job w now job) db λ _.
          After-save_reel (IsKept db) _ (normalizing_reel reel) _ λ c.
            After-required (IsKept db) _ reel.source_object_key _ λ _ _.
              After-required (IsKept db) _ reel.source_sha256 _
                λ _ _. After-required (IsKept db) _ reel.source_byte_size _ λ _ _. claimed e c)

waiting-pending :
    (reels : List Reel) (locked : Job → Bool) (job : Job)
    → is_waiting reels locked job ≡ true
    → job.status ≡ NormalizationJobStatus.pending
waiting-pending reels locked job h = ground arith

waiting-ready :
    (reels : List Reel) (locked : Job → Bool) (job : Job) (reel : Reel)
    → is_waiting reels locked job ≡ true
    → find reel_key job.reel_id reels ≡ some reel
    → reel.pipeline_status ≡ ReelPipelineStatus.source_ready
waiting-ready reels locked job reel h e = ground arith

pub After-claim :
    (w : Worker) (locked : Job → Bool) (now : ℕ) (db : Db)
    → Consistent db
    → After (IsKept db) (claim w locked now db)
unfolding claim
After-claim w locked now db inv =
    After-option (IsKept db) _ _ _ db (λ _. IsKept-refl db inv)
      λ job chosen.
        let (there, waits) =
          select_first-find (λ j. j.created_at) job_key (is_waiting db.reels locked) db.jobs job
            inv.jobs_keyed chosen in
        After-option (IsKept db) _ _ _ db (λ _. IsKept-refl db inv)
          λ reel found.
            let (itself, same) = found_itself job.reel_id db.reels reel found in
            After-claim_row w now job reel db inv there itself same
              (waiting-pending db.reels locked job waits)
              (waiting-ready db.reels locked job reel waits found)

pub claim_row-returns :
    (w : Worker) (now : ℕ) (job : Job) (reel : Reel) (db db' : Db) (c : ClaimedNormalizationJob)
    → claim_row w now job reel db ≡ ok (some c, db')
    → (c.job_id ≡ job.id)
      × (c.reel_id ≡ reel.id)
      × (c.attempt_count ≡ job.attempt_count + 1)
      × (db'.jobs ≡ put job_key (claimed_job w now job) db.jobs)
unfolding claim_row save_job save_reel
claim_row-returns w now job reel db db' c h = ground arith

-- A claim that `claim` returns is what its row says.
pub claim-Holds :
    (w : Worker) (locked : Job → Bool) (now : ℕ) (db db' : Db) (c : ClaimedNormalizationJob)
    → Consistent db
    → claim w locked now db ≡ ok (some c, db')
    → Holds c db'.jobs
unfolding claim
claim-Holds w locked now db db' c inv h =
    elim (Option-cases
      (select_first (λ j. j.created_at) job_key (is_waiting db.reels locked) db.jobs)) [
        | inl e ↦ ground arith
        | inr (job, e) ↦ elim (Option-cases (find reel_key job.reel_id db.reels)) [
          | inl f ↦ ground arith
          | inr (reel, f) ↦
              let (there, _) =
                select_first-find (λ j. j.created_at) job_key (is_waiting db.reels locked) db.jobs
                  job inv.jobs_keyed e in
              ground (
                arith,
                claim_row-returns w now job reel db db' c,
                there,
                key-find reel_key job.reel_id db.reels reel f,
                find-put job_key (claimed_job w now job) job.id db.jobs,
              )
        ]
      ]
