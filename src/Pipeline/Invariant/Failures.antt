-- ===== src/Pipeline/Invariant/Failures.antt =====
-- `_finish_failure` and `reconcile` keep the tables consistent.
use offline_reels.Base.{
  refl, ◌≡◌, some, Option, String, ℕ, arith, ltb, true, none, subst, ◌∷◌, sym, ◌∙◌, Bool, ◌&&◌,
  List, and-true, ◌≢◌,
}
use offline_reels.Base.Table.{find, put, find-put, count_if-put}
use offline_reels.Pipeline.Transaction.{pure, reel_admitted, add_job, save_reel}
use offline_reels.Pipeline.After.{
  After, After-if, After-save_reel, After-save_job, After-add_job, After-last,
}
use offline_reels.Pipeline.Schema.{Db, Job, Reel, job_key, reel_key, is_running}
use offline_reels.Pipeline.Invariant.{
  Consistent, Job, Reel, job_key, reel_key, NormalizationJobStatus, AttemptsFit,
  max_normalization_attempts, is_running, IsKept,
}
use offline_reels.Domain.Statuses.{NormalizationJobStatus, ReelPipelineStatus}
use offline_reels.Pipeline.Normalizer.{
  closed_job, max_normalization_attempts, fail_row, recover_row, failed_reel, retry_exhausted_code,
}
use offline_reels.Pipeline.Invariant.Moves.{
  move-IsConsistent, retry-IsConsistent, SameReels-put, SameReels-cons,
}
use offline_reels.Pipeline.Persistence.{pending_job}
use offline_reels.Pipeline.Invariant.Rows.{reel_admitted-checks}
use offline_reels.Domain.Reasons.{ReasonCode, reason_value}

-- Jobs with another primary key stay as they are.
abbrev pub OthersSame : ℕ → List Job → List Job → Type 0
OthersSame i jobs jobs' =
    (k : ℕ) (j : Job) → k ≢ i → find job_key k jobs ≡ some j → find job_key k jobs' ≡ some j

OthersSame-put : (j : Job) (jobs : List Job) → OthersSame j.id jobs (put job_key j jobs)
OthersSame-put j jobs k i ne h = ground (arith, find-put job_key j k jobs)

OthersSame-cons :
    (i : ℕ) (q : Job) (jobs jobs' : List Job)
    → find job_key q.id jobs' ≡ none
    → OthersSame i jobs jobs'
    → OthersSame i jobs (q ∷ jobs')
unfolding find
OthersSame-cons i q jobs jobs' new same k j ne h = ground (arith, same k j ne h)

abbrev waiting_again : Option String → Reel → Reel
waiting_again reason reel = record reel {
  pipeline_status = ReelPipelineStatus.source_ready;
  failure_reason_code = reason;
}

-- A held job ends, and its Reel fails or waits for another attempt.
module _ (db : Db) (inv : Consistent db) (job : Job) (reel : Reel)
    (job_there : find job_key job.id db.jobs ≡ some job)
    (reel_there : find reel_key reel.id db.reels ≡ some reel) (of_reel : job.reel_id ≡ reel.id)
    (is_held : job.status ≡ NormalizationJobStatus.running) (reason : Option String) (now : ℕ) where
  abbrev ended : Job
  ended = closed_job NormalizationJobStatus.failed reason now job

  fits : AttemptsFit job
  fits = inv.attempts job.id job job_there

  -- The Reel of a held job is the one that is being normalized.
  normalizes : reel.pipeline_status ≡ ReelPipelineStatus.normalizing
  normalizes =
      ground (arith, inv.held reel.id, count_if-put job_key (is_running reel.id) ended db.jobs job)

  given_up :
      (r' : Reel)
      → r'.id ≡ reel.id
      → r'.pipeline_status ≡ ReelPipelineStatus.failed
      → reel_admitted r' db.reels ≡ true
      → IsKept db (record db { reels = put reel_key r' db.reels; jobs = put job_key ended db.jobs })
  given_up r' same is_failed c = record {
    consistent =
        move-IsConsistent inv job ended reel r' job_there
          (subst (λ k. find reel_key k db.reels ≡ some reel) (sym same) reel_there)
          (of_reel ∙ sym same) (of_reel ∙ sym same) (ground (arith, fits))
          (reel_admitted-checks _ _ c) (ground (arith, normalizes)) (ground (arith, normalizes));
    same_reels = SameReels-put job ended db.jobs job_there refl;
  }

  retried :
      (r' : Reel) (retry_id : ℕ)
      → r'.id ≡ reel.id
      → r'.pipeline_status ≡ ReelPipelineStatus.source_ready
      → ltb job.attempt_count max_normalization_attempts ≡ true
      → reel_admitted r' db.reels ≡ true
      → find job_key retry_id (put job_key ended db.jobs) ≡ none
      → IsKept db (record db {
        reels = put reel_key r' db.reels;
        jobs = pending_job retry_id reel.id job.attempt_count now ∷ put job_key ended db.jobs;
      })
  retried r' retry_id same is_ready more c new = record {
    consistent =
        retry-IsConsistent inv job ended reel r' job_there
          (subst (λ k. find reel_key k db.reels ≡ some reel) (sym same) reel_there)
          (of_reel ∙ sym same) (of_reel ∙ sym same) (ground (arith, fits))
          (reel_admitted-checks _ _ c) (ground (arith, normalizes))
          (pending_job retry_id reel.id job.attempt_count now)
          (ground (arith, find-put job_key ended retry_id db.jobs)) (sym same) refl (ground arith)
          (ground (arith, normalizes));
    same_reels = λ k r h.
        SameReels-cons (pending_job retry_id reel.id job.attempt_count now) _ new k r
          (SameReels-put job ended db.jobs job_there refl k r h);
  }

module _ (db : Db) (inv : Consistent db) (job : Job) (reel : Reel)
    (job_there : find job_key job.id db.jobs ≡ some job)
    (reel_there : find reel_key reel.id db.reels ≡ some reel) (of_reel : job.reel_id ≡ reel.id)
    (is_held : job.status ≡ NormalizationJobStatus.running) (now retry_id : ℕ) where
  pub After-fail_row :
      (code : ReasonCode) (retryable : Bool)
      → After (IsKept db) (fail_row code retryable now retry_id job reel db)
  unfolding fail_row
  After-fail_row code retryable =
      let reason = some (reason_value code) in
      After-save_job (IsKept db) _ _ db λ _.
        After-if (IsKept db) (retryable && ltb job.attempt_count max_normalization_attempts) _ _ _
          (λ more. After-save_reel (IsKept db) _ _ _ λ c. After-last (IsKept db) (add_job _) _ (
            After-add_job (IsKept db) pure _ _ λ new.
              retried db inv job reel job_there reel_there of_reel is_held reason now
                (waiting_again reason reel) retry_id refl refl (and-true retryable _ more).1 c
                new.1))
          (λ _. After-last (IsKept db) (save_reel _) _ (
            After-save_reel (IsKept db) pure _ _ λ c.
              given_up db inv job reel job_there reel_there of_reel is_held reason now
                (failed_reel now _ reel) refl refl c))

  abbrev pub Recovered : Db → Type 0
  Recovered db' = IsKept db db' × OthersSame job.id db.jobs db'.jobs

  pub After-recover_row : After Recovered (recover_row now retry_id job reel db)
  unfolding recover_row
  After-recover_row =
      let reason = some (reason_value ReasonCode.stale_lease_recovered) in
      After-save_job Recovered _ _ db λ _.
        After-if Recovered (ltb job.attempt_count max_normalization_attempts) _ _ _
          (λ more. After-save_reel Recovered _ _ _ λ c. After-last Recovered (add_job _) _ (
            After-add_job Recovered pure _ _ λ new. (
              retried db inv job reel job_there reel_there of_reel is_held reason now
                  (record reel { pipeline_status = ReelPipelineStatus.source_ready }) retry_id refl
                  refl more c new.1,
              OthersSame-cons job.id _ _ _ new.1 (OthersSame-put _ db.jobs),
            )))
          (λ _. After-last Recovered (save_reel _) _ (
            After-save_reel Recovered pure _ _ λ c. (
              given_up db inv job reel job_there reel_there of_reel is_held reason now
                  (failed_reel now retry_exhausted_code reel) refl refl c,
              OthersSame-put _ db.jobs,
            )))
