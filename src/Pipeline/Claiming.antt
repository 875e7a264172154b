-- ===== src/Pipeline/Claiming.antt =====
-- What `claim` promises on consistent tables, and what a lost claim can still do.
use mathlib.Core.Option
use offline_reels.Base.{
  refl, Bool, ℕ, ◌≡◌, some, true, Option-cases, ◌≤◌, inl, ◌+◌, arith, false, inr, subst, ◌==◌, none,
  sym, ap, ◌∙◌,
}
use offline_reels.Base.Table.{find, find-put, put}
use offline_reels.Base.Select.{select_first, select_first-find, select_first-earliest, before}
use offline_reels.Pipeline.Transaction.{ok, err, worker_cancelled, save_job, save_reel, add_job}
use offline_reels.Pipeline.Normalizer.{
  claim, Worker, commit_ready, finish_failure, ClaimedNormalizationJob, is_waiting, recover_row,
  max_normalization_attempts, Output, claim_row, closed_job, owned_rows, claimed_job, finish_rows,
}
use offline_reels.Pipeline.Schema.{Job, Reel, Db, job_key, reel_key}
use offline_reels.Pipeline.Invariant.{Consistent}
use offline_reels.Domain.Reasons.{ReasonCode, reason_value}
use offline_reels.Domain.Statuses.{NormalizationJobStatus, job_eq, ReelPipelineStatus, reel_eq}
use offline_reels.Pipeline.Invariant.Claims.{claim_row-returns}

module _ (w : Worker) (locked : Job → Bool) (now : ℕ) (db db' : Db) (inv : Consistent db) where
  -- The job of a returned claim: the row, the Reel and the selection behind it.
  record IsClaimOf (c : ClaimedNormalizationJob) : Type 0 where
    job : Job
    reel : Reel
    chosen :
        select_first (λ j. j.created_at) job_key (is_waiting db.reels locked) db.jobs ≡ some job
    there : find job_key job.id db.jobs ≡ some job
    waits : is_waiting db.reels locked job ≡ true
    reel_found : find reel_key job.reel_id db.reels ≡ some reel
    same_job : c.job_id ≡ job.id
    attempt : c.attempt_count ≡ job.attempt_count + 1
    after : db'.jobs ≡ put job_key (claimed_job w now job) db.jobs

  claimed_from :
      (c : ClaimedNormalizationJob) → claim w locked now db ≡ ok (some c, db') → IsClaimOf c
  unfolding claim
  claimed_from c h =
      elim (Option-cases
        (select_first (λ j. j.created_at) job_key (is_waiting db.reels locked) db.jobs)) [
          | inl e ↦ absurd (ground arith)
          | inr (job, e) ↦ elim (Option-cases (find reel_key job.reel_id db.reels)) [
            | inl f ↦ absurd (ground arith)
            | inr (reel, f) ↦
                let (there, waits) =
                  select_first-find (λ j. j.created_at) job_key (is_waiting db.reels locked) db.jobs
                    job inv.jobs_keyed e in
                let returned : claim_row w now job reel db ≡ ok (some c, db') = ground arith in
                let r = claim_row-returns w now job reel db db' c returned in
                record {
                  job = job;
                  reel = reel;
                  chosen = e;
                  there = there;
                  waits = waits;
                  reel_found = f;
                  same_job = r.0;
                  attempt = r.2;
                  after = r.3;
                }
          ]
        ]

-- What may be claimed: a pending job whose row is not locked, and whose Reel's source is ready.
pub record IsEligible (locked : Job → Bool) (db : Db) (job : Job) (reel : Reel) : Type 0 where
  pub pending : job.status ≡ NormalizationJobStatus.pending
  pub free : locked job ≡ false
  pub reel_found : find reel_key job.reel_id db.reels ≡ some reel
  pub source_ready : reel.pipeline_status ≡ ReelPipelineStatus.source_ready

-- The job behind a claim, before it in `db` and after it in `db'`.
pub record IsOldest (w : Worker) (locked : Job → Bool) (db db' : Db) (c : ClaimedNormalizationJob)
    : Type 0 where
  pub job : Job
  pub reel : Reel
  pub found : find job_key c.job_id db.jobs ≡ some job
  pub eligible : IsEligible locked db job reel
  pub oldest :
      (k : ℕ) (other : Job) (r : Reel)
      → find job_key k db.jobs ≡ some other
      → IsEligible locked db other r
      → before (λ j. j.created_at) job_key other job ≡ false
  pub attempt : c.attempt_count ≡ job.attempt_count + 1
  pub within : c.attempt_count ≤ max_normalization_attempts
  pub running :
      Option.map (λ j. j.status) (find job_key c.job_id db'.jobs)
      ≡ some NormalizationJobStatus.running
  pub owner :
      Option.map (λ j. j.worker_id) (find job_key c.job_id db'.jobs) ≡ some (some w.worker_id)
  pub counted :
      Option.map (λ j. j.attempt_count) (find job_key c.job_id db'.jobs) ≡ some c.attempt_count

waiting-IsEligible :
    (locked : Job → Bool) (db : Db) (job : Job) (reel : Reel)
    → find reel_key job.reel_id db.reels ≡ some reel
    → is_waiting db.reels locked job ≡ true
    → IsEligible locked db job reel
waiting-IsEligible locked db job reel f h = record {
  pending = ground (arith, job_eq.equal_iff job.status NormalizationJobStatus.pending);
  free = ground arith;
  reel_found = f;
  source_ready =
      ground (arith, reel_eq.equal_iff reel.pipeline_status ReelPipelineStatus.source_ready);
}

IsEligible-waiting :
    (locked : Job → Bool) (db : Db) (job : Job) (reel : Reel)
    → IsEligible locked db job reel
    → is_waiting db.reels locked job ≡ true
IsEligible-waiting locked db job reel e =
    ground (arith, e.pending, e.free, e.reel_found, e.source_ready)

-- On consistent tables a claim that is returned is for a job that was pending, in a row that was not
-- locked, with its Reel's source ready, and no other such job is older. It is the next attempt of
-- the job and the third at most, and the job's row afterwards is running, for this worker and with
-- that count of attempts.
pub claim-IsOldest :
    (w : Worker) (locked : Job → Bool) (now : ℕ) (db db' : Db)
    → Consistent db
    → (c : ClaimedNormalizationJob) → claim w locked now db ≡ ok (some c, db')
    → IsOldest w locked db db' c
claim-IsOldest w locked now db db' inv c h = record {
  job = from.job;
  reel = from.reel;
  found = same_key;
  eligible = waiting-IsEligible locked db from.job from.reel from.reel_found from.waits;
  oldest = λ k other r there e.
      select_first-earliest (λ j. j.created_at) job_key (is_waiting db.reels locked) db.jobs
        from.job k other from.chosen there (IsEligible-waiting locked db other r e);
  attempt = from.attempt;
  within = ground (arith, inv.attempts from.job.id from.job from.there, from.attempt, from.waits);
  running = ap (Option.map (λ j. j.status)) written;
  owner = ap (Option.map (λ j. j.worker_id)) written;
  counted = ap (Option.map (λ j. j.attempt_count)) written ∙ ap some (sym from.attempt);
}
  where
    from : IsClaimOf w locked now db db' inv c
    from = claimed_from w locked now db db' inv c h

    same_key : find job_key c.job_id db.jobs ≡ some from.job
    same_key = ground (arith, from.same_job, from.there)

    written : find job_key c.job_id db'.jobs ≡ some (claimed_job w now from.job)
    written = ground (
      arith,
      from.same_job,
      from.there,
      from.after,
      find-put job_key (claimed_job w now from.job) c.job_id db.jobs,
    )

abbrev recovered : ℕ → Job → Job
recovered now job =
    closed_job NormalizationJobStatus.failed (some (reason_value ReasonCode.stale_lease_recovered))
      now job

recover_row-job :
    (job : Job) (reel : Reel) (db db' : Db) (now retry_id : ℕ)
    → find job_key job.id db.jobs ≡ some job
    → recover_row now retry_id job reel db ≡ ok (tt, db')
    → find job_key job.id db'.jobs ≡ some (recovered now job)
unfolding recover_row save_job save_reel add_job find
recover_row-job job reel db db' now retry_id there h = ground (
  arith,
  find-put job_key (recovered now job) job.id db.jobs,
  find-put job_key (recovered now job) retry_id db.jobs,
)

not_owned :
    (w : Worker) (c : ClaimedNormalizationJob) (job : Job) (db : Db)
    → find job_key c.job_id db.jobs ≡ some job
    → (job.status == NormalizationJobStatus.running) ≡ false
    → owned_rows w c db ≡ none
not_owned w c job db h k = ground arith

-- A worker whose claim `reconcile` has recovered, from a row that the table holds, can neither
-- publish nor fail the job in the tables that the recovery leaves: its commit raises and its
-- failure writes nothing.
pub recovered_claim_lost :
    (w : Worker) (c : ClaimedNormalizationJob) (job : Job) (reel : Reel) (db db' : Db)
    (now retry_id : ℕ)
    → find job_key job.id db.jobs ≡ some job
    → c.job_id ≡ job.id
    → recover_row now retry_id job reel db ≡ ok (tt, db')
    → ((out : Output) (video_id later : ℕ)
        → commit_ready w c out video_id later db' ≡ err worker_cancelled)
      × ((reason : ReasonCode) (retryable : Bool) (later new_id : ℕ)
          → finish_failure w c reason retryable later new_id db' ≡ ok (tt, db'))
unfolding commit_ready finish_failure finish_rows
recovered_claim_lost w c job reel db db' now retry_id there same h = (
  λ out video_id later. ground (arith, lost),
  λ reason retryable later new_id. ground (arith, lost),
)
  where
    lost : owned_rows w c db' ≡ none
    lost =
        not_owned w c (recovered now job) db'
          (subst (λ k. find job_key k db'.jobs ≡ some (recovered now job)) (sym same)
            (recover_row-job job reel db db' now retry_id there h))
          refl
