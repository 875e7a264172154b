-- ===== src/Pipeline/Invariant/Moves.antt =====
-- One job and its Reel change together, and a new waiting job may follow.
use offline_reels.Base.Table.{
  find, put, find-put, IsKeyed-put, count_if-put, find-put_all, find-put-none, find-cons_all,
}
use offline_reels.Base.{
  List, ◌≡◌, some, true, if◌then◌else◌, ◌==◌, ◌+◌, ℕ, arith, count_if, none, ◌∷◌, count_if-cons,
}
use offline_reels.Pipeline.Schema.{
  Reel, Job, job_key, reel_key, reel_checks, is_pending, is_running,
}
use offline_reels.Pipeline.Invariant.{
  IsConsistent, job_key, reel_key, AttemptsFit, reel_checks, NormalizationJobStatus, is_pending,
  is_running, in_status, SameReels,
}
use offline_reels.Domain.Statuses.{NormalizationJobStatus, ReelPipelineStatus, job_eq, reel_eq}

pub SameReels-put :
    (j j' : Job) (jobs : List Job)
    → find job_key j'.id jobs ≡ some j
    → j'.reel_id ≡ j.reel_id
    → SameReels jobs (put job_key j' jobs)
SameReels-put j j' jobs there same k r h = ground (arith, find-put job_key j' k jobs)

pub SameReels-cons :
    (q : Job) (jobs : List Job) → find job_key q.id jobs ≡ none → SameReels jobs (q ∷ jobs)
unfolding find
SameReels-cons q jobs new k r h = ground arith

module _ {reels : List Reel} {jobs : List Job} (inv : IsConsistent reels jobs) (j j' : Job)
    (r r' : Reel) (job_there : find job_key j'.id jobs ≡ some j)
    (reel_there : find reel_key r'.id reels ≡ some r) (of_reel : j.reel_id ≡ r'.id)
    (still_of_reel : j'.reel_id ≡ r'.id) (fits : AttemptsFit j') (checked : reel_checks r' ≡ true)
    (running_balance : (if j'.status == NormalizationJobStatus.running then 1 else 0)
        + (if r.pipeline_status == ReelPipelineStatus.normalizing then 1 else 0)
      ≡ (if j.status == NormalizationJobStatus.running then 1 else 0)
        + (if r'.pipeline_status == ReelPipelineStatus.normalizing then 1 else 0)) where
  held_after :
      (k : ℕ)
      → count_if (is_running k) (put job_key j' jobs)
        ≡ in_status ReelPipelineStatus.normalizing (find reel_key k (put reel_key r' reels))
  held_after k = ground (
    arith,
    inv.held k,
    count_if-put job_key (is_running k) j' jobs j,
    find-put reel_key r' k reels,
  )

  module _
      (pending_balance : (if j'.status == NormalizationJobStatus.pending then 1 else 0)
          + (if r.pipeline_status == ReelPipelineStatus.source_ready then 1 else 0)
        ≡ (if j.status == NormalizationJobStatus.pending then 1 else 0)
          + (if r'.pipeline_status == ReelPipelineStatus.source_ready then 1 else 0)) where
    pub move-IsConsistent : IsConsistent (put reel_key r' reels) (put job_key j' jobs)
    move-IsConsistent = record {
      reels_keyed = IsKeyed-put reel_key r' reels inv.reels_keyed;
      jobs_keyed = IsKeyed-put job_key j' jobs inv.jobs_keyed;
      waiting = λ k. ground (
        arith,
        inv.waiting k,
        count_if-put job_key (is_pending k) j' jobs j,
        find-put reel_key r' k reels,
      );
      held = held_after;
      attempts = find-put_all job_key AttemptsFit j' jobs fits inv.attempts;
      checks = find-put_all reel_key (λ q. reel_checks q ≡ true) r' reels checked inv.checks;
    }

  module _ (q : Job) (new : find job_key q.id jobs ≡ none) (for_reel : q.reel_id ≡ r'.id)
      (waits : q.status ≡ NormalizationJobStatus.pending) (fits_too : AttemptsFit q)
      (pending_balance : (if j'.status == NormalizationJobStatus.pending then 1 else 0)
          + 1
          + (if r.pipeline_status == ReelPipelineStatus.source_ready then 1 else 0)
        ≡ (if j.status == NormalizationJobStatus.pending then 1 else 0)
          + (if r'.pipeline_status == ReelPipelineStatus.source_ready then 1 else 0)) where
    waiting_retry :
        (k : ℕ)
        → count_if (is_pending k) (q ∷ put job_key j' jobs)
          ≡ in_status ReelPipelineStatus.source_ready (find reel_key k (put reel_key r' reels))
    waiting_retry k = rw count_if-cons (
        ground (
          arith,
          inv.waiting k,
          count_if-put job_key (is_pending k) j' jobs j,
          find-put reel_key r' k reels,
        ))

    held_retry :
        (k : ℕ)
        → count_if (is_running k) (q ∷ put job_key j' jobs)
          ≡ in_status ReelPipelineStatus.normalizing (find reel_key k (put reel_key r' reels))
    held_retry k = rw count_if-cons (ground (arith, held_after k))

    pub retry-IsConsistent : IsConsistent (put reel_key r' reels) (q ∷ put job_key j' jobs)
    retry-IsConsistent = record {
      reels_keyed = IsKeyed-put reel_key r' reels inv.reels_keyed;
      jobs_keyed =
          (find-put-none job_key j' q.id jobs new, IsKeyed-put job_key j' jobs inv.jobs_keyed);
      waiting = waiting_retry;
      held = held_retry;
      attempts =
          find-cons_all job_key AttemptsFit q (put job_key j' jobs) fits_too
            (find-put_all job_key AttemptsFit j' jobs fits inv.attempts);
      checks = find-put_all reel_key (λ p. reel_checks p ≡ true) r' reels checked inv.checks;
    }
