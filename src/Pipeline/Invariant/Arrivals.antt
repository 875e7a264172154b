-- ===== src/Pipeline/Invariant/Arrivals.antt =====
-- A Reel arrives, changes without a job, or gets its first waiting job.
use offline_reels.Base.Table.{find, put, find-put, IsKeyed-put, find-put_all, find-cons_all}
use offline_reels.Domain.Statuses.{ReelPipelineStatus, reel_eq, NormalizationJobStatus}
use offline_reels.Base.{List, ◌==◌, ◌≡◌, false, none, some, true, ◌∷◌, arith, count_if-cons}
use offline_reels.Pipeline.Schema.{Reel, Job, reel_key, reel_checks, job_key}
use offline_reels.Pipeline.Invariant.{IsConsistent, reel_key, reel_checks, job_key, AttemptsFit}

abbrev pub Idle : ReelPipelineStatus → Type 0
Idle s =
    ((s == ReelPipelineStatus.source_ready) ≡ false)
    × ((s == ReelPipelineStatus.normalizing) ≡ false)

module _ {reels : List Reel} {jobs : List Job} (inv : IsConsistent reels jobs) where
  module _ (r : Reel) (new : find reel_key r.id reels ≡ none) (is_idle : Idle r.pipeline_status)
      (checked : reel_checks r ≡ true) where
    pub arrive-IsConsistent : IsConsistent (r ∷ reels) jobs
    unfolding find
    arrive-IsConsistent = record {
      reels_keyed = (new, inv.reels_keyed);
      jobs_keyed = inv.jobs_keyed;
      waiting = λ k. ground (arith, inv.waiting k);
      held = λ k. ground (arith, inv.held k);
      attempts = inv.attempts;
      checks = find-cons_all reel_key (λ p. reel_checks p ≡ true) r reels checked inv.checks;
    }

  module _ (r r' : Reel) (reel_there : find reel_key r'.id reels ≡ some r)
      (was_idle : Idle r.pipeline_status) (checked : reel_checks r' ≡ true) where
    pub settle-IsConsistent : Idle r'.pipeline_status → IsConsistent (put reel_key r' reels) jobs
    settle-IsConsistent is_idle = record {
      reels_keyed = IsKeyed-put reel_key r' reels inv.reels_keyed;
      jobs_keyed = inv.jobs_keyed;
      waiting = λ k. ground (arith, inv.waiting k, find-put reel_key r' k reels);
      held = λ k. ground (arith, inv.held k, find-put reel_key r' k reels);
      attempts = inv.attempts;
      checks = find-put_all reel_key (λ p. reel_checks p ≡ true) r' reels checked inv.checks;
    }

    module _ (q : Job) (new : find job_key q.id jobs ≡ none) (for_reel : q.reel_id ≡ r'.id)
        (waits : q.status ≡ NormalizationJobStatus.pending) (fits : AttemptsFit q)
        (is_ready : r'.pipeline_status ≡ ReelPipelineStatus.source_ready) where
      pub source-IsConsistent : IsConsistent (put reel_key r' reels) (q ∷ jobs)
      source-IsConsistent = record {
        reels_keyed = IsKeyed-put reel_key r' reels inv.reels_keyed;
        jobs_keyed = (new, inv.jobs_keyed);
        waiting =
            λ k. rw count_if-cons (ground (arith, inv.waiting k, find-put reel_key r' k reels));
        held = λ k. rw count_if-cons (ground (arith, inv.held k, find-put reel_key r' k reels));
        attempts = find-cons_all job_key AttemptsFit q jobs fits inv.attempts;
        checks = find-put_all reel_key (λ p. reel_checks p ≡ true) r' reels checked inv.checks;
      }
