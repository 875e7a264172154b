-- ===== src/Examples/Attempts.antt =====
-- One Reel through the Collector's and a worker's transactions, and the theorems on the way.
use offline_reels.Base.{refl, ◌≡◌, ◌+◌, some, ℕ, String, false, ◌∷◌, count_if, [], Bool, arith}
use offline_reels.Pipeline.Persistence.{
  ReelCandidate, ValidatedSource, create_run, commit_source, pending_job, sourced, discovered_reel,
  cancel_run, complete_run, claim_queued_run, fail_run, record_failure, commit_available,
}
use offline_reels.Pipeline.Normalizer.{
  claim, Worker, ClaimedNormalizationJob, finish_failure, commit_ready, reconcile, recover_row,
  Output, claimed_job, normalizing_reel,
}
use offline_reels.Pipeline.System.{System, Reach, Step, after, initial}
use offline_reels.Pipeline.Schema.{
  Db, is_pending, is_running, Job, Reel, job_key, Run, run_key, reel_columns,
}
use offline_reels.Pipeline.Transaction.{
  committed, ok, run_admitted, reel_admitted, job_admitted, item_admitted, err, worker_cancelled,
  ◌>>=◌,
}
use offline_reels.Base.Select.{select_first}
use offline_reels.Pipeline.Invariant.{Consistent}
use offline_reels.Pipeline.System.Safety.{Reach-Consistent}
use mathlib.Core.Option
use offline_reels.Pipeline.Counters.{RunsCounted, Counted, collection-RunsCounted}
use offline_reels.Base.Table.{find, put, IsKeyed}
use offline_reels.Pipeline.Claiming.{IsOldest, claim-IsOldest, recovered_claim_lost}
use offline_reels.Domain.Reasons.{ReasonCode}
use offline_reels.Pipeline.RunStatus.{RunsFollow, run_changes-RunsFollow}
use offline_reels.Domain.Statuses.{CollectionTrigger, CollectionRunStatus}
use offline_reels.Pipeline.Accounts.{any_row, account_has_durable_reel, account_durable_count}
use offline_reels.Pipeline.Accounts.Ownership.{
  HasOwnShortcodes, account_durable_count-has_durable_reel,
}

abbrev candidate : ReelCandidate
candidate = record {
  shortcode = "DAbc123";
  canonical_url = "https://www.instagram.com/reel/DAbc123/";
}

abbrev source : ValidatedSource
source = record {
  sha256 = "5f00000000000000000000000000000000000000000000000000000000000000";
  byte_size = 900;
}

abbrev worker : Worker
worker = record {
  worker_id = "worker-1";
  lease_microseconds = 60;
  staging_prefix = λ job attempt. "staging";
}

unfoldable started : System
unfolding after create_run
started = after initial (create_run 1 7 CollectionTrigger.manual 5 100)

unfoldable sourced_once : System
unfolding after commit_source started
sourced_once = after started (commit_source 1 candidate source "sources/a" 10 20 101)

abbrev claimed : ClaimedNormalizationJob
claimed = record {
  job_id = 20;
  reel_id = 10;
  shortcode = "DAbc123";
  source_object_key = "sources/a";
  source_sha256 = "5f00000000000000000000000000000000000000000000000000000000000000";
  source_byte_size = 900;
  attempt_count = 1;
  staging_prefix = "staging";
}

unfoldable held : Db
unfolding claim sourced_once
held = committed sourced_once.db (claim worker (λ _. false) 200 sourced_once.db)

held-claim : claim worker (λ _. false) 200 sourced_once.db ≡ ok (some claimed, held)
unfolding held claim select_first run_admitted find reel_admitted job_admitted item_admitted put
    reel_columns
held-claim = refl

abbrev after_claim : System
after_claim = record { db = held; claims = claimed ∷ [] }

to_sourced : Reach initial sourced_once
unfolding sourced_once started
to_sourced =
    Reach.next (Reach.next Reach.here (Step.create_run 1 7 CollectionTrigger.manual 5 100 refl))
      (Step.commit_source 1 candidate source "sources/a" 10 20 101 refl)

to_claimed : Reach initial after_claim
unfolding sourced_once
to_claimed = Reach.next to_sourced (Step.claim worker (λ _. false) 200 claimed held held-claim refl)

unfoldable recovered_once : System
unfolding after reconcile
recovered_once = after after_claim (reconcile (λ _. false) (λ j. j.id + 1) 300)

to_recovered : Reach initial recovered_once
unfolding recovered_once
to_recovered = Reach.next to_claimed (Step.reconcile (λ _. false) (λ j. j.id + 1) 300 refl)

Reach-Consistent_example : Consistent recovered_once.db
Reach-Consistent_example = Reach-Consistent to_recovered

-- The recovered claim gave its Reel back, and its job is failed.
recovered_once-db :
    (count_if (is_pending 10) recovered_once.db.jobs ≡ 1)
    × (count_if (is_running 10) recovered_once.db.jobs ≡ 0)
unfolding recovered_once reconcile count_if held select_first run_admitted find reel_admitted
    job_admitted item_admitted put reel_columns
recovered_once-db = (refl, refl)

sourced_once-Consistent : Consistent sourced_once.db
sourced_once-Consistent = Reach-Consistent to_sourced

claim-IsOldest_example : IsOldest worker (λ _. false) sourced_once.db held claimed
claim-IsOldest_example =
    claim-IsOldest worker (λ _. false) 200 sourced_once.db held sourced_once-Consistent claimed
      held-claim

abbrev running_job : Job
running_job = claimed_job worker 200 (pending_job 20 10 0 101)

abbrev reel : Reel
reel = normalizing_reel (sourced source "sources/a" 101 (discovered_reel 10 candidate 101))

unfoldable freed : Db
unfolding recover_row held
freed = committed held (recover_row 300 21 running_job reel held)

held-job : find job_key 20 held.jobs ≡ some running_job
unfolding held select_first run_admitted find reel_admitted job_admitted item_admitted put
    reel_columns
held-job = refl

held-freed : recover_row 300 21 running_job reel held ≡ ok (tt, freed)
unfolding freed held recover_row select_first run_admitted find reel_admitted job_admitted
    item_admitted put reel_columns
held-freed = refl

recovered_claim_lost_example :
    ((out : Output) (video_id later : ℕ)
      → commit_ready worker claimed out video_id later freed ≡ err worker_cancelled)
    × ((reason : ReasonCode) (retryable : Bool) (later new_id : ℕ)
        → finish_failure worker claimed reason retryable later new_id freed ≡ ok (tt, freed))
recovered_claim_lost_example =
    recovered_claim_lost worker claimed running_job reel held freed 300 21 held-job refl held-freed

started-IsKeyed : IsKeyed run_key started.db.runs
unfolding started find run_admitted
started-IsKeyed = (refl, tt)

run_changes-RunsFollow_example :
    ((account : ℕ) (locked : Run → Bool)
      → RunsFollow started.db
          (committed started.db (claim_queued_run account locked 300 started.db)))
    × ((run : ℕ) (reason : String)
        → RunsFollow started.db (committed started.db (fail_run run reason 300 started.db)))
    × ((run : ℕ) (reason : String)
        → RunsFollow started.db (committed started.db (cancel_run run reason 300 started.db)))
run_changes-RunsFollow_example = run_changes-RunsFollow started.db 300 started-IsKeyed

-- A cancelled run that `complete_run` reaches is completed.
unfoldable overwritten : Db
unfolding cancel_run complete_run started
overwritten =
    committed started.db ((cancel_run 1 "AUTH_REQUIRED" 300 >>= λ _. complete_run 1 400) started.db)

overwritten-status :
    Option.map (λ r. r.status) (find run_key 1 overwritten.runs)
    ≡ some CollectionRunStatus.completed
unfolding overwritten find put run_admitted
overwritten-status = refl

started-RunsCounted : RunsCounted started.db.items started.db.runs
unfolding started find run_admitted count_if
started-RunsCounted k r h o = ground arith

collection-RunsCounted_example :
    ((run_id : ℕ) (candidate : ReelCandidate) (source : ValidatedSource) (object_key : String)
        (reel_id job_id now : ℕ)
      → Counted (
          committed started.db
            (commit_source run_id candidate source object_key reel_id job_id now started.db)))
    × ((run_id : ℕ) (candidate : ReelCandidate) (reason : String) (attempted : Bool)
          (reel_id now : ℕ)
        → Counted (
            committed started.db
              (record_failure run_id candidate reason attempted reel_id now started.db)))
    × ((run_id : ℕ) (candidate : ReelCandidate) (now : ℕ)
        → Counted (committed started.db (commit_available run_id candidate now started.db)))
collection-RunsCounted_example = collection-RunsCounted started.db started-RunsCounted

sourced_once-HasOwnShortcodes : HasOwnShortcodes sourced_once.db.reels
unfolding sourced_once after commit_source started create_run find put run_admitted reel_admitted
    reel_columns job_admitted item_admitted any_row
sourced_once-HasOwnShortcodes = (refl, tt)

-- The account owns the one Reel that it has acquired.
owns_one : account_durable_count 7 sourced_once.db ≡ 1
unfolding account_durable_count sourced_once after commit_source started create_run find put
    run_admitted reel_admitted reel_columns job_admitted item_admitted any_row count_if
owns_one = refl

account_durable_count-has_durable_reel_example :
    account_durable_count 7 sourced_once.db
    ≡ count_if
        (λ reel. account_has_durable_reel 7 reel.shortcode sourced_once.db)
        sourced_once.db.reels
account_durable_count-has_durable_reel_example =
    account_durable_count-has_durable_reel 7 sourced_once.db sourced_once-HasOwnShortcodes
