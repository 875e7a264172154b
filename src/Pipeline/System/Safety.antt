-- ===== src/Pipeline/System/Safety.antt =====
-- Every reachable database is consistent, and no remembered claim is out of date.
use mathlib.Core.List.{Memᴰ}
use offline_reels.Base.{
  refl, [], ◌∷◌, List, subst, sym, Bool, count_if, ℕ, arith, Option, ◌≡◌, some, none,
}
use offline_reels.Pipeline.Transaction.{ok, Tx, committed}
use offline_reels.Pipeline.Normalizer.{ClaimedNormalizationJob, Worker, claim}
use offline_reels.Pipeline.System.{System, after, Step, Reach, next, initial, here}
use offline_reels.Pipeline.Schema.{Job, Db}
use offline_reels.Pipeline.Invariant.{Consistent, SameReels, IsKept}
use offline_reels.Pipeline.Invariant.Rows.{Holds, SameTables, IsKept-refl, IsKept-same}
use offline_reels.Pipeline.After.{After, After-committed, After-mono}
use offline_reels.Base.Table.{find}
use offline_reels.Pipeline.Invariant.Runs.{
  After-create_run, After-claim_queued_run, After-fail_run, After-cancel_run, After-complete_run,
}
use offline_reels.Pipeline.Invariant.Collection.{
  After-commit_available, After-commit_source, After-record_failure,
}
use offline_reels.Pipeline.Invariant.Claims.{claim-Holds, After-claim}
use offline_reels.Pipeline.Invariant.Recovery.{After-finish_failure, After-reconcile}
use offline_reels.Pipeline.Invariant.Commits.{After-commit_ready}

abbrev pub AllHold : List ClaimedNormalizationJob → List Job → Type 0
AllHold [] jobs = Unit
AllHold (c ∷ cs) jobs = Holds c jobs × AllHold cs jobs

pub record IsSafe (s : System) : Type 0 where
  pub consistent : Consistent s.db
  pub claims_hold : AllHold s.claims s.db.jobs

AllHold-mem :
    (c : ClaimedNormalizationJob) {cs : List ClaimedNormalizationJob} (jobs : List Job)
    → Memᴰ c cs
    → AllHold cs jobs
    → Holds c jobs
AllHold-mem c jobs (Memᴰ.head e) h = subst (λ d. Holds d jobs) (sym e) h.0
AllHold-mem c jobs (Memᴰ.tail m) h = AllHold-mem c jobs m h.1

AllHold-kept :
    (cs : List ClaimedNormalizationJob) (jobs jobs' : List Job)
    → SameReels jobs jobs'
    → AllHold cs jobs
    → AllHold cs jobs'
AllHold-kept [] jobs jobs' same h = tt
AllHold-kept (c ∷ cs) jobs jobs' same h =
    (same c.job_id c.reel_id h.0, AllHold-kept cs jobs jobs' same h.1)

module _ (s : System) (safe : IsSafe s) where
  kept-IsSafe : (db' : Db) → IsKept s.db db' → IsSafe (record s { db = db' })
  kept-IsSafe db' k = record {
    consistent = k.consistent;
    claims_hold = AllHold-kept s.claims s.db.jobs db'.jobs k.same_reels safe.claims_hold;
  }

  after-IsSafe :
      {A : Type 0} (m : Tx A) {t : System} → t ≡ after s m → After (IsKept s.db) (m s.db) → IsSafe t
  unfolding after
  after-IsSafe m e h = subst IsSafe (sym e) (
      kept-IsSafe (committed s.db (m s.db))
        (After-committed (IsKept s.db) s.db (m s.db) (IsKept-refl s.db safe.consistent) h))

  same-IsSafe :
      {A : Type 0} (m : Tx A) {t : System}
      → t ≡ after s m
      → After (SameTables s.db) (m s.db)
      → IsSafe t
  same-IsSafe m e h = after-IsSafe m e (
      After-mono (SameTables s.db) (IsKept s.db) (m s.db)
        (λ db' same. IsKept-same s.db s.db db' (IsKept-refl s.db safe.consistent) same) h)

  claimed-IsSafe :
      (w : Worker) (locked : Job → Bool) (now : ℕ) (c : Option ClaimedNormalizationJob) (db' : Db)
      → claim w locked now s.db ≡ ok (c, db')
      → IsKept s.db db'
  claimed-IsSafe w locked now c db' e =
      subst (After (IsKept s.db)) e (After-claim w locked now s.db safe.consistent)

  pub Step-IsSafe : {t : System} → Step s t → IsSafe t
  Step-IsSafe (Step.create_run run account trigger target now e) =
      same-IsSafe _ e (After-create_run s.db run account trigger target now)
  Step-IsSafe (Step.claim_queued_run account locked now e) =
      same-IsSafe _ e (After-claim_queued_run s.db account locked now)
  Step-IsSafe (Step.commit_available run candidate now e) =
      after-IsSafe _ e (After-commit_available run candidate now s.db safe.consistent)
  Step-IsSafe (Step.commit_source run candidate source object_key reel_id job_id now e) =
      after-IsSafe _ e (
        After-commit_source run candidate source object_key reel_id job_id now s.db safe.consistent)
  Step-IsSafe (Step.record_failure run candidate reason attempted reel_id now e) =
      after-IsSafe _ e
        (After-record_failure run candidate reason attempted reel_id now s.db safe.consistent)
  Step-IsSafe (Step.fail_run run reason now e) =
      same-IsSafe _ e (After-fail_run s.db run reason now)
  Step-IsSafe (Step.cancel_run run reason now e) =
      same-IsSafe _ e (After-cancel_run s.db run reason now)
  Step-IsSafe (Step.complete_run run now e) = same-IsSafe _ e (After-complete_run s.db run now)
  Step-IsSafe (Step.claim w locked now c db' h e) =
      let k = claimed-IsSafe w locked now (some c) db' h in
      subst IsSafe (sym e) (record {
        consistent = k.consistent;
        claims_hold = (
          claim-Holds w locked now s.db db' c safe.consistent h,
          (kept-IsSafe db' k).claims_hold,
        );
      })
  Step-IsSafe (Step.claim_nothing w locked now db' h e) =
      subst IsSafe (sym e) (kept-IsSafe db' (claimed-IsSafe w locked now none db' h))
  Step-IsSafe (Step.finish_failure w c reason retryable now retry_id m e) = after-IsSafe _ e (
      After-finish_failure w c reason retryable now retry_id s.db safe.consistent
        (AllHold-mem c s.db.jobs m safe.claims_hold))
  Step-IsSafe (Step.commit_ready w c out video_id now m e) = after-IsSafe _ e (
      After-commit_ready w c out video_id now s.db safe.consistent
        (AllHold-mem c s.db.jobs m safe.claims_hold))
  Step-IsSafe (Step.reconcile locked retry_id now e) =
      after-IsSafe _ e (After-reconcile locked retry_id now s.db safe.consistent)

initial-IsSafe : IsSafe initial
unfolding find count_if
initial-IsSafe = record {
  consistent = record {
    reels_keyed = tt;
    jobs_keyed = tt;
    waiting = λ r. refl;
    held = λ r. refl;
    attempts = λ k j h. ground arith;
    checks = λ k r h. ground arith;
  };
  claims_hold = tt;
}

pub Reach-IsSafe : {s t : System} → IsSafe s → Reach s t → IsSafe t
Reach-IsSafe h here = h
Reach-IsSafe h (next {t = t} r e) = Step-IsSafe t (Reach-IsSafe h r) e

-- Whatever transactions of the Collector and the workers run, in any order, from empty tables: each
-- Reel with a ready source has exactly one waiting job and each Reel that is being normalized has
-- exactly one held job, no other Reel has either, every job has made at most three attempts, and
-- the stored Reels obey the checks of their table.
pub Reach-Consistent : {s : System} → Reach initial s → Consistent s.db
Reach-Consistent r = (Reach-IsSafe initial-IsSafe r).consistent
