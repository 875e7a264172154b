-- ===== src/Pipeline/Invariant/Rows.antt =====
-- Facts about rows, and rules for steps of a transaction, that the proofs share.
use offline_reels.Base.{refl, ℕ, Option, List, ◌≡◌, true, some, subst, and-true, sym, none, arith}
use mathlib.Core.Path.{subst₂}
use offline_reels.Base.Table.{find, key-find}
use offline_reels.Pipeline.Transaction.{Tx, ◌>>=◌, reel_admitted}
use offline_reels.Pipeline.After.{After}
use offline_reels.Pipeline.Schema.{Db, Reel, reel_key, reel_checks, Job, job_key}
use offline_reels.Pipeline.Invariant.{
  Consistent, IsKept, reel_key, reel_checks, Job, reel_of, job_key, NormalizationJobStatus,
  SameReels, IsConsistent,
}
use offline_reels.Pipeline.Normalizer.{required, ClaimedNormalizationJob, Worker, owned_rows}
use offline_reels.Domain.Statuses.{NormalizationJobStatus}

pub reel_admitted-checks :
    (r : Reel) (reels : List Reel) → reel_admitted r reels ≡ true → reel_checks r ≡ true
unfolding reel_admitted
reel_admitted-checks r reels h = (and-true (reel_checks r) _ h).0

pub After-required :
    {A B : Type 0} (P : Db → Type 0) (k : A → Tx B) (o : Option A) (db : Db)
    → ((a : A) → o ≡ some a → After P (k a db))
    → After P ((required o >>= k) db)
After-required P k none db h = tt
After-required P k (some a) db h = h a refl

pub IsKept-refl : (db : Db) → Consistent db → IsKept db db
IsKept-refl db inv = record { consistent = inv; same_reels = λ k r h. h }

-- A row is found by its own key.
pub found_itself :
    (k : ℕ) (reels : List Reel) (r : Reel)
    → find reel_key k reels ≡ some r
    → (find reel_key r.id reels ≡ some r) × (k ≡ r.id)
found_itself k reels r h =
    let e = key-find reel_key k reels r h in
    (subst (λ t. find reel_key t reels ≡ some r) (sym e) h, sym e)

pub IsKept-trans : (a b c : Db) → IsKept a b → IsKept b c → IsKept a c
IsKept-trans a b c h k = record {
  consistent = k.consistent;
  same_reels = λ i r e. k.same_reels i r (h.same_reels i r e);
}

-- What a worker remembers of a claim is what the row says.
abbrev pub Holds : ClaimedNormalizationJob → List Job → Type 0
Holds claimed jobs = reel_of claimed.job_id jobs ≡ some claimed.reel_id

-- The rows of an owned claim.
pub record IsOwned (reels : List Reel) (jobs : List Job) (job : Job) (reel : Reel) : Type 0 where
  pub job_there : find job_key job.id jobs ≡ some job
  pub reel_there : find reel_key reel.id reels ≡ some reel
  pub of_reel : job.reel_id ≡ reel.id
  pub is_held : job.status ≡ NormalizationJobStatus.running

pub owned_rows-IsOwned :
    (w : Worker) (claimed : ClaimedNormalizationJob) (db : Db) (job : Job) (reel : Reel)
    → Holds claimed db.jobs
    → owned_rows w claimed db ≡ some (job, reel)
    → IsOwned db.reels db.jobs job reel
owned_rows-IsOwned w claimed db job reel holds e = record {
  job_there = subst (λ k. find job_key k db.jobs ≡ some job) (sym job_same) job_found;
  reel_there = subst (λ k. find reel_key k db.reels ≡ some reel) (sym reel_same) reel_found;
  of_reel = ground (arith, holds, job_found, reel_same);
  is_held = ground arith;
}
  where
    job_found : find job_key claimed.job_id db.jobs ≡ some job
    job_found = ground arith

    reel_found : find reel_key claimed.reel_id db.reels ≡ some reel
    reel_found = ground arith

    job_same : job.id ≡ claimed.job_id
    job_same = key-find job_key claimed.job_id db.jobs job job_found

    reel_same : reel.id ≡ claimed.reel_id
    reel_same = key-find reel_key claimed.reel_id db.reels reel reel_found

-- Reels and jobs are as they were.
abbrev pub SameTables : Db → Db → Type 0
SameTables db db' = (db.reels ≡ db'.reels) × (db.jobs ≡ db'.jobs)

pub IsKept-after : (a b c : Db) → SameTables a b → IsKept b c → IsKept a c
IsKept-after a b c same k = record {
  consistent = k.consistent;
  same_reels = subst (λ l. SameReels l c.jobs) (sym same.1) k.same_reels;
}

pub IsKept-same : (a b c : Db) → IsKept a b → SameTables b c → IsKept a c
IsKept-same a b c k same = record {
  consistent = subst₂ IsConsistent same.0 same.1 k.consistent;
  same_reels = subst (SameReels a.jobs) same.1 k.same_reels;
}
