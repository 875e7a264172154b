-- ===== src/Pipeline/Invariant/Recovery.antt =====
-- `_finish_failure` and `reconcile` keep the tables consistent.
use offline_reels.Base.{
  false, refl, List, ℕ, ◌∷◌, Bool, ◌≡◌, some, none, arith, [], if◌then◌else◌, true, Option,
}
use offline_reels.Base.Table.{find, IsKeyed}
use offline_reels.Pipeline.After.{After, After-option, After-bind, After-mono}
use offline_reels.Pipeline.Normalizer.{
  finish_failure, recover_all, Worker, ClaimedNormalizationJob, owned_rows, recover_row, select_all,
  reconcile, is_stale, finish_rows, or_return, is_sqlalchemy_error,
}
use offline_reels.Pipeline.Schema.{Job, Db, job_key, reel_key, Reel}
use offline_reels.Pipeline.Invariant.Failures.{OthersSame, After-fail_row, After-recover_row}
use offline_reels.Domain.Reasons.{ReasonCode}
use offline_reels.Pipeline.Invariant.{Consistent, IsKept, NormalizationJobStatus, reel_key, Reel}
use offline_reels.Pipeline.Invariant.Rows.{
  Holds, IsKept-refl, owned_rows-IsOwned, found_itself, IsKept-trans,
}
use offline_reels.Domain.Statuses.{NormalizationJobStatus}
use offline_reels.Pipeline.Transaction.{Result, ok, err}

After-or_return :
    (db : Db) (r : Result (Unit {0} × Db))
    → Consistent db
    → After (IsKept db) r
    → After (IsKept db) (or_return db r)
After-or_return db (ok r) inv h = h
After-or_return db (err e) inv h = by_error (is_sqlalchemy_error e)
  where
    by_error : (b : Bool) → After (IsKept db) (if b then ok (tt {0}, db) else err e)
    by_error true = IsKept-refl db inv
    by_error false = tt

pub After-finish_failure :
    (w : Worker) (claimed : ClaimedNormalizationJob) (reason : ReasonCode) (retryable : Bool)
    (now retry_id : ℕ) (db : Db)
    → Consistent db
    → Holds claimed db.jobs
    → After (IsKept db) (finish_failure w claimed reason retryable now retry_id db)
unfolding finish_failure finish_rows
After-finish_failure w claimed reason retryable now retry_id db inv holds =
    After-or_return db (finish_rows reason retryable now retry_id (owned_rows w claimed db) db) inv
      (by_rows (owned_rows w claimed db) refl)
  where
    by_rows :
        (rows : Option (Job × Reel))
        → owned_rows w claimed db ≡ rows
        → After (IsKept db) (finish_rows reason retryable now retry_id rows db)
    by_rows none e = IsKept-refl db inv
    by_rows (some (job, reel)) e =
        let own = owned_rows-IsOwned w claimed db job reel holds e in
        After-fail_row db inv job reel own.job_there own.reel_there own.of_reel own.is_held now
          retry_id reason retryable

-- Selected rows that the loop has not reached yet stand in the table as they were selected.
abbrev AreStale : List Job → List Job → Type 0
AreStale jobs [] = Unit
AreStale jobs (j ∷ js) =
    (find job_key j.id jobs ≡ some j)
    × (j.status ≡ NormalizationJobStatus.running)
    × (find job_key j.id js ≡ none)
    × AreStale jobs js

AreStale-others :
    (i : ℕ) (jobs jobs' js : List Job)
    → OthersSame i jobs jobs'
    → find job_key i js ≡ none
    → AreStale jobs js
    → AreStale jobs' js
unfolding find
AreStale-others i jobs jobs' [] same absent h = tt
AreStale-others i jobs jobs' (j ∷ js) same absent h = (
  same j.id j (λ e. ground arith) h.0,
  h.1,
  h.2,
  AreStale-others i jobs jobs' js same (ground arith) h.3,
)

After-recover_all :
    (now : ℕ) (retry_id : Job → ℕ) (stale : List Job) (db : Db)
    → Consistent db
    → AreStale db.jobs stale
    → After (IsKept db) (recover_all now retry_id stale db)
unfolding recover_all
After-recover_all now retry_id [] db inv h = IsKept-refl db inv
After-recover_all now retry_id (job ∷ stale) db inv h =
    After-option (IsKept db) (find reel_key job.reel_id db.reels) _ _ db
      (λ _. After-recover_all now retry_id stale db inv h.3)
      λ reel found.
        let (itself, same) = found_itself job.reel_id db.reels reel found in
        After-bind (λ db'. IsKept db db' × OthersSame job.id db.jobs db'.jobs) (IsKept db)
          (recover_row now (retry_id job) job reel) _ db
          (After-recover_row db inv job reel h.0 itself same h.1 now (retry_id job))
          λ _ db' kept.
            After-bind (IsKept db) (IsKept db) (recover_all now retry_id stale) _ db'
              (After-mono (IsKept db') (IsKept db) _ (λ c k. IsKept-trans db db' c kept.0 k)
                (After-recover_all now retry_id stale db' kept.0.consistent
                  (AreStale-others job.id db.jobs db'.jobs stale kept.1 h.2 h.3)))
              λ _ db'' k. k

AreStale-cons :
    (j : Job) (jobs js : List Job)
    → find job_key j.id jobs ≡ none
    → AreStale jobs js
    → AreStale (j ∷ jobs) js
unfolding find
AreStale-cons j jobs [] new h = tt
AreStale-cons j jobs (i ∷ js) new h =
    (ground (arith, h.0), h.1, h.2, AreStale-cons j jobs js new h.3)

find-head : (j : Job) (jobs : List Job) → find job_key j.id (j ∷ jobs) ≡ some j
unfolding find
find-head j jobs = ground arith

find-select_none :
    (p : Job → Bool) (k : ℕ) (jobs : List Job)
    → find job_key k jobs ≡ none
    → find job_key k (select_all p jobs) ≡ none
unfolding find select_all
find-select_none p k [] h = refl
find-select_none p k (j ∷ jobs) h = ground (arith, find-select_none p k jobs)

select_all-AreStale :
    (now : ℕ) (locked : Job → Bool) (jobs : List Job)
    → IsKeyed job_key jobs
    → AreStale jobs (select_all (is_stale now locked) jobs)
unfolding select_all
select_all-AreStale now locked [] h = tt
select_all-AreStale now locked (j ∷ jobs) h =
    selected (is_stale now locked j) refl
      (AreStale-cons j jobs _ h.0 (select_all-AreStale now locked jobs h.1))
  where
    selected :
        (b : Bool)
        → is_stale now locked j ≡ b
        → AreStale (j ∷ jobs) (select_all (is_stale now locked) jobs)
        → AreStale (j ∷ jobs) (
            if b
            then j ∷ select_all (is_stale now locked) jobs
            else select_all (is_stale now locked) jobs)
    selected true e rest =
        (find-head j jobs, ground arith, find-select_none (is_stale now locked) j.id jobs h.0, rest)
    selected false e rest = rest

pub After-reconcile :
    (locked : Job → Bool) (retry_id : Job → ℕ) (now : ℕ) (db : Db)
    → Consistent db
    → After (IsKept db) (reconcile locked retry_id now db)
unfolding reconcile
After-reconcile locked retry_id now db inv =
    After-recover_all now retry_id (select_all (is_stale now locked) db.jobs) db inv
      (select_all-AreStale now locked db.jobs inv.jobs_keyed)
