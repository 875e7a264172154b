-- ===== src/Pipeline/System.antt =====
-- The Collector and any number of workers on one database: each step is one transaction, with any
-- arguments, clock, new UUIDs and locked rows.
pub mod Safety
use mathlib.Core.List.{Memᴰ}
use offline_reels.Pipeline.Persistence
use offline_reels.Pipeline.Normalizer
use offline_reels.Base.{refl, [], ◌∷◌, List, ℕ, ◌≡◌, Bool, String, some, none}
use offline_reels.Pipeline.Transaction.{Result, ok, err, Tx, committed}
use offline_reels.Pipeline.Schema.{Db, Run, Job}
use offline_reels.Pipeline.Normalizer.{ClaimedNormalizationJob, Worker, Output}
use offline_reels.Pipeline.Persistence.{ReelCandidate, ValidatedSource}
use offline_reels.Domain.Reasons.{ReasonCode}
use offline_reels.Domain.Statuses.{CollectionTrigger}

-- The database, and the claims that workers remember.
pub record System : Type 0 where
  pub db : Db
  pub claims : List ClaimedNormalizationJob

unfoldable pub after : {A : Type 0} → System → Tx A → System
after s m = record s { db = committed s.db (m s.db) }

-- `t` is what `s` becomes.
pub data Step (s t : System) : Type 0 where
  create_run :
      (run account : ℕ) (trigger : CollectionTrigger) (target now : ℕ)
      → t ≡ after s (Persistence.create_run run account trigger target now)
      → Step s t
  claim_queued_run :
      (account : ℕ) (locked : Run → Bool) (now : ℕ)
      → t ≡ after s (Persistence.claim_queued_run account locked now)
      → Step s t
  commit_available :
      (run : ℕ) (candidate : ReelCandidate) (now : ℕ)
      → t ≡ after s (Persistence.commit_available run candidate now)
      → Step s t
  commit_source :
      (run : ℕ) (candidate : ReelCandidate) (source : ValidatedSource) (object_key : String)
      (reel_id job_id now : ℕ)
      → t ≡ after s (Persistence.commit_source run candidate source object_key reel_id job_id now)
      → Step s t
  record_failure :
      (run : ℕ) (candidate : ReelCandidate) (reason : String) (attempted : Bool) (reel_id now : ℕ)
      → t ≡ after s (Persistence.record_failure run candidate reason attempted reel_id now)
      → Step s t
  fail_run :
      (run : ℕ) (reason : String) (now : ℕ)
      → t ≡ after s (Persistence.fail_run run reason now)
      → Step s t
  cancel_run :
      (run : ℕ) (reason : String) (now : ℕ)
      → t ≡ after s (Persistence.cancel_run run reason now)
      → Step s t
  complete_run : (run now : ℕ) → t ≡ after s (Persistence.complete_run run now) → Step s t
  claim :
      (w : Worker) (locked : Job → Bool) (now : ℕ) (c : ClaimedNormalizationJob) (db' : Db)
      → Normalizer.claim w locked now s.db ≡ ok (some c, db')
      → t ≡ record { db = db'; claims = c ∷ s.claims }
      → Step s t
  claim_nothing :
      (w : Worker) (locked : Job → Bool) (now : ℕ) (db' : Db)
      → Normalizer.claim w locked now s.db ≡ ok (none, db')
      → t ≡ record s { db = db' }
      → Step s t
  finish_failure :
      (w : Worker) (c : ClaimedNormalizationJob) (reason : ReasonCode) (retryable : Bool)
      (now retry_id : ℕ)
      → Memᴰ c s.claims
      → t ≡ after s (Normalizer.finish_failure w c reason retryable now retry_id)
      → Step s t
  commit_ready :
      (w : Worker) (c : ClaimedNormalizationJob) (out : Output) (video_id now : ℕ)
      → Memᴰ c s.claims
      → t ≡ after s (Normalizer.commit_ready w c out video_id now)
      → Step s t
  reconcile :
      (locked : Job → Bool) (retry_id : Job → ℕ) (now : ℕ)
      → t ≡ after s (Normalizer.reconcile locked retry_id now)
      → Step s t

pub data Reach (s : System) : System → Type 0 where
  here : Reach s s
  next : {t u : System} → Reach s t → Step t u → Reach s u

abbrev pub initial : System
initial = record {
  db = record {
    reels = [];
    jobs = [];
    runs = [];
    items = [];
    videos = [];
    accounts = [];
    login_sessions = [];
  };
  claims = [];
}
