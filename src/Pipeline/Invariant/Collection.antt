-- ===== src/Pipeline/Invariant/Collection.antt =====
-- The Collector's transactions on Reels keep the tables consistent.
use offline_reels.Base.{
  none, some, refl, ℕ, String, List, Option, ◌≡◌, ◌∷◌, some, arith, [], Bool, true, subst, sym,
}
use offline_reels.Base.Table.{find, put, IsKeyed}
use offline_reels.Pipeline.Transaction.{
  Tx, pure, ◌>>=◌, ◌>>◌, continue, save_run, add_reel, save_reel, reel_admitted,
}
use offline_reels.Pipeline.After.{
  After, After-assoc, After-if, After-option, After-bind, After-mono, After-last, After-save_reel,
  After-add_reel, After-add_job, After-add_item, After-save_run,
}
use offline_reels.Pipeline.Persistence.{
  add_run_item, reel_by_shortcode, reel_or_new, to_downloading, ReelCandidate, discovered_reel,
  commit_source, record_failure, commit_available, can_fail, ValidatedSource, sourced, pending_job,
  mark_failed, refused_reel, attempted_mode,
}
use offline_reels.Pipeline.Schema.{Reel, Db, reel_key, run_key, needs_source, Job, job_key}
use offline_reels.Domain.Statuses.{RunItemOutcome, ReelPipelineStatus, DownloadAuthMode}
use offline_reels.Pipeline.Invariant.{Consistent, IsKept, Job, SameReels, job_key}
use offline_reels.Pipeline.Invariant.Arrivals.{
  Idle, arrive-IsConsistent, source-IsConsistent, settle-IsConsistent,
}
use offline_reels.Pipeline.Invariant.Rows.{
  SameTables, reel_admitted-checks, IsKept-same, IsKept-refl,
}
use offline_reels.Domain.Transitions.{require_transition, reel_pipeline_transitions}
use offline_reels.Pipeline.Invariant.Moves.{SameReels-cons}

After-add_run_item :
    (run_id : ℕ) (reel : Reel) (outcome : RunItemOutcome) (mode : Option DownloadAuthMode)
    (reason : Option String) (now : ℕ) (db : Db)
    → After (SameTables db) (add_run_item run_id reel outcome mode reason now db)
unfolding add_run_item
After-add_run_item run_id reel outcome mode reason now db =
    After-option (SameTables db) (find run_key run_id db.runs) _ _ db (λ _. tt)
      λ run _. After-add_item (SameTables db) _ _ db λ _.
        After-last (SameTables db) (save_run _) _
          (After-save_run (SameTables db) pure _ _ λ _. (refl, refl))

reel_by_shortcode-find :
    (s : String) (reels : List Reel) (r : Reel)
    → IsKeyed reel_key reels
    → reel_by_shortcode s reels ≡ some r
    → find reel_key r.id reels ≡ some r
unfolding reel_by_shortcode find
reel_by_shortcode-find s [] r k h = ground arith
reel_by_shortcode-find s (q ∷ reels) r k h =
    ground (arith, k.0, reel_by_shortcode-find s reels r k.1)

find-first : (r : Reel) (reels : List Reel) → find reel_key r.id (r ∷ reels) ≡ some r
unfolding find
find-first r reels = ground arith

module _ {B : Type 0} (P : Db → Type 0) where
  After-reel_or_new :
      (reel_id now : ℕ) (candidate : ReelCandidate) (f : Reel → Tx B) (db : Db)
      → Consistent db
      → ((reel : Reel) (db' : Db)
          → Consistent db'
          → db.jobs ≡ db'.jobs
          → find reel_key reel.id db'.reels ≡ some reel
          → After P (f reel db'))
      → After P ((reel_or_new reel_id candidate now >>= f) db)
  unfolding reel_or_new
  After-reel_or_new reel_id now candidate f db inv h =
      chosen (reel_by_shortcode candidate.shortcode db.reels) refl
    where
      r : Reel
      r = discovered_reel reel_id candidate now

      chosen :
          (o : Option Reel)
          → reel_by_shortcode candidate.shortcode db.reels ≡ o
          → After P (
              continue
                ((elim o as (λ _. Tx Reel) [ none ↦ add_reel r >> pure r | some reel ↦ pure reel ])
                  db)
                f)
      chosen none e =
          After-assoc P (add_reel r) (λ _. pure r) f db
            (After-add_reel P (λ _. f r) r db
              λ (c, new).
                h r (record db { reels = r ∷ db.reels })
                  (arrive-IsConsistent inv r new (refl, refl) (reel_admitted-checks r db.reels c))
                  refl (find-first r db.reels))
      chosen (some reel) e =
          h reel db inv refl
            (reel_by_shortcode-find candidate.shortcode db.reels reel inv.reels_keyed e)

  After-to_downloading :
      (s : ReelPipelineStatus) (k : Unit {0} → Tx B) (db : Db)
      → (Idle s → After P (k tt db))
      → After P ((to_downloading s >>= k) db)
  unfolding to_downloading
  After-to_downloading ReelPipelineStatus.failed k db h = h (refl, refl)
  After-to_downloading ReelPipelineStatus.discovered k db h = h (refl, refl)
  After-to_downloading ReelPipelineStatus.downloading k db h = h (refl, refl)
  After-to_downloading ReelPipelineStatus.source_ready k db h = tt
  After-to_downloading ReelPipelineStatus.normalizing k db h = tt
  After-to_downloading ReelPipelineStatus.ready k db h = tt

can_fail-Idle : (s : ReelPipelineStatus) → can_fail s ≡ true → Idle s
can_fail-Idle s h = ground arith

-- What holds of a transaction that has the Reel of its candidate in hand.
module _ (db db' : Db) (inv : Consistent db') (jobs_same : db.jobs ≡ db'.jobs) (reel : Reel)
    (there : find reel_key reel.id db'.reels ≡ some reel) where
  untouched : IsKept db db'
  untouched = record {
    consistent = inv;
    same_reels = subst (SameReels db.jobs) jobs_same (λ k r h. h);
  }

  abbrev with_source : Reel → Job → Db
  with_source r q = record db' { reels = put reel_key r db'.reels; jobs = q ∷ db'.jobs }

  source_kept :
      (source : ValidatedSource) (object_key : String) (job_id now : ℕ)
      → Idle reel.pipeline_status
      → reel_admitted (sourced source object_key now reel) db'.reels ≡ true
      → find job_key job_id db'.jobs ≡ none
      → IsKept db
          (with_source (sourced source object_key now reel) (pending_job job_id reel.id 0 now))
  source_kept source object_key job_id now was_idle c new = record {
    consistent =
        source-IsConsistent inv reel (sourced source object_key now reel) there was_idle
          (reel_admitted-checks _ _ c) (pending_job job_id reel.id 0 now) new refl refl
          (ground arith) refl;
    same_reels =
        subst (λ l. SameReels l (pending_job job_id reel.id 0 now ∷ db'.jobs)) (sym jobs_same)
          (SameReels-cons (pending_job job_id reel.id 0 now) db'.jobs new);
  }

  After-mark_failed :
      (reason : String) (now : ℕ) → After (IsKept db) (mark_failed reason now reel db')
  unfolding mark_failed
  After-mark_failed reason now =
      After-if (IsKept db) (can_fail reel.pipeline_status)
        (save_reel (refused_reel reason now reel)) (pure tt) db'
        (λ e. After-last (IsKept db) (save_reel (refused_reel reason now reel)) db' (
          After-save_reel (IsKept db) pure (refused_reel reason now reel) db' λ c. record {
            consistent =
                settle-IsConsistent inv reel (refused_reel reason now reel) there
                  (can_fail-Idle reel.pipeline_status e) (reel_admitted-checks _ _ c) (refl, refl);
            same_reels = untouched.same_reels;
          }))
        (λ _. untouched)

pub After-commit_source :
    (run_id : ℕ) (candidate : ReelCandidate) (source : ValidatedSource) (object_key : String)
    (reel_id job_id now : ℕ) (db : Db)
    → Consistent db
    → After (IsKept db) (commit_source run_id candidate source object_key reel_id job_id now db)
unfolding commit_source require_transition reel_pipeline_transitions
After-commit_source run_id candidate source object_key reel_id job_id now db inv =
    After-reel_or_new (IsKept db) reel_id now candidate _ db inv λ reel db' inv' jobs_same there.
      let stored = sourced source object_key now reel in
      let job = pending_job job_id reel.id 0 now in
      After-to_downloading (IsKept db) reel.pipeline_status _ db' λ was_idle.
        After-save_reel (IsKept db) _ stored db' λ c. After-add_job (IsKept db) _ job _ λ new.
          let db'' = with_source db db' inv' jobs_same reel there stored job in
          After-mono (SameTables db'') (IsKept db) _
            (λ d same.
              IsKept-same db db'' d
                (source_kept db db' inv' jobs_same reel there source object_key job_id now was_idle
                  c new.1)
                same)
            (After-add_run_item run_id reel RunItemOutcome.source_committed
              (some DownloadAuthMode.session_first) none now db'')

pub After-record_failure :
    (run_id : ℕ) (candidate : ReelCandidate) (reason : String) (attempted : Bool) (reel_id now : ℕ)
    (db : Db)
    → Consistent db
    → After (IsKept db) (record_failure run_id candidate reason attempted reel_id now db)
unfolding record_failure
After-record_failure run_id candidate reason attempted reel_id now db inv =
    After-reel_or_new (IsKept db) reel_id now candidate _ db inv λ reel db' inv' jobs_same there.
      After-bind (IsKept db) (IsKept db) (mark_failed reason now reel)
        (λ _.
          add_run_item run_id reel RunItemOutcome.failed (attempted_mode attempted) (some reason)
            now)
        db' (After-mark_failed db db' inv' jobs_same reel there reason now)
        λ _ d kept.
          After-mono (SameTables d) (IsKept db) _ (λ d' same. IsKept-same db d d' kept same)
            (After-add_run_item run_id reel RunItemOutcome.failed (attempted_mode attempted)
              (some reason) now d)

pub After-commit_available :
    (run_id : ℕ) (candidate : ReelCandidate) (now : ℕ) (db : Db)
    → Consistent db
    → After (IsKept db) (commit_available run_id candidate now db)
unfolding commit_available
After-commit_available run_id candidate now db inv =
    After-option (IsKept db) (reel_by_shortcode candidate.shortcode db.reels) _ _ db (λ _. tt)
      λ reel _.
        After-if (IsKept db) (needs_source reel.pipeline_status) _ _ db
          (λ _.
            After-mono (SameTables db) (IsKept db) _
              (λ d same. IsKept-same db db d (IsKept-refl db inv) same)
              (After-add_run_item run_id reel RunItemOutcome.already_available none none now db))
          (λ _. tt)
