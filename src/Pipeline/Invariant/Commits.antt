-- ===== src/Pipeline/Invariant/Commits.antt =====
-- `_commit_ready` keeps the tables consistent.
use offline_reels.Base.{refl, ◌≡◌, ℕ, none, arith, true, followed_by, Option, some}
use mathlib.Core.Path.{subst₂}
use offline_reels.Base.Table.{put, count_if-put}
use offline_reels.Pipeline.Transaction.{pure, integrity_error, reel_admitted, save_job, Tx, ◌>>=◌}
use offline_reels.Pipeline.After.{
  After, After-if, After-option, After-bind, After-last, After-save_reel, After-save_job,
  After-write, After-mono,
}
use offline_reels.Pipeline.Schema.{Db, Video, Job, Reel, job_key, is_running, reel_key}
use offline_reels.Pipeline.Normalizer.{
  upsert, ready_row, Worker, Output, video_by_key, closed_job, ready_reel, insert_video,
  same_output, commit_ready, ClaimedNormalizationJob, video_admitted, owned_rows, new_video,
  required,
}
use offline_reels.Pipeline.Invariant.{
  Consistent, IsKept, NormalizationJobStatus, job_key, is_running, reel_key, IsConsistent,
}
use offline_reels.Pipeline.Invariant.Rows.{
  IsOwned, reel_admitted-checks, Holds, owned_rows-IsOwned, SameTables, IsKept-after,
}
use offline_reels.Domain.Statuses.{NormalizationJobStatus, ReelPipelineStatus}
use offline_reels.Pipeline.Invariant.Moves.{move-IsConsistent, SameReels-put}

-- `upsert` writes videos only.
After-upsert : (v : Video) (db : Db) → After (SameTables db) (upsert v db)
unfolding upsert insert_video
After-upsert v db =
    After-option (SameTables db) (video_by_key v.object_key db.videos) _ _ db
      (λ _.
        After-write (SameTables db) (λ _. pure v) (video_admitted v db.videos) _ integrity_error
          (λ _. (refl, refl)))
      (λ _ _. (refl, refl))

After-ready_row :
    (out : Output) (now : ℕ) (job : Job) (reel : Reel) (video : Video) (db : Db)
    → Consistent db
    → IsOwned db.reels db.jobs job reel
    → After (IsKept db) (ready_row out now job reel video db)
unfolding ready_row
After-ready_row out now job reel video db inv own =
    After-if (IsKept db) (same_output out video) _ _ db
      (λ _. After-save_reel (IsKept db) _ (ready_reel video.id now reel) db λ c.
        After-last (IsKept db) (save_job _) _ (After-save_job (IsKept db) pure _ _ λ _. ready c))
      (λ _. tt)
  where
    done : Job
    done = closed_job NormalizationJobStatus.completed none now job

    normalizes : reel.pipeline_status ≡ ReelPipelineStatus.normalizing
    normalizes =
        ground
          (arith, inv.held reel.id, own, count_if-put job_key (is_running reel.id) done db.jobs job)

    ready :
        reel_admitted (ready_reel video.id now reel) db.reels ≡ true
        → IsKept db (record db {
          reels = put reel_key (ready_reel video.id now reel) db.reels;
          jobs = put job_key done db.jobs;
        })
    ready c = record {
      consistent =
          move-IsConsistent inv job done reel (ready_reel video.id now reel) own.job_there
            own.reel_there own.of_reel own.of_reel
            (ground (arith, inv.attempts job.id job own.job_there)) (reel_admitted-checks _ _ c)
            (ground (arith, normalizes, own)) (ground (arith, normalizes, own));
      same_reels = SameReels-put job done db.jobs own.job_there refl;
    }

-- `_required` in the middle of a transaction.
After-required :
    {A B : Type 0} (P : Db → Type 0) (o : Option A) (f : A → Tx B) (db : Db)
    → ((a : A) → After P (f a db))
    → After P ((required o >>= f) db)
After-required P none f db h = tt
After-required P (some a) f db h = h a

pub After-commit_ready :
    (w : Worker) (claimed : ClaimedNormalizationJob) (out : Output) (video_id now : ℕ) (db : Db)
    → Consistent db
    → Holds claimed db.jobs
    → After (IsKept db) (commit_ready w claimed out video_id now db)
unfolding commit_ready
After-commit_ready w claimed out video_id now db inv holds =
    After-option (IsKept db) (owned_rows w claimed db) _ _ db (λ _. tt)
      λ rows e.
        let own = owned_rows-IsOwned w claimed db rows.0 rows.1 holds e in
        After-required (IsKept db) out.duration_ms _ db λ duration_ms.
          After-bind (SameTables db) (IsKept db)
            (upsert (new_video (followed_by "Instagram Reel " claimed.shortcode) out video_id now))
            _ db
            (After-upsert
              (new_video (followed_by "Instagram Reel " claimed.shortcode) out video_id now) db)
            λ video db' same.
              After-mono (IsKept db') (IsKept db) _ (λ c k. IsKept-after db db' c same k)
                (After-ready_row out now rows.0 rows.1 video db'
                  (subst₂ IsConsistent same.0 same.1 inv)
                  (subst₂ (λ reels jobs. IsOwned reels jobs rows.0 rows.1) same.0 same.1 own))
