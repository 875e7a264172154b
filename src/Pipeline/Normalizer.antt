-- ===== src/Pipeline/Normalizer.antt =====
-- apps/api/app/instagram/normalizer/worker.py: the worker's transactions on jobs, Reels and videos.
-- The clock and the new UUIDs are arguments; what touches the object store is left out.
use offline_reels.Base.{
  List, [], ◌∷◌, ℕ, String, Option, count_if, some, Bool, ◌+◌, none, false, ◌==◌, if◌then◌else◌,
  ltb, true, ◌&&◌, string_eq, not, ◌||◌, nat_eq, followed_by,
}
use offline_reels.Base.Table.{find}
use offline_reels.Base.Select.{select_first}
use offline_reels.Pipeline.Transaction.{
  Tx, pure, raise, ◌>>=◌, ◌>>◌, gets, value_error, worker_cancelled, final_object_conflict,
  save_job, save_reel, add_job, ok, err, integrity_error, Error, Result,
}
use offline_reels.Pipeline.Schema.{Reel, Job, Db, Video, job_key, reel_key}
use offline_reels.Domain.Statuses.{NormalizationJobStatus, ReelPipelineStatus, reel_eq, job_eq}
use offline_reels.Domain.Reasons.{ReasonCode, reason_value}
use offline_reels.Pipeline.Persistence.{pending_job}

abbrev pub max_normalization_attempts : ℕ
max_normalization_attempts = 3

pub record Worker : Type 0 where
  pub worker_id : String
  pub lease_microseconds : ℕ
  -- f"{STAGING_PREFIX}/{job.id}/{next_attempt}"
  pub staging_prefix : ℕ → ℕ → String

pub record ClaimedNormalizationJob : Type 0 where
  pub job_id : ℕ
  pub reel_id : ℕ
  pub shortcode : String
  pub source_object_key : String
  pub source_sha256 : String
  pub source_byte_size : ℕ
  pub attempt_count : ℕ
  pub staging_prefix : String

-- `_required`
abbrev pub required : {A : Type 0} → Option A → Tx A
required none = raise value_error
required (some a) = pure a

abbrev pub source_is_ready : Option Reel → Bool
source_is_ready none = false
source_is_ready (some reel) = reel.pipeline_status == ReelPipelineStatus.source_ready

-- The rows that `claim` selects from; `locked` are those that SKIP LOCKED passes over.
abbrev pub is_waiting : List Reel → (Job → Bool) → Job → Bool
is_waiting reels locked job =
    job.status == NormalizationJobStatus.pending
    && source_is_ready (find reel_key job.reel_id reels)
    && not (locked job)

abbrev pub retry_exhausted_code : String
retry_exhausted_code = reason_value ReasonCode.retry_exhausted

abbrev pub exhausted_job : ℕ → Job → Job
exhausted_job now job = record job {
  status = NormalizationJobStatus.failed;
  reason_code = some retry_exhausted_code;
  completed_at = some now;
}

abbrev pub failed_reel : ℕ → String → Reel → Reel
failed_reel now reason reel = record reel {
  pipeline_status = ReelPipelineStatus.failed;
  failure_reason_code = some reason;
  failed_at = some now;
}

abbrev pub claimed_job : Worker → ℕ → Job → Job
claimed_job w now job = record job {
  status = NormalizationJobStatus.running;
  attempt_count = job.attempt_count + 1;
  claimed_at = some now;
  lease_expires_at = some (now + w.lease_microseconds);
  worker_id = some w.worker_id;
  staging_prefix = some (w.staging_prefix job.id (job.attempt_count + 1));
}

abbrev pub normalizing_reel : Reel → Reel
normalizing_reel reel = record reel { pipeline_status = ReelPipelineStatus.normalizing }

unfoldable pub claim_row : Worker → ℕ → Job → Reel → Tx (Option ClaimedNormalizationJob)
unfolding save_job save_reel reason_value
claim_row w now job reel =
    if ltb max_normalization_attempts (job.attempt_count + 1)
    then (do
      save_job (exhausted_job now job)
      save_reel (failed_reel now retry_exhausted_code reel)
      pure none)
    else do
      save_job (claimed_job w now job)
      save_reel (normalizing_reel reel)
      key ← required reel.source_object_key
      sha ← required reel.source_sha256
      size ← required reel.source_byte_size
      pure (
          some (record {
            job_id = job.id;
            reel_id = reel.id;
            shortcode = reel.shortcode;
            source_object_key = key;
            source_sha256 = sha;
            source_byte_size = size;
            attempt_count = job.attempt_count + 1;
            staging_prefix = w.staging_prefix job.id (job.attempt_count + 1);
          }))

unfoldable pub claim : Worker → (Job → Bool) → ℕ → Tx (Option ClaimedNormalizationJob)
unfolding claim_row
claim w locked now = do
  row ← gets (λ db. select_first (λ j. j.created_at) job_key (is_waiting db.reels locked) db.jobs)
  elim row [
    | none ↦ pure none
    | some job ↦ do
      found ← gets (λ db. find reel_key job.reel_id db.reels)
      elim found [ none ↦ pure none | some reel ↦ claim_row w now job reel ]
  ]

-- `_is_owned_running`
abbrev pub is_owned_running : Worker → Job → Bool
is_owned_running w job =
    job.status == NormalizationJobStatus.running
    && elim job.worker_id [ none ↦ false | some owner ↦ owner == w.worker_id ]

-- The row of a job that no worker holds any more.
abbrev pub closed_job : NormalizationJobStatus → Option String → ℕ → Job → Job
closed_job status reason now job = record job {
  status = status;
  reason_code = reason;
  completed_at = some now;
  lease_expires_at = none;
  worker_id = none;
}

-- `_finish_failure` after the ownership test.
unfoldable pub fail_row : ReasonCode → Bool → ℕ → ℕ → Job → Reel → Tx (Unit {0})
unfolding save_job save_reel add_job reason_value
fail_row reason retryable now retry_id job reel = do
  save_job (closed_job NormalizationJobStatus.failed (some (reason_value reason)) now job)
  if retryable && ltb job.attempt_count max_normalization_attempts
      then (do
        save_reel (record reel {
          pipeline_status = ReelPipelineStatus.source_ready;
          failure_reason_code = some (reason_value reason);
        })
        add_job (pending_job retry_id reel.id job.attempt_count now))
      else save_reel
          (failed_reel now (if retryable then retry_exhausted_code else reason_value reason) reel)

abbrev pub owned_rows : Worker → ClaimedNormalizationJob → Db → Option (Job × Reel)
owned_rows w claimed db = elim (find job_key claimed.job_id db.jobs) [
  | none ↦ none
  | some job ↦ elim (find reel_key claimed.reel_id db.reels) [
    | none ↦ none
    | some reel ↦ if is_owned_running w job then some (job, reel) else none
  ]
]

-- except SQLAlchemyError: return
abbrev pub is_sqlalchemy_error : Error → Bool
is_sqlalchemy_error Error.integrity_error = true
is_sqlalchemy_error _ = false

abbrev pub or_return : Db → Result (Unit {0} × Db) → Result (Unit {0} × Db)
or_return db (ok r) = ok r
or_return db (err e) = if is_sqlalchemy_error e then ok (tt, db) else err e

unfoldable pub finish_rows : ReasonCode → Bool → ℕ → ℕ → Option (Job × Reel) → Tx (Unit {0})
unfolding fail_row
finish_rows reason retryable now retry_id none = pure tt
finish_rows reason retryable now retry_id (some (job, reel)) =
    fail_row reason retryable now retry_id job reel

unfoldable pub finish_failure :
    Worker → ClaimedNormalizationJob → ReasonCode → Bool → ℕ → ℕ → Tx (Unit {0})
unfolding finish_rows
finish_failure w claimed reason retryable now retry_id db =
    or_return db (finish_rows reason retryable now retry_id (owned_rows w claimed db) db)

-- What `_commit_ready` is told of the published object. The duration is a column that is left out.
pub record Output : Type 0 where
  pub final_key : String
  pub sha256 : String
  pub byte_size : ℕ
  pub strategy : String
  pub has_audio : Bool
  pub duration_ms : Option ℕ

unfoldable pub video_by_key : String → List Video → Option Video
video_by_key k [] = none
video_by_key k (v ∷ vs) = if v.object_key == k then some v else video_by_key k vs

abbrev pub new_video : String → Output → ℕ → ℕ → Video
new_video title out video_id now = record {
  id = video_id;
  title = title;
  object_key = out.final_key;
  byte_size = out.byte_size;
  content_sha256 = some out.sha256;
  normalization_strategy = some out.strategy;
  has_audio = some out.has_audio;
  normalized_at = some now;
  created_at = now;
}

abbrev pub sha_clash : Video → Video → Bool
sha_clash v q = elim v.content_sha256 [
  | none ↦ false
  | some a ↦ elim q.content_sha256 [ none ↦ false | some b ↦ b == a ]
]

unfoldable pub video_admitted : Video → List Video → Bool
unfolding count_if
video_admitted v videos =
    ltb 0 v.byte_size && count_if (λ q. sha_clash v q || q.id == v.id) videos == 0

unfoldable pub insert_video : Video → Tx (Unit {0})
unfolding video_admitted
insert_video v db =
    if video_admitted v db.videos
    then ok (tt, record db { videos = v ∷ db.videos })
    else err integrity_error

-- VideoRepository.upsert: ON CONFLICT (object_key) DO NOTHING, and the row that is there.
unfoldable pub upsert : Video → Tx Video
unfolding video_by_key insert_video
upsert v = do
  found ← gets (λ db. video_by_key v.object_key db.videos)
  elim found [ none ↦ do insert_video v; pure v | some existing ↦ pure existing ]

abbrev pub same_output : Output → Video → Bool
same_output out v =
    elim v.content_sha256 [ none ↦ true | some sha ↦ sha == out.sha256 ]
    && v.byte_size == out.byte_size

abbrev pub ready_reel : ℕ → ℕ → Reel → Reel
ready_reel video now reel = record reel {
  video_id = some video;
  pipeline_status = ReelPipelineStatus.ready;
  ready_at = some now;
  failure_reason_code = none;
  source_cleanup_pending = true;
}

unfoldable pub ready_row : Output → ℕ → Job → Reel → Video → Tx (Unit {0})
unfolding save_job save_reel
ready_row out now job reel video =
    if same_output out video
    then (do
      save_reel (ready_reel video.id now reel)
      save_job (closed_job NormalizationJobStatus.completed none now job))
    else raise final_object_conflict

unfoldable pub commit_ready : Worker → ClaimedNormalizationJob → Output → ℕ → ℕ → Tx (Unit {0})
unfolding upsert ready_row
commit_ready w claimed out video_id now = do
  rows ← gets (owned_rows w claimed)
  elim rows [
    | none ↦ raise worker_cancelled
    | some (job, reel) ↦ do
      duration_ms ← required out.duration_ms
      video ← upsert (new_video (followed_by "Instagram Reel " claimed.shortcode) out video_id now)
      ready_row out now job reel video
  ]

-- The expired claims that `reconcile` selects.
abbrev pub is_stale : ℕ → (Job → Bool) → Job → Bool
is_stale now locked job =
    job.status == NormalizationJobStatus.running
    && elim job.lease_expires_at [ none ↦ false | some expires ↦ ltb expires now ]
    && not (locked job)

unfoldable pub recover_row : ℕ → ℕ → Job → Reel → Tx (Unit {0})
unfolding save_job save_reel add_job reason_value
recover_row now retry_id job reel = do
  save_job (
      closed_job NormalizationJobStatus.failed
        (some (reason_value ReasonCode.stale_lease_recovered)) now job)
  if ltb job.attempt_count max_normalization_attempts
      then (do
        save_reel (record reel { pipeline_status = ReelPipelineStatus.source_ready })
        add_job (pending_job retry_id reel.id job.attempt_count now))
      else save_reel (failed_reel now retry_exhausted_code reel)

-- The loop of `reconcile` over the selected rows; `retry_id` gives each its new job's UUID. It
-- returns the staging prefixes to clean up and the number of recovered claims.
unfoldable pub recover_all : ℕ → (Job → ℕ) → List Job → Tx (List String × ℕ)
unfolding recover_row
recover_all now retry_id [] = pure ([], 0)
recover_all now retry_id (job ∷ stale) = do
  found ← gets (λ db. find reel_key job.reel_id db.reels)
  elim found [
    | none ↦ recover_all now retry_id stale
    | some reel ↦ do
      recover_row now (retry_id job) job reel
      (prefixes, n) ← recover_all now retry_id stale
      pure (
        elim job.staging_prefix [
          | none ↦ prefixes
          | some p ↦ if p == "" then prefixes else p ∷ prefixes
        ],
        n + 1,
      )
  ]

unfoldable pub select_all : (Job → Bool) → List Job → List Job
select_all p [] = []
select_all p (j ∷ js) = let rest = select_all p js in if p j then j ∷ rest else rest

unfoldable pub reconcile : (Job → Bool) → (Job → ℕ) → ℕ → Tx (List String × ℕ)
unfolding recover_all select_all
reconcile locked retry_id now = do
  stale ← gets (λ db. select_all (is_stale now locked) db.jobs)
  recover_all now retry_id stale
