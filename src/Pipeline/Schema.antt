-- ===== src/Pipeline/Schema.antt =====
-- apps/api/app/db/models/instagram.py and video.py: the rows of the media pipeline. A UUID is a
-- number, in the order of UUIDs; a timestamp is a number of microseconds.
use offline_reels.Base.{
  ℕ, ◌+◌, Bool, true, false, ◌&&◌, ◌||◌, not, Option, none, some, List, String, ◌==◌, string_eq,
  nat_eq, leb, ltb, fits, nonblank, optional, length, codes,
}
use offline_reels.Domain.Statuses.{
  CollectionRunStatus, ReelPipelineStatus, NormalizationJobStatus, RunItemOutcome, DownloadAuthMode,
  reel_eq, job_eq, run_eq, CollectionTrigger, AccountStatus, LoginSessionStatus,
}

pub record Reel : Type 0 where
  pub id : ℕ
  pub shortcode : String
  pub canonical_url : String
  pub pipeline_status : ReelPipelineStatus
  pub source_object_key : Option String
  pub source_sha256 : Option String
  pub source_byte_size : Option ℕ
  pub video_id : Option ℕ
  pub failure_reason_code : Option String
  pub discovered_at : Option ℕ
  pub source_ready_at : Option ℕ
  pub ready_at : Option ℕ
  pub failed_at : Option ℕ
  pub source_cleanup_pending : Bool

pub record Job : Type 0 where
  pub id : ℕ
  pub reel_id : ℕ
  pub status : NormalizationJobStatus
  pub attempt_count : ℕ
  pub reason_code : Option String
  pub completed_at : Option ℕ
  pub claimed_at : Option ℕ
  pub lease_expires_at : Option ℕ
  pub worker_id : Option String
  pub staging_prefix : Option String
  pub created_at : ℕ

pub record Run : Type 0 where
  pub id : ℕ
  pub account_id : ℕ
  pub trigger : CollectionTrigger
  pub status : CollectionRunStatus
  pub target_count : ℕ
  pub source_committed_count : ℕ
  pub already_available_count : ℕ
  pub failed_count : ℕ
  pub stop_reason_code : Option String
  pub started_at : Option ℕ
  pub completed_at : Option ℕ
  pub cancel_requested_at : Option ℕ
  pub created_at : ℕ

pub record Item : Type 0 where
  pub run_id : ℕ
  pub reel_id : ℕ
  pub position : ℕ
  pub outcome : RunItemOutcome
  pub download_auth_mode : Option DownloadAuthMode
  pub reason_code : Option String
  pub completed_at : Option ℕ

pub record Video : Type 0 where
  pub id : ℕ
  pub title : String
  pub object_key : String
  pub byte_size : ℕ
  pub content_sha256 : Option String
  pub normalization_strategy : Option String
  pub has_audio : Option Bool
  pub normalized_at : Option ℕ
  pub created_at : ℕ

pub record Account : Type 0 where
  pub id : ℕ
  pub status : AccountStatus
  pub last_connected_at : Option ℕ
  pub reauth_required_at : Option ℕ
  pub reason_code : Option String

pub record LoginSession : Type 0 where
  pub id : ℕ
  pub account_id : ℕ
  pub status : LoginSessionStatus
  pub prior_account_status : AccountStatus
  pub launch_token_hash : String
  pub reason_code : Option String
  pub expires_at : ℕ
  pub consumed_at : Option ℕ
  pub claimed_at : Option ℕ
  pub closed_at : Option ℕ

pub record Db : Type 0 where
  pub reels : List Reel
  pub jobs : List Job
  pub runs : List Run
  pub items : List Item
  pub videos : List Video
  pub accounts : List Account
  pub login_sessions : List LoginSession

abbrev pub reel_key : Reel → ℕ
reel_key r = r.id

abbrev pub account_key : Account → ℕ
account_key a = a.id

abbrev pub login_key : LoginSession → ℕ
login_key s = s.id

abbrev pub job_key : Job → ℕ
job_key j = j.id

abbrev pub run_key : Run → ℕ
run_key r = r.id

-- The jobs of one Reel that wait, and those that a worker holds.
abbrev pub is_pending : ℕ → Job → Bool
is_pending reel j = j.reel_id == reel && j.status == NormalizationJobStatus.pending

abbrev pub is_running : ℕ → Job → Bool
is_running reel j = j.reel_id == reel && j.status == NormalizationJobStatus.running

-- ck_reels_source_required and ck_reels_ready_requires_video
abbrev pub has_source : Reel → Bool
has_source r = elim r.source_object_key [
  | none ↦ false
  | some _ ↦ elim r.source_sha256 [
    | none ↦ false
    | some _ ↦ elim r.source_byte_size [ none ↦ false | some n ↦ ltb 0 n ]
  ]
]

abbrev pub needs_source : ReelPipelineStatus → Bool
needs_source ReelPipelineStatus.source_ready = true
needs_source ReelPipelineStatus.normalizing = true
needs_source ReelPipelineStatus.ready = true
needs_source _ = false

-- The lengths of the text columns and the checks on their contents, and ck_reels_size_positive.
unfoldable pub reel_columns : Reel → Bool
unfolding fits nonblank optional
reel_columns r =
    fits 64 r.shortcode
    && nonblank r.shortcode
    && fits 512 r.canonical_url
    && nonblank r.canonical_url
    && optional (λ k. fits 512 k && nonblank k) r.source_object_key
    && optional (λ s. length (codes s) == 64) r.source_sha256
    && optional (ltb 0) r.source_byte_size
    && optional (fits 64) r.failure_reason_code

abbrev pub reel_checks : Reel → Bool
reel_checks r =
    reel_columns r
    && (not (needs_source r.pipeline_status) || has_source r)
    && (not (r.pipeline_status == ReelPipelineStatus.ready)
        || elim r.video_id [ none ↦ false | some _ ↦ true ])

-- ck_collection_runs_target_positive and ck_collection_runs_counters_within_target
abbrev pub run_checks : Run → Bool
run_checks r =
    ltb 0 r.target_count
    && leb (r.source_committed_count + r.already_available_count + r.failed_count) r.target_count
