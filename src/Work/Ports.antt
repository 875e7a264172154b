-- ===== src/Work/Ports.antt =====
-- What a worker calls, as actions on a world `W`: the transactions of Pipeline.Normalizer, the
-- object store of apps/api/app/storage/base.py, ffprobe and ffmpeg through app.media, the progress
-- callback and the cancellation event. Beside the world stands a log of what matters, the newest
-- first. `M` is what a probe finds.
use offline_reels.Base.{ℕ, Bool, true, false, Option, String, List, ◌∷◌, if◌then◌else◌}
use offline_reels.Domain.Reasons.{ReasonCode}
use offline_reels.Pipeline.Normalizer.{ClaimedNormalizationJob}
use offline_reels.Action.{Action, Outcome, raise, try_except}

-- The exceptions that the worker tells apart; `interrupt` is one that is no Exception.
pub data WorkError : Type 0 where
  storage_object_not_found source_hash_mismatch source_size_mismatch : WorkError
  media_probe_error media_decode_error media_compatibility_error : WorkError
  media_normalization_error final_object_conflict sqlalchemy_error : WorkError
  worker_cancelled other_error interrupt : WorkError

pub record Normalized (M : Type 0) : Type 0 where
  pub output_path : String
  pub strategy : String
  pub probe : M

-- The log of a publication: the key and the file of a download, the file, digest and size that a
-- hash has returned, whether a probe has found a file canonical, the file of a decode, the key and
-- the output file of a commit, and the key of a deletion. A deletion is logged when it is asked for,
-- the others when their call has returned.
pub data Deed : Type 0 where
  downloaded : String → String → Deed
  hashed : String → String → ℕ → Deed
  probed : String → Bool → Deed
  decoded : String → Deed
  committed : String → String → Deed
  source_removed final_removed : String → Deed

pub record Working (W : Type 0) : Type 0 where
  pub world : W
  pub log : List Deed

abbrev pub Port : Type 0 → Type 0 → Type 0
Port W A = Action W WorkError A

pub record Ports (W M : Type 0) : Type 0 where
  pub is_cancelled : Port W Bool
  pub claim : Port W (Option ClaimedNormalizationJob)
  pub emit : ClaimedNormalizationJob → String → Option ReasonCode → Port W (Unit {0})
  pub stat : String → Port W ℕ
  pub download_file : String → String → Port W (Unit {0})
  pub upload_file : String → String → Port W (Unit {0})
  pub copy : String → String → Port W (Unit {0})
  pub remove : String → Port W (Unit {0})
  pub list_prefix : String → Port W (List String)
  pub hash_file : String → Port W (String × ℕ)
  pub probe_media : String → Port W M
  pub validate_decode : String → Port W (Unit {0})
  pub is_worker_canonical : M → Bool
  pub normalize_video : String → Port W (Normalized M)
  pub end_normalize : Normalized M → Port W (Unit {0})
  pub commit_ready :
      ClaimedNormalizationJob → String → String → ℕ → Normalized M → Port W (Unit {0})
  pub finish_failure : ClaimedNormalizationJob → ReasonCode → Bool → Port W (Unit {0})
  pub is_referenced : String → Port W Bool
  pub mark_cleaned : ClaimedNormalizationJob → Port W (Unit {0})

abbrev pub Job : Type 0 → Type 0 → Type 0
Job W A = Action (Working W) WorkError A

abbrev pub is_exception : WorkError → Bool
is_exception WorkError.interrupt = false
is_exception _ = true

abbrev pub is_not_found : WorkError → Bool
is_not_found WorkError.storage_object_not_found = true
is_not_found _ = false

module _ {W : Type 0} where
  unfoldable pub call : {A : Type 0} → Port W A → Job W A
  call port s = let (r, w) = port s.world in (r, record s { world = w })

  unfoldable pub note : Deed → Job W (Unit {0})
  note d s = (Outcome.returned tt, record s { log = d ∷ s.log })

  -- try: … except Exception: <other>
  unfoldable pub unless_exception : {A : Type 0} → Job W A → (WorkError → Job W A) → Job W A
  unless_exception m other = try_except m (λ e. if is_exception e then other e else raise e)

  -- try: … except StorageObjectNotFound: <other>
  unfoldable pub unless_not_found : {A : Type 0} → Job W A → Job W A → Job W A
  unless_not_found m other = try_except m (λ e. if is_not_found e then other else raise e)
