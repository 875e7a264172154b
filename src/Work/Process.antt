-- ===== src/Work/Process.antt =====
-- `run_once` and `_process` of apps/api/app/instagram/normalizer/worker.py with what they call. The
-- temporary directories are left out; the file names in them are the texts.
use offline_reels.Base.{
  ℕ, Bool, true, false, ◌||◌, not, Option, none, some, String, List, [], ◌∷◌, ◌==◌, nat_eq,
  string_eq, followed_by, if◌then◌else◌,
}
use offline_reels.Domain.Reasons.{ReasonCode}
use offline_reels.Pipeline.Normalizer.{ClaimedNormalizationJob}
use offline_reels.Action.{pure, raise, try_except, finally, ◌>>=◌, ◌>>◌}
use offline_reels.Work.Ports.{
  Ports, Job, WorkError, Deed, Normalized, call, note, unless_exception, unless_not_found,
}

-- `_classify_error`: the reason, and whether the job may be tried again.
abbrev pub classify_error : WorkError → ReasonCode × Bool
classify_error WorkError.storage_object_not_found = (ReasonCode.source_missing, true)
classify_error WorkError.source_hash_mismatch = (ReasonCode.source_hash_mismatch, false)
classify_error WorkError.source_size_mismatch = (ReasonCode.source_size_mismatch, false)
classify_error WorkError.media_probe_error = (ReasonCode.ffprobe_failed, false)
classify_error WorkError.media_decode_error = (ReasonCode.full_decode_failed, false)
classify_error WorkError.media_compatibility_error = (ReasonCode.incompatible_output, false)
classify_error WorkError.media_normalization_error = (ReasonCode.normalization_failed, false)
classify_error WorkError.final_object_conflict = (ReasonCode.final_object_conflict, false)
classify_error WorkError.sqlalchemy_error = (ReasonCode.postgres_commit_failure, true)
classify_error WorkError.worker_cancelled = (ReasonCode.worker_cancelled, true)
classify_error _ = (ReasonCode.minio_transient_failure, true)

module _ {W M : Type 0} (ports : Ports W M) where
  unfoldable pub raise_if_cancelled : Job W (Unit {0})
  unfolding call
  raise_if_cancelled = do
    cancelled ← call ports.is_cancelled
    if cancelled then raise WorkError.worker_cancelled else pure tt

  unfoldable pub emit : ClaimedNormalizationJob → String → Option ReasonCode → Job W (Unit {0})
  unfolding call
  emit claimed event reason = call (ports.emit claimed event reason)

  unfoldable pub download_and_verify_source : ClaimedNormalizationJob → Job W (Unit {0})
  unfolding call
  download_and_verify_source claimed = do
    byte_size ← call (ports.stat claimed.source_object_key)
    if not (byte_size == claimed.source_byte_size) then raise WorkError.source_size_mismatch else do
      call (ports.download_file claimed.source_object_key "source.mp4")
      actual ← call (ports.hash_file "source.mp4")
      if not (actual.1 == claimed.source_byte_size)
          then raise WorkError.source_size_mismatch
          else if not (actual.0 == claimed.source_sha256)
          then raise WorkError.source_hash_mismatch
          else do probe ← call (ports.probe_media "source.mp4"); pure tt

  unfoldable pub verify_final : String → String → ℕ → Job W (Unit {0})
  unfolding call note
  verify_final final_key expected_sha256 expected_size = do
    call (ports.download_file final_key "canonical.mp4")
    note (Deed.downloaded final_key "canonical.mp4")
    actual ← call (ports.hash_file "canonical.mp4")
    note (Deed.hashed "canonical.mp4" actual.0 actual.1)
    if not (actual.0 == expected_sha256) || not (actual.1 == expected_size)
        then raise WorkError.final_object_conflict
        else do
          probe ← call (ports.probe_media "canonical.mp4")
          note (Deed.probed "canonical.mp4" (ports.is_worker_canonical probe))
          call (ports.validate_decode "canonical.mp4")
          note (Deed.decoded "canonical.mp4")
          if not (ports.is_worker_canonical probe)
              then raise WorkError.final_object_conflict
              else pure tt

  -- `_compensate_final_if_unreferenced`
  unfoldable pub compensate_final : String → Bool → Job W (Unit {0})
  unfolding call note unless_exception
  compensate_final final_key created_final =
      if not created_final
      then pure tt
      else unless_exception
          (do
            referenced ← call (ports.is_referenced final_key)
            if referenced
                then pure tt
                else do note (Deed.final_removed final_key); call (ports.remove final_key))
          (λ e. pure tt)

  -- An Exception is followed by the compensation, and raised again.
  unfoldable pub or_compensate : Job W (Unit {0}) → String → Bool → Job W (Unit {0})
  unfolding compensate_final unless_exception
  or_compensate m final_key created_final =
      unless_exception m (λ e. do compensate_final final_key created_final; raise e)

  -- `output` is the digest and the size of the output file, which `_publish_final` reads again.
  unfoldable pub publish_final : String → String → String → Job W Bool
  unfolding call note verify_final or_compensate try_except
  publish_final staging_key final_key output_path = do
    output ← call (ports.hash_file output_path)
    note (Deed.hashed output_path output.0 output.1)
    existing ←
        unless_not_found (do size ← call (ports.stat final_key); pure (some size)) (pure none)
    elim existing [
      | none ↦ do
        call (ports.copy staging_key final_key)
        or_compensate (verify_final final_key output.0 output.1) final_key true
        pure true
      | some byte_size ↦
          if not (byte_size == output.1)
          then raise WorkError.final_object_conflict
          else do verify_final final_key output.0 output.1; pure false
    ]

  -- `_commit_ready`, in the log once it has returned.
  unfoldable pub commit_ready :
      ClaimedNormalizationJob → String → String → ℕ → Normalized M → Job W (Unit {0})
  unfolding call note
  commit_ready claimed final_key sha256 size normalized = do
    call (ports.commit_ready claimed final_key sha256 size normalized)
    note (Deed.committed final_key normalized.output_path)

  -- `_cleanup_source_after_commit`
  unfoldable pub cleanup_source_after_commit : ClaimedNormalizationJob → Job W (Unit {0})
  unfolding call note unless_exception unless_not_found
  cleanup_source_after_commit claimed = do
    note (Deed.source_removed claimed.source_object_key)
    removed ←
        unless_exception
          (unless_not_found (do call (ports.remove claimed.source_object_key); pure true)
            (pure true))
          (λ e. pure false)
    if removed then call (ports.mark_cleaned claimed) else pure tt

  -- From the publication to the end of the job.
  unfoldable pub publish_and_commit : ClaimedNormalizationJob → Normalized M → Job W (Unit {0})
  unfolding call publish_final emit raise_if_cancelled or_compensate commit_ready
      cleanup_source_after_commit
  publish_and_commit claimed normalized = do
    output ← call (ports.hash_file normalized.output_path)
    let staging_key = followed_by claimed.staging_prefix "/canonical.mp4"
    call (ports.upload_file staging_key normalized.output_path)
    emit claimed "normalized" none
    let final_key = followed_by "videos/" (followed_by output.0 ".mp4")
    created_final ← publish_final staging_key final_key normalized.output_path
    emit claimed "final_published" none
    raise_if_cancelled
    or_compensate (commit_ready claimed final_key output.0 output.1 normalized) final_key
        created_final
    emit claimed "db_committed" none
    cleanup_source_after_commit claimed
    emit claimed "completed" none

  -- The body of the `with normalize_video(…)` of `_process`.
  unfoldable pub finish_output : ClaimedNormalizationJob → Normalized M → Job W (Unit {0})
  unfolding emit raise_if_cancelled publish_and_commit
  finish_output claimed normalized = do
    emit claimed normalized.strategy none
    raise_if_cancelled
    if ports.is_worker_canonical normalized.probe
        then publish_and_commit claimed normalized
        else raise WorkError.media_compatibility_error

  unfoldable pub process : ClaimedNormalizationJob → Job W (Unit {0})
  unfolding call raise_if_cancelled download_and_verify_source emit finish_output
  process claimed = do
    raise_if_cancelled
    download_and_verify_source claimed
    emit claimed "source_verified" none
    raise_if_cancelled
    normalized ← call (ports.normalize_video "source.mp4")
    finally (finish_output claimed normalized) (call (ports.end_normalize normalized))

  unfoldable pub remove_all : List String → Job W (Unit {0})
  unfolding call
  remove_all [] = pure tt
  remove_all (key ∷ keys) = do call (ports.remove key); remove_all keys

  -- `_cleanup_staging`
  unfoldable pub cleanup_staging : String → Job W (Unit {0})
  unfolding call remove_all unless_exception
  cleanup_staging prefix =
      unless_exception
        (do keys ← call (ports.list_prefix (followed_by prefix "/")); remove_all keys)
        (λ e. pure tt)

  -- The two handlers of `run_once`; WorkerCancelled has the reason and the retry that
  -- `_classify_error` gives it too.
  unfoldable pub fail_claimed : ClaimedNormalizationJob → WorkError → Job W (Unit {0})
  unfolding call emit
  fail_claimed claimed e = do
    call (ports.finish_failure claimed (classify_error e).0 (classify_error e).1)
    emit claimed "failed" (some (classify_error e).0)

  unfoldable pub run_claimed : ClaimedNormalizationJob → Job W Bool
  unfolding emit process fail_claimed unless_exception cleanup_staging
  run_claimed claimed = do
    emit claimed "claimed" none
    finally (unless_exception (process claimed) (fail_claimed claimed))
        (cleanup_staging claimed.staging_prefix)
    pure true

  -- `run_once`: was a job taken?
  unfoldable pub run_once : Job W Bool
  unfolding call run_claimed
  run_once = do
    cancelled ← call ports.is_cancelled
    if cancelled then pure false else do
      claimed ← call ports.claim
      elim claimed [ none ↦ pure false | some job ↦ run_claimed job ]
