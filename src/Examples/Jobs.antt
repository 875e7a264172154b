-- ===== src/Examples/Jobs.antt =====
-- A worker that takes one job, with an object store that knows one source, and the theorems at it.
use offline_reels.Base.{
  ℕ, ◌≡◌, refl, true, false, some, [], ◌∷◌, followed_by, if◌then◌else◌, ◌==◌, string_eq, List,
}
use offline_reels.Pipeline.Normalizer.{ClaimedNormalizationJob}
use offline_reels.Action.{Outcome, pure, raise, try_except, finally, ◌>>=◌}
use offline_reels.Work.Ports.{Ports, Port, WorkError, Deed}
use offline_reels.Work.Process.{run_once}
use offline_reels.Work.Order.{in_order}
use offline_reels.Work.Order.Runs.{start, run_once-in_order}

abbrev claimed : ClaimedNormalizationJob
claimed = record {
  job_id = 1;
  reel_id = 2;
  shortcode = "first";
  source_object_key = "instagram-sources/first.mp4";
  source_sha256 = "00";
  source_byte_size = 900;
  attempt_count = 1;
  staging_prefix = "staging/1/1";
}

-- The world is the number of commits.
abbrev says : {A : Type 0} → A → Port ℕ A
says a w = (Outcome.returned a, w)

-- The store knows the source only, and `commit` is the outcome of the transaction.
abbrev ports_with : Outcome WorkError (Unit {0}) → Ports ℕ (Unit {0})
ports_with commit = record {
  is_cancelled = says false;
  claim = says (some claimed);
  emit = λ job event reason. says tt;
  stat = λ key w.
      if key == claimed.source_object_key
      then (Outcome.returned 900, w)
      else (Outcome.raised WorkError.storage_object_not_found, w);
  download_file = λ key path. says tt;
  upload_file = λ key path. says tt;
  copy = λ source target. says tt;
  remove = λ key. says tt;
  list_prefix = λ prefix. says [];
  hash_file = λ path. says ("00", 900);
  probe_media = λ path. says tt;
  validate_decode = λ path. says tt;
  is_worker_canonical = λ probe. true;
  normalize_video =
      λ path. says (record { output_path = "out.mp4"; strategy = "remux"; probe = tt });
  end_normalize = λ normalized. says tt;
  commit_ready = λ job key sha size normalized w. (commit, w);
  finish_failure = λ job reason retryable. says tt;
  is_referenced = λ key. says false;
  mark_cleaned = λ job. says tt;
}

abbrev committing : Ports ℕ (Unit {0})
committing = ports_with (Outcome.returned tt)

abbrev failing : Ports ℕ (Unit {0})
failing = ports_with (Outcome.raised WorkError.sqlalchemy_error)

abbrev verified : List Deed
verified =
    Deed.decoded "canonical.mp4"
    ∷ Deed.probed "canonical.mp4" true
    ∷ Deed.hashed "canonical.mp4" "00" 900
    ∷ Deed.downloaded "videos/00.mp4" "canonical.mp4"
    ∷ Deed.hashed "out.mp4" "00" 900
    ∷ []

committed_job : run_once committing (start committing 0) ≡ (
  Outcome.returned true,
  record {
    world = 0;
    log =
        Deed.source_removed "instagram-sources/first.mp4"
        ∷ Deed.committed "videos/00.mp4" "out.mp4"
        ∷ verified;
  },
)
unfolding run_once ◌>>=◌ pure raise try_except finally followed_by
committed_job = refl

failed_job :
    (run_once failing (start failing 0)).1.log ≡ Deed.final_removed "videos/00.mp4" ∷ verified
unfolding run_once ◌>>=◌ pure raise try_except finally followed_by
failed_job = refl

run_once-in_order_example : in_order (run_once failing (start failing 0)).1.log ≡ true
run_once-in_order_example = run_once-in_order failing 0
