-- ===== src/Work/Order/Publication.antt =====
-- A final object is verified, then committed, and then the source is deleted.
use offline_reels.Base.{
  ℕ, refl, Bool, true, false, ◌||◌, not, Option, none, some, String, List, ◌==◌, string_eq,
  if◌then◌else◌, nat_eq, followed_by, ◌≡◌, ◌∷◌, [],
}
use offline_reels.Pipeline.Normalizer.{ClaimedNormalizationJob}
use offline_reels.Action.{pure, raise, ◌>>=◌}
use offline_reels.Action.Keeps.{Keeps}
use offline_reels.Action.Lands.{
  Lands, Lands-bind, Lands-pure, Lands-raise, Lands-test, Lands-try_except, Lands-mono,
}
use offline_reels.Work.Ports.{
  Ports, Port, Job, WorkError, Deed, Normalized, call, note, unless_exception, is_exception,
}
use offline_reels.Domain.Reasons.{ReasonCode}
use offline_reels.Work.Process.{
  publish_and_commit, commit_ready, cleanup_source_after_commit, publish_final, or_compensate,
  verify_final, compensate_final, download_and_verify_source, raise_if_cancelled, emit,
}
use offline_reels.Work.Order.{
  work_rules, Logged, Keeps-call, Before, Verified, After, Ordered, Before-final_removed, same,
  After-source_removed, noted, After-committed, Since, Hashed, are_readings, note, Hashed-hashed,
  Before-since, Since-note, probes, decodes, Verified-decodes, Since-start, downloads, hashes,
}

module _ {W M : Type 0} (ports : Ports W M) where
  pub download_and_verify_source-Keeps :
      {P : List Deed → Type 0} (claimed : ClaimedNormalizationJob)
      → Keeps (Logged P) (download_and_verify_source ports claimed)
  unfolding download_and_verify_source
  download_and_verify_source-Keeps claimed = search work_rules depth 20

  pub Keeps-raise_if_cancelled :
      {P : List Deed → Type 0} → Keeps (Logged P) (raise_if_cancelled ports)
  unfolding raise_if_cancelled
  Keeps-raise_if_cancelled = search work_rules

  pub Keeps-emit :
      {P : List Deed → Type 0} (claimed : ClaimedNormalizationJob) (event : String)
      (reason : Option ReasonCode)
      → Keeps (Logged P) (emit ports claimed event reason)
  unfolding emit
  Keeps-emit claimed event reason = Keeps-call _

  pub before :
      {A : Type 0} {m : Job W A}
      → Keeps (Logged Before) m
      → Lands (Logged Before) m (λ _. Logged Before) (Logged Ordered)
  before k = same k (λ log p. p.0)

  pub up :
      {P R : List Deed → Type 0} {A : Type 0} {m : Job W A}
      → Lands (Logged P) m (λ _. Logged R) (Logged Before)
      → Lands (Logged P) m (λ _. Logged R) (Logged Ordered)
  up h = Lands-mono (λ s p. p) (λ a s p. p) (λ s p. record { holds = p.holds.0 }) h

  pub compensate_final-Keeps :
      (key : String) (created : Bool) → Keeps (Logged Before) (compensate_final ports key created)
  unfolding compensate_final
  compensate_final-Keeps key created = search (work_rules, Before-final_removed) depth 20

  -- A call that fails has added nothing to what has been read.
  read :
      {A : Type 0} {P : List Deed → Type 0} (deeds : List Deed) (port : Port W A)
      → are_readings deeds ≡ true
      → ((older : List Deed) → P older → Before older)
      → Lands (Logged (Since deeds P)) (call port) (λ _. Logged (Since deeds P)) (Logged Before)
  read deeds port h up = same (Keeps-call port) (λ log p. Before-since deeds log h up p)

  logged :
      {P : List Deed → Type 0} (deeds : List Deed) (d : Deed)
      → Lands
          (Logged {W = W} (Since deeds P))
          (note d)
          (λ _. Logged (Since (d ∷ deeds) P))
          (Logged Before)
  logged deeds d = noted d (λ log p. Since-note deeds d log p)

  pub verify_final-Lands :
      (key path sha : String) (size : ℕ)
      → Lands
          (Logged (Hashed path sha size))
          (verify_final ports key sha size)
          (λ _. Logged (Verified key path))
          (Logged Before)
  unfolding verify_final
  verify_final-Lands key path sha size =
      Lands-mono (λ s p. record { holds = Since-start s.log p.holds }) (λ a s p. p) (λ s p. p)
        (Lands-bind (read [] (ports.download_file key file) refl up) λ _.
          Lands-bind (logged [] (Deed.downloaded key file)) λ _.
            Lands-bind (read (downloads key file) (ports.hash_file file) refl up) λ actual.
              Lands-bind (logged (downloads key file) (Deed.hashed file actual.0 actual.1)) λ _.
                Lands-test (not (actual.0 == sha) || not (actual.1 == size))
                  (λ _. conflict (hashes key file actual) refl)
                  (λ equal.
                    Lands-bind (read (hashes key file actual) (ports.probe_media file) refl up)
                      λ probe.
                        Lands-bind
                          (logged (hashes key file actual)
                            (Deed.probed file (ports.is_worker_canonical probe)))
                          λ _. decoded_after actual equal (ports.is_worker_canonical probe)))
    where
      file : String
      file = "canonical.mp4"

      up : (older : List Deed) → Hashed path sha size older → Before older
      up older h = h.0

      conflict :
          (deeds : List Deed)
          → are_readings deeds ≡ true
          → Lands {A = Unit {0}}
              (Logged (Since deeds (Hashed path sha size)))
              (raise WorkError.final_object_conflict)
              (λ _. Logged (Verified key path))
              (Logged {W = W} Before)
      conflict deeds h =
          Lands-raise WorkError.final_object_conflict
            (λ s p. record { holds = Before-since deeds s.log h up p.holds })

      decoded_after :
          (actual : String × ℕ)
          → (not (actual.0 == sha) || not (actual.1 == size)) ≡ false
          → (canonical : Bool)
          → Lands
              (Logged (Since (probes key file actual canonical) (Hashed path sha size)))
              (call (ports.validate_decode file) >>= λ _. note (Deed.decoded file) >>= λ _.
                if not canonical then raise WorkError.final_object_conflict else pure tt)
              (λ _. Logged (Verified key path))
              (Logged Before)
      decoded_after actual equal canonical =
          Lands-bind (read (probes key file actual canonical) (ports.validate_decode file) refl up)
            λ _. Lands-bind (logged (probes key file actual canonical) (Deed.decoded file)) λ _.
              Lands-test (not canonical) (λ _. conflict (decodes key file actual canonical) refl)
                (λ found. Lands-pure tt (λ s p. record {
                  holds =
                      Verified-decodes key file path sha size actual canonical s.log equal found
                        p.holds;
                }))

  pub or_compensate-Lands :
      {P R : List Deed → Type 0} (m : Job W (Unit {0})) (key : String) (created : Bool)
      → Lands (Logged P) m (λ _. Logged R) (Logged Before)
      → Lands (Logged P) (or_compensate ports m key created) (λ _. Logged R) (Logged Before)
  unfolding or_compensate unless_exception
  or_compensate-Lands m key created h = Lands-try_except h λ e.
      Lands-test (is_exception e)
        (λ _.
          Lands-bind (same (compensate_final-Keeps key created) (λ log p. p))
            λ _. Lands-raise e (λ s p. p))
        (λ _. Lands-raise e (λ s p. p))

  publish_final-Lands :
      (staging_key key path : String)
      → Lands
          (Logged Before)
          (publish_final ports staging_key key path)
          (λ _. Logged (Verified key path))
          (Logged Before)
  unfolding publish_final
  publish_final-Lands staging_key key path = Lands-bind (same (Keeps-call _) (λ log p. p)) λ output.
      Lands-bind
        (noted (Deed.hashed path output.0 output.1)
          (λ log p. Hashed-hashed path output.0 output.1 log p))
        λ _.
          Lands-bind (same (search work_rules depth 9) (λ log p. p.0))
            λ existing. by_existing output existing
    where
      by_existing :
          (output : String × ℕ) (existing : Option ℕ)
          → Lands
              (Logged (Hashed path output.0 output.1))
              (elim existing as (λ _. Job W Bool) [
                | none ↦ call (ports.copy staging_key key) >>= λ _.
                    or_compensate ports (verify_final ports key output.0 output.1) key true >>= λ _.
                    pure true
                | some byte_size ↦
                    if not (byte_size == output.1)
                    then raise WorkError.final_object_conflict
                    else verify_final ports key output.0 output.1 >>= λ _. pure false
              ])
              (λ _. Logged (Verified key path))
              (Logged Before)
      by_existing output none = Lands-bind (same (Keeps-call _) (λ log p. p.0)) λ _.
          Lands-bind
            (or_compensate-Lands _ key true (verify_final-Lands key path output.0 output.1))
            λ _. Lands-pure true (λ s p. p)
      by_existing output (some byte_size) =
          Lands-test (not (byte_size == output.1))
            (λ _. Lands-raise _ (λ s p. record { holds = p.holds.0 }))
            λ _.
              Lands-bind (verify_final-Lands key path output.0 output.1)
                λ _. Lands-pure false (λ s p. p)

  pub commit_ready-Lands :
      (claimed : ClaimedNormalizationJob) (key sha : String) (size : ℕ) (normalized : Normalized M)
      → Lands
          (Logged (Verified key normalized.output_path))
          (commit_ready ports claimed key sha size normalized)
          (λ _. Logged After)
          (Logged Before)
  unfolding commit_ready
  commit_ready-Lands claimed key sha size normalized =
      Lands-bind (same (Keeps-call _) (λ log p. p.0))
        λ _. noted _ (After-committed key normalized.output_path)

  pub cleanup_source-Keeps :
      (claimed : ClaimedNormalizationJob)
      → Keeps (Logged After) (cleanup_source_after_commit ports claimed)
  unfolding cleanup_source_after_commit
  cleanup_source-Keeps claimed = search (work_rules, After-source_removed) depth 20

  pub publish_and_commit-Lands :
      (claimed : ClaimedNormalizationJob) (normalized : Normalized M)
      → Lands
          (Logged Before)
          (publish_and_commit ports claimed normalized)
          (λ _. Logged After)
          (Logged Ordered)
  unfolding publish_and_commit
  publish_and_commit-Lands claimed normalized = Lands-bind (before (Keeps-call _)) λ output.
      Lands-bind (before (Keeps-call _)) λ _.
        Lands-bind (before (Keeps-emit claimed "normalized" none)) λ _.
          Lands-bind
            (up (publish_final-Lands _ (followed_by "videos/" (followed_by output.0 ".mp4")) _))
            λ created.
              Lands-bind (same (Keeps-emit claimed "final_published" none) (λ log p. p.0.0)) λ _.
                Lands-bind (same Keeps-raise_if_cancelled (λ log p. p.0.0)) λ _.
                  Lands-bind
                    (up (
                      or_compensate-Lands _ _ created (
                        commit_ready-Lands claimed
                          (followed_by "videos/" (followed_by output.0 ".mp4")) output.0 output.1
                          normalized)))
                    λ _.
                      Lands-bind (same (Keeps-emit claimed "db_committed" none) (λ log p. p.0)) λ _.
                        Lands-bind (same (cleanup_source-Keeps claimed) (λ log p. p.0))
                          λ _. same (Keeps-emit claimed "completed" none) (λ log p. p.0)
