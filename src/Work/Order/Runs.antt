-- ===== src/Work/Order/Runs.antt =====
-- One call of `run_once`.
use offline_reels.Base.{
  ◌≡◌, refl, Bool, true, false, Option, none, some, String, List, [], ◌∷◌, string_eq, nat_eq,
}
use offline_reels.Pipeline.Normalizer.{ClaimedNormalizationJob}
use offline_reels.Action.{Outcome, pure}
use offline_reels.Action.Keeps.{Keeps, Keeps-bind}
use offline_reels.Action.Lands.{
  Lands, Landed, Lands-bind, Lands-pure, Lands-raise, Lands-test, Lands-try_except, Lands-finally,
  Lands-mono,
}
use offline_reels.Work.Ports.{
  Ports, Job, WorkError, Deed, Normalized, Working, call, unless_exception, is_exception,
}
use offline_reels.Work.Process.{
  run_once, run_claimed, process, finish_output, fail_claimed, remove_all, cleanup_staging,
}
use offline_reels.Work.Order.{
  work_rules, Logged, Ordered, in_order, Before, Keeps-call, any_deed, After, same,
}
use offline_reels.Work.Order.Publication.{
  before, Keeps-emit, Keeps-raise_if_cancelled, download_and_verify_source-Keeps,
  publish_and_commit-Lands,
}

module _ {W M : Type 0} (ports : Ports W M) where
  finish_output-Lands :
      (claimed : ClaimedNormalizationJob) (normalized : Normalized M)
      → Lands
          (Logged Before)
          (finish_output ports claimed normalized)
          (λ _. Logged After)
          (Logged Ordered)
  unfolding finish_output
  finish_output-Lands claimed normalized =
      Lands-bind (before ports (Keeps-emit ports claimed normalized.strategy none)) λ _.
        Lands-bind (before ports (Keeps-raise_if_cancelled ports)) λ _.
          Lands-test (ports.is_worker_canonical normalized.probe)
            (λ _. publish_and_commit-Lands ports claimed normalized)
            (λ _.
              Lands-raise WorkError.media_compatibility_error (λ s p. record { holds = p.holds.0 }))

  process-Lands :
      (claimed : ClaimedNormalizationJob)
      → Lands (Logged Before) (process ports claimed) (λ _. Logged Ordered) (Logged Ordered)
  unfolding process
  process-Lands claimed = Lands-bind (before ports (Keeps-raise_if_cancelled ports)) λ _.
      Lands-bind (before ports (download_and_verify_source-Keeps ports claimed)) λ _.
        Lands-bind (before ports (Keeps-emit ports claimed "source_verified" none)) λ _.
          Lands-bind (before ports (Keeps-raise_if_cancelled ports)) λ _.
            Lands-bind (before ports (Keeps-call (ports.normalize_video "source.mp4")))
              λ normalized.
                Lands-mono (λ s p. p) (λ a s p. record { holds = p.holds.0 }) (λ s p. p)
                  (Lands-finally (finish_output-Lands claimed normalized)
                    (λ a. Keeps-call (ports.end_normalize normalized))
                    (Keeps-call (ports.end_normalize normalized))
                    (λ a s p. record { holds = p.holds.0 }))

  fail_claimed-Keeps :
      {P : List Deed → Type 0} (claimed : ClaimedNormalizationJob) (e : WorkError)
      → Keeps (Logged P) (fail_claimed ports claimed e)
  unfolding fail_claimed
  fail_claimed-Keeps claimed e = search work_rules depth 9

  remove_all-Keeps :
      {P : List Deed → Type 0} (keys : List String) → Keeps (Logged P) (remove_all ports keys)
  unfolding remove_all
  remove_all-Keeps [] = search work_rules
  remove_all-Keeps (key ∷ keys) =
      Keeps-bind (call (ports.remove key)) _ (Keeps-call (ports.remove key))
        (λ _. remove_all-Keeps keys)

  cleanup_staging-Keeps :
      {P : List Deed → Type 0} (prefix : String) → Keeps (Logged P) (cleanup_staging ports prefix)
  unfolding cleanup_staging
  cleanup_staging-Keeps prefix = search (work_rules, remove_all-Keeps) depth 9

  ordered :
      {A : Type 0} {m : Job W A}
      → Keeps (Logged Ordered) m
      → Lands (Logged Ordered) m (λ _. Logged Ordered) (Logged Ordered)
  ordered k = same k (λ log p. p)

  run_claimed-Lands :
      (claimed : ClaimedNormalizationJob)
      → Lands (Logged Before) (run_claimed ports claimed) (λ _. Logged Ordered) (Logged Ordered)
  unfolding run_claimed unless_exception
  run_claimed-Lands claimed =
      Lands-bind (before ports (Keeps-emit ports claimed "claimed" none)) λ _.
        Lands-bind
          (Lands-finally
            (Lands-try_except (process-Lands claimed) λ e.
              Lands-test (is_exception e) (λ _. ordered (fail_claimed-Keeps claimed e))
                (λ _. Lands-raise e (λ s p. p)))
            (λ a. cleanup_staging-Keeps claimed.staging_prefix)
            (cleanup_staging-Keeps claimed.staging_prefix) (λ a s p. p))
          λ _. Lands-pure true (λ s p. p)

  run_once-Lands : Lands (Logged Before) (run_once ports) (λ taken. Logged Ordered) (Logged Ordered)
  unfolding run_once
  run_once-Lands = Lands-bind (before ports (Keeps-call ports.is_cancelled)) λ cancelled.
      Lands-test cancelled (λ _. idle)
        λ _. Lands-bind (before ports (Keeps-call ports.claim)) by_claim
    where
      idle :
          Lands
            (Logged {W = W} Before)
            (pure {E = WorkError} false)
            (λ taken. Logged Ordered)
            (Logged Ordered)
      idle = Lands-pure false (λ s p. record { holds = p.holds.0 })

      by_claim :
          (claimed : Option ClaimedNormalizationJob)
          → Lands
              (Logged Before)
              (elim claimed as (λ _. Job W Bool) [
                | none ↦ pure false
                | some job ↦ run_claimed ports job
              ])
              (λ taken. Logged Ordered)
              (Logged Ordered)
      by_claim none = idle
      by_claim (some job) = run_claimed-Lands job

  -- The worker starts with an empty log.
  abbrev pub start : W → Working W
  start w = record { world = w; log = [] }

  start-Before : (w : W) → Logged Before (start w)
  unfolding in_order any_deed
  start-Before w = record { holds = (refl, refl) }

  -- Whether `run_once` returns or raises, by its log it has asked for the deletion of the source
  -- only after the commit of a final object, for the deletion of a final object only without such a
  -- commit, and has committed a final object only after it had hashed the output file, and then in
  -- a row downloaded the object, hashed that to the same digest and size, probed it and found it
  -- canonical, and decoded it.
  pub run_once-in_order : (w : W) → in_order (run_once ports (start w)).1.log ≡ true
  run_once-in_order w =
      at (run_once ports (start w)) ((run_once-Lands).lands (start w) (start-Before w))
    where
      at :
          (o : Outcome WorkError Bool × Working W)
          → Landed (λ taken. Logged Ordered) (Logged Ordered) o
          → in_order o.1.log ≡ true
      at (Outcome.returned taken, s) h = h.holds
      at (Outcome.raised e, s) h = h.holds
