-- ===== src/Collector/Ledger/Verdicts/Turns.antt =====
-- A turn that ends the method has reported the status of its summary.
use offline_reels.Base.{
  ◌+◌, ◌≡◌, refl, Option, none, some, String, arith, true, leb, false, Bool, string_eq,
  if◌then◌else◌,
}
use offline_reels.Domain.Statuses.{CollectionRunStatus}
use offline_reels.Pipeline.Persistence.{ReelCandidate}
use offline_reels.Action.{◌>>=◌, pure}
use offline_reels.Action.Lands.{
  Lands, Lands-bind, Lands-pure, Lands-test, Lands-try_except, Lands-raise,
}
use offline_reels.Collector.Limits.{CollectorLimits, at_limit}
use offline_reels.Collector.Canonical.{SplitUrl, is_valid_candidate}
use offline_reels.Collector.Ports.{Ports}
use offline_reels.Collector.Calls.{Engine, unless_exception, is_exception}
use offline_reels.Collector.Ledger.{On, newest_verdict}
use offline_reels.Collector.Ledger.Rules.{Lands-from, Lands-note}
use offline_reels.Collector.Turn.{
  Task, Turn, break_with, complete, conclude, settle, arrive, move, advance_turn, turn, accept_next,
  give_up, observe,
}
use offline_reels.Collector.Ledger.Verdicts.{
  Any, Said, Given, any, summarize-Lands, safe_fail_run-Lands,
}

module _ {W : Type 0} (ports : Ports W) (limits : CollectorLimits)
    (urlsplit : String → Option SplitUrl) (task : Task) where
  break_with-Lands :
      (reason : String)
      → Lands (On Any) (break_with ports limits urlsplit task reason) (λ t. On (Said t)) (On Any)
  unfolding break_with
  break_with-Lands reason = Lands-bind any λ _. Lands-pure _ (λ s p. p)

  complete-Lands :
      Lands
        (On Any)
        (complete ports limits urlsplit task)
        (λ done. On (λ log l. done ≡ true → Given CollectionRunStatus.completed log l))
        (On Any)
  unfolding complete unless_exception newest_verdict
  complete-Lands =
      Lands-try_except
        (Lands-bind any λ done.
          Lands-test done
            (λ _.
              Lands-bind (Lands-note {R = Given CollectionRunStatus.completed} _ (λ log l p. refl))
                λ _. Lands-pure true (λ s p. record { holds = λ _. p.holds }))
            (λ _. Lands-bind any λ _. Lands-raise _ (λ s p. p)))
        λ e.
          Lands-test (is_exception e)
            (λ _. Lands-pure false (λ s p. record { holds = λ h. ground arith }))
            (λ _. Lands-raise e (λ s p. p))

  conclude-Lands : Lands (On Any) (conclude ports limits urlsplit task) (λ t. On (Said t)) (On Any)
  unfolding conclude
  conclude-Lands = Lands-bind complete-Lands λ done.
      Lands-test done
        (λ yes.
          Lands-bind
            (Lands-from (λ log l h. h yes)
              (summarize-Lands ports task.run_id task.target_count none
                CollectionRunStatus.completed))
            λ summary. Lands-pure _ (λ s p. p))
        (λ _. Lands-bind any λ reason. Lands-bind any λ _.
          Lands-bind (safe_fail_run-Lands ports task.run_id reason) λ _.
            Lands-bind
              (summarize-Lands ports task.run_id task.target_count (some reason)
                CollectionRunStatus.failed)
              λ summary. Lands-pure _ (λ s p. p))

  arrive-Lands :
      (candidate : ReelCandidate)
      → Lands (On Any) (arrive ports limits urlsplit task candidate) (λ t. On (Said t)) (On Any)
  unfolding arrive
  arrive-Lands candidate =
      Lands-bind any λ _. Lands-bind any λ _. Lands-bind any λ _. Lands-pure _ (λ s p. p)

  move-Lands :
      (candidate : ReelCandidate)
      → Lands (On Any) (move ports limits urlsplit task candidate) (λ t. On (Said t)) (On Any)
  unfolding move accept_next give_up
  move-Lands candidate = Lands-bind any λ _. Lands-bind any λ _.
      Lands-bind any
        λ l. Lands-bind any λ moved. Lands-bind any λ _. onwards moved.next moved.reason
    where
      onwards :
          (next : Option ReelCandidate) (reason : Option String)
          → Lands
              (On Any)
              (elim next as (λ _. Engine W Turn) [
                | some candidate ↦ accept_next ports limits urlsplit task candidate
                | none ↦ give_up ports limits urlsplit task reason
              ])
              (λ t. On (Said t))
              (On Any)
      onwards none none = Lands-bind any λ expired. break_with-Lands _
      onwards none (some reason) = break_with-Lands reason
      onwards (some candidate) reason =
          Lands-test (is_valid_candidate urlsplit candidate)
            (λ _. Lands-bind any λ repeated.
              Lands-test repeated (λ _. break_with-Lands _) (λ _. arrive-Lands candidate))
            (λ _. break_with-Lands _)

  advance_turn-Lands :
      (candidate : ReelCandidate)
      → Lands
          (On Any)
          (advance_turn ports limits urlsplit task candidate)
          (λ t. On (Said t))
          (On Any)
  unfolding advance_turn
  advance_turn-Lands candidate = Lands-bind any λ late. Lands-bind any λ l.
      Lands-test late (λ _. break_with-Lands _)
        λ _.
          Lands-test (leb limits.max_advances l.confirmed_advances) (λ _. break_with-Lands _)
            λ _.
              Lands-test (at_limit limits.max_transition_operations l.transition_operations)
                (λ _. break_with-Lands _)
                λ _. Lands-bind any λ _. Lands-bind any λ too_late.
                  Lands-test too_late (λ _. break_with-Lands _) (λ _. move-Lands candidate)

  pub turn-Lands :
      (candidate : ReelCandidate)
      → Lands (On Any) (turn ports limits urlsplit task candidate) (λ t. On (Said t)) (On Any)
  unfolding turn settle
  turn-Lands candidate = Lands-bind any λ _. Lands-bind any λ late. Lands-bind any λ l.
      Lands-test late (λ _. break_with-Lands _)
        λ _.
          Lands-test (at_limit limits.max_observations l.observations) (λ _. break_with-Lands _)
            λ _. Lands-bind any λ _. Lands-bind any by_ownership
    where
      settled :
          Lands (On Any) (settle ports limits urlsplit task candidate) (λ t. On (Said t)) (On Any)
      settled = Lands-bind any λ counts.
          Lands-test (leb task.target_count (counts.committed + counts.available))
            (λ _. conclude-Lands) (λ _. advance_turn-Lands candidate)

      by_ownership :
          (owned : Option Bool)
          → Lands
              (On Any)
              (elim owned as (λ _. Engine W Turn) [
                | none ↦ break_with ports limits urlsplit task "DUPLICATE_REEL"
                | some own ↦ observe ports limits urlsplit task candidate own >>= λ over.
                    if over then pure Turn.broke else settle ports limits urlsplit task candidate
              ])
              (λ t. On (Said t))
              (On Any)
      by_ownership none = break_with-Lands _
      by_ownership (some own) =
          Lands-bind any λ over. Lands-test over (λ _. Lands-pure _ (λ s p. p)) (λ _. settled)
