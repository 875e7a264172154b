-- ===== src/Collector/Ledger/Verdicts/Ending.antt =====
-- So has every other way to end a run.
use offline_reels.Base.{ℕ, zero, suc, Option, none, some, String, ◌==◌, string_eq}
use offline_reels.Pipeline.Persistence.{ReelCandidate}
use offline_reels.Action.Lands.{
  Lands, Lands-bind, Lands-pure, Lands-test, Lands-try_except, Lands-finally,
}
use offline_reels.Collector.Limits.{CollectorLimits}
use offline_reels.Collector.Canonical.{SplitUrl}
use offline_reels.Collector.Ports.{Exn, Ports}
use offline_reels.Collector.Calls.{CollectorSummary}
use offline_reels.Collector.Ledger.{On, newest_verdict}
use offline_reels.Collector.Ledger.Rules.{helper_rules}
use offline_reels.Collector.Turn.{Task, LoopEnd, Turn, loop, next_turn}
use offline_reels.Collector.Collect.{
  supervised, body, on_exception, report_failed, report_cancelled, after_loop, close_feed,
  reason_or,
}
use offline_reels.Action.Keeps.{Keeps}
use offline_reels.Collector.Ledger.Verdicts.Turns.{turn-Lands}
use offline_reels.Collector.Ledger.Verdicts.{
  Any, SaidAtEnd, Said, SaidOf, safe_fail_run-Lands, safe_cancel_run-Lands, any, summarize-Lands,
}

module _ {W : Type 0} (ports : Ports W) (limits : CollectorLimits)
    (urlsplit : String → Option SplitUrl) (task : Task) where
  loop-Lands :
      (fuel : ℕ) (candidate : ReelCandidate)
      → Lands
          (On Any)
          (loop ports limits urlsplit task fuel candidate)
          (λ e. On (SaidAtEnd e))
          (On Any)
  unfolding loop
  loop-Lands zero candidate = Lands-pure _ (λ s p. p)
  loop-Lands (suc fuel) candidate =
      Lands-bind (turn-Lands ports limits urlsplit task candidate) λ t. onwards t (loop-Lands fuel)
    where
      onwards :
          (t : Turn)
          → ((candidate : ReelCandidate)
              → Lands
                  (On Any)
                  (loop ports limits urlsplit task fuel candidate)
                  (λ e. On (SaidAtEnd e))
                  (On Any))
          → Lands
              (On (Said t))
              (next_turn ports limits urlsplit task t (loop ports limits urlsplit task fuel))
              (λ e. On (SaidAtEnd e))
              (On Any)
      onwards Turn.broke h = Lands-pure _ (λ s p. p)
      onwards (Turn.finished summary) h = Lands-pure _ (λ s p. p)
      onwards (Turn.again candidate) h = h candidate

  report_failed-Lands :
      (code : String) (reason : Option String)
      → Lands
          (On Any)
          (report_failed ports limits urlsplit task code reason)
          (λ r. On (SaidOf r))
          (On Any)
  unfolding report_failed
  report_failed-Lands code reason = Lands-bind (safe_fail_run-Lands ports task.run_id code) λ _.
      Lands-bind (summarize-Lands ports task.run_id task.target_count reason _)
        λ summary. Lands-pure _ (λ s p. p)

  report_cancelled-Lands :
      (reason : String)
      → Lands
          (On Any)
          (report_cancelled ports limits urlsplit task reason)
          (λ r. On (SaidOf r))
          (On Any)
  unfolding report_cancelled
  report_cancelled-Lands reason = Lands-bind (safe_cancel_run-Lands ports task.run_id) λ _.
      Lands-bind (summarize-Lands ports task.run_id task.target_count (some reason) _)
        λ summary. Lands-pure _ (λ s p. p)

  on_exception-Lands :
      (e : Exn)
      → Lands (On Any) (on_exception ports limits urlsplit task e) (λ r. On (SaidOf r)) (On Any)
  unfolding on_exception
  on_exception-Lands Exn.invalid_reel_candidate = report_failed-Lands _ _
  on_exception-Lands Exn.keyboard_interrupt = report_cancelled-Lands _
  on_exception-Lands Exn.limit_exceeded = report_failed-Lands _ _
  on_exception-Lands Exn.deadline_exceeded = report_failed-Lands _ _
  on_exception-Lands Exn.type_error = report_failed-Lands _ _
  on_exception-Lands Exn.value_error = report_failed-Lands _ _
  on_exception-Lands (Exn.failure code) =
      Lands-test (reason_or ports limits urlsplit task code == "BROWSER_CLOSED")
        (λ _. report_cancelled-Lands _) (λ _. report_failed-Lands _ _)

  after_loop-Lands :
      (end : LoopEnd)
      → Lands
          (On (SaidAtEnd end))
          (after_loop ports limits urlsplit task end)
          (λ r. On (SaidOf r))
          (On Any)
  unfolding after_loop
  after_loop-Lands LoopEnd.out_of_fuel = Lands-pure _ (λ s p. p)
  after_loop-Lands (LoopEnd.completed summary) = Lands-pure _ (λ s p. p)
  after_loop-Lands LoopEnd.stopped = Lands-bind any λ reason. report_failed-Lands _ _

  pub supervised-Lands :
      (fuel : ℕ)
      → Lands (On Any) (supervised ports limits urlsplit task fuel) (λ r. On (SaidOf r)) (On Any)
  unfolding supervised body close_feed newest_verdict
  supervised-Lands fuel =
      Lands-finally
        (Lands-try_except
          (Lands-bind any λ candidate. Lands-bind (loop-Lands fuel candidate) after_loop-Lands)
          on_exception-Lands)
        said (search helper_rules depth 9) (λ r s p. record { holds = tt })
    where
      said :
          (r : Option CollectorSummary)
          → Keeps (On {W = W} (SaidOf r)) (close_feed ports limits urlsplit task)
      said none = search helper_rules depth 9
      said (some summary) = search helper_rules depth 9
