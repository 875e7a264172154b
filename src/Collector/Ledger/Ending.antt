-- ===== src/Collector/Ledger/Ending.antt =====
-- How a run ends: the handlers, the closing of the feed, and the call as a whole.
use offline_reels.Base.{ℕ, ◌<◌, ◌≢◌, refl, Option, none, some, String, List, arith, ◌==◌, string_eq}
use offline_reels.Action.{pure}
use offline_reels.Action.Lands.{
  Lands, Lands-bind, Lands-pure, Lands-test, Lands-finally, Lands-try_except,
}
use offline_reels.Collector.Limits.{CollectorLimits}
use offline_reels.Collector.Canonical.{SplitUrl}
use offline_reels.Collector.Ports.{Exn, Ports, Call, Locals}
use offline_reels.Collector.Calls.{CollectorSummary, Engine}
use offline_reels.Collector.Ledger.{On}
use offline_reels.Collector.Ledger.Rules.{
  IsQuiet, helper_rules, Lands-same, Keeps-safe_fail_run, Keeps-safe_cancel_run, Lands-from,
  Keeps-given,
}
use offline_reels.Collector.Ledger.Turns.{Here-IsQuiet}
use offline_reels.Collector.Ledger.Advances.{Counted, InLimits, Counted-InLimits}
use offline_reels.Collector.Ledger.Loop.{loop-Lands, Ended}
use offline_reels.Collector.Turn.{Task, LoopEnd}
use offline_reels.Collector.Collect.{
  supervised, body, on_exception, report_failed, report_cancelled, after_loop, first_candidate,
  close_feed, reason_or,
}
use offline_reels.Action.Keeps.{Keeps}

module _ {W : Type 0} (ports : Ports W) (limits : CollectorLimits)
    (urlsplit : String → Option SplitUrl) where
  -- A summary is returned, and what is settled stays so.
  abbrev pub Summed : Option CollectorSummary → List Call → Locals → Type 0
  Summed r log l = InLimits limits log l × (r ≢ none)

  module _ (task : Task) where
    same :
        {A : Type 0} {m : Engine W A}
        → Keeps (On (InLimits limits)) m
        → Lands (On (InLimits limits)) m (λ _. On (InLimits limits)) (On (InLimits limits))
    same k = Lands-same k (λ log l p. p)

    summed :
        (summary : CollectorSummary)
        → Lands
            (On {W = W} (InLimits limits))
            (pure {E = Exn} (some summary))
            (λ r. On (Summed r))
            (On (InLimits limits))
    summed summary = Lands-pure _ (λ s p. record { holds = (p.holds, λ e. ground arith) })

    report_failed-Lands :
        (code : String) (reason : Option String)
        → Lands
            (On (InLimits limits))
            (report_failed ports limits urlsplit task code reason)
            (λ r. On (Summed r))
            (On (InLimits limits))
    unfolding report_failed
    report_failed-Lands code reason =
        Lands-bind
          (same (
            Keeps-safe_fail_run ports (Here-IsQuiet ports limits urlsplit task _) task.run_id code))
          λ _. Lands-bind (same (search helper_rules)) summed

    report_cancelled-Lands :
        (reason : String)
        → Lands
            (On (InLimits limits))
            (report_cancelled ports limits urlsplit task reason)
            (λ r. On (Summed r))
            (On (InLimits limits))
    unfolding report_cancelled
    report_cancelled-Lands reason =
        Lands-bind
          (same
            (Keeps-safe_cancel_run ports (Here-IsQuiet ports limits urlsplit task _) task.run_id))
          λ _. Lands-bind (same (search helper_rules)) summed

    on_exception-Lands :
        (e : Exn)
        → Lands
            (On (InLimits limits))
            (on_exception ports limits urlsplit task e)
            (λ r. On (Summed r))
            (On (InLimits limits))
    unfolding on_exception
    on_exception-Lands Exn.invalid_reel_candidate = report_failed-Lands _ _
    on_exception-Lands Exn.keyboard_interrupt = report_cancelled-Lands _
    on_exception-Lands Exn.limit_exceeded = report_failed-Lands _ _
    on_exception-Lands Exn.deadline_exceeded = report_failed-Lands _ _
    on_exception-Lands Exn.type_error = report_failed-Lands _ _
    on_exception-Lands Exn.value_error = report_failed-Lands _ _
    on_exception-Lands (Exn.failure code) =
        Lands-test (reason_or ports limits urlsplit task code == "BROWSER_CLOSED")
          (λ _. report_cancelled-Lands _) (λ _. report_failed-Lands _ _)

    after_loop-Lands :
        (end : LoopEnd)
        → Lands
            (On (Ended ports limits urlsplit task end))
            (after_loop ports limits urlsplit task end)
            (λ r. On (Summed r))
            (On (InLimits limits))
    unfolding after_loop
    after_loop-Lands LoopEnd.out_of_fuel =
        Lands-pure _ (λ s p. record { holds = (p.holds.0, λ e. p.holds.1 refl) })
    after_loop-Lands (LoopEnd.completed summary) = Lands-from (λ log l h. h.0) (summed summary)
    after_loop-Lands LoopEnd.stopped =
        Lands-from (λ log l h. h.0)
          (Lands-bind (same (search helper_rules)) λ reason. report_failed-Lands _ _)

    body-Lands :
        (fuel : ℕ)
        → limits.max_advances < fuel
        → Lands
            (On (Counted limits 0))
            (body ports limits urlsplit task fuel)
            (λ r. On (Summed r))
            (On (InLimits limits))
    unfolding body first_candidate
    body-Lands fuel enough =
        Lands-bind (Lands-same (search helper_rules depth 9) (Counted-InLimits limits 0))
          λ candidate.
            Lands-bind (loop-Lands ports limits urlsplit task fuel 0 candidate (omega arith))
              λ end. after_loop-Lands end

    close_feed-Keeps :
        {P : List Call → Locals → Type 0}
        → IsQuiet P
        → Keeps (On P) (close_feed ports limits urlsplit task)
    unfolding close_feed
    close_feed-Keeps quiet = search (helper_rules, quiet.closed) depth 9

    pub supervised-Lands :
        (fuel : ℕ)
        → limits.max_advances < fuel
        → Lands
            (On (Counted limits 0))
            (supervised ports limits urlsplit task fuel)
            (λ r. On (Summed r))
            (On (InLimits limits))
    unfolding supervised
    supervised-Lands fuel enough =
        Lands-finally (Lands-try_except (body-Lands fuel enough) on_exception-Lands)
          (λ r. Keeps-given (close_feed-Keeps (Here-IsQuiet ports limits urlsplit task _)))
          (close_feed-Keeps (Here-IsQuiet ports limits urlsplit task _))
          (λ r s p. record { holds = p.holds.0 })
