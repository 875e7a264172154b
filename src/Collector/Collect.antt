-- ===== src/Collector/Collect.antt =====
-- CollectorEngine.collect: the checks, the run, the loop, the handlers and the closing of the feed.
use offline_reels.Base.{ℕ, Option, none, some, String, [], ◌+◌, if◌then◌else◌, ◌==◌, string_eq}
use offline_reels.Domain.Statuses.{CollectionTrigger, CollectionRunStatus}
use offline_reels.Action.{pure, raise, try_except, finally, ◌>>=◌, ◌>>◌}
use offline_reels.Collector.Canonical.{SplitUrl, is_valid_candidate}
use offline_reels.Collector.Limits.{CollectorLimits, is_rejected}
use offline_reels.Collector.Ports.{Exn, Ports, Call, Locals}
use offline_reels.Collector.Calls.{
  Engine, CollectorSummary, call, note, get, set, swallow, raise_if_cancel_requested, safe_fail_run,
  safe_cancel_run, summarize, safe_exception_code,
}
use offline_reels.Collector.Source.{fresh_attempt}
use offline_reels.Collector.Turn.{Task, LoopEnd, loop}
use offline_reels.Pipeline.Persistence.{ReelCandidate}

abbrev pub fresh_locals : Locals
fresh_locals = record {
  confirmed_advances = 0;
  transition_operations = 0;
  scroll_actions = 0;
  committed_bytes = 0;
  seen = [];
  duplicate_skipped_count = 0;
  observations = 0;
  reason = none;
  position = 1;
  attempt = fresh_attempt;
}

-- The arguments of `collect`.
pub record Request : Type 0 where
  pub account_id : ℕ
  pub trigger : CollectionTrigger
  pub target_count : ℕ
  pub desired_account_total : Option ℕ
  pub claimed_run_id : Option ℕ

module _ {W : Type 0} (ports : Ports W) (limits : CollectorLimits)
    (urlsplit : String → Option SplitUrl) where
  module _ (task : Task) where
    -- What a stop, or an exception, makes of the run.
    unfoldable pub report_failed : String → Option String → Engine W (Option CollectorSummary)
    unfolding safe_fail_run summarize
    report_failed code reason = do
      safe_fail_run ports task.run_id code
      summary ← summarize ports task.run_id task.target_count reason CollectionRunStatus.failed
      pure (some summary)

    unfoldable pub report_cancelled : String → Engine W (Option CollectorSummary)
    unfolding safe_cancel_run summarize
    report_cancelled reason = do
      safe_cancel_run ports task.run_id
      summary ←
          summarize ports task.run_id task.target_count (some reason) CollectionRunStatus.cancelled
      pure (some summary)

    unfoldable pub first_candidate : Engine W ReelCandidate
    unfolding call raise_if_cancel_requested is_valid_candidate
    first_candidate = do
      raise_if_cancel_requested ports task.run_id
      candidate ← call ports.current
      if is_valid_candidate urlsplit candidate
          then pure candidate
          else raise Exn.invalid_reel_candidate

    abbrev pub reason_or : Option String → String
    reason_or none = "COLLECTOR_FAILED"
    reason_or (some reason) = if reason == "" then "COLLECTOR_FAILED" else reason

    unfoldable pub after_loop : LoopEnd → Engine W (Option CollectorSummary)
    unfolding get report_failed
    after_loop LoopEnd.out_of_fuel = pure none
    after_loop (LoopEnd.completed summary) = pure (some summary)
    after_loop LoopEnd.stopped = do
      reason ← get (λ l. l.reason)
      report_failed (reason_or reason) reason

    unfoldable pub body : ℕ → Engine W (Option CollectorSummary)
    unfolding first_candidate loop after_loop
    body fuel = do
      candidate ← first_candidate
      end ← loop ports limits urlsplit task fuel candidate
      after_loop end

    unfoldable pub on_exception : Exn → Engine W (Option CollectorSummary)
    unfolding report_failed report_cancelled
    on_exception Exn.invalid_reel_candidate =
        report_failed "INVALID_REEL_CANDIDATE" (some "INVALID_REEL_CANDIDATE")
    on_exception Exn.keyboard_interrupt = report_cancelled "CANCELLED_BY_USER"
    on_exception e =
        let reason = reason_or (safe_exception_code e) in
        if reason == "BROWSER_CLOSED"
        then report_cancelled reason
        else report_failed reason (some reason)

    unfoldable pub close_feed : Engine W (Unit {0})
    unfolding swallow call note
    close_feed = swallow (do note Call.closed; call ports.close)

    unfoldable pub supervised : ℕ → Engine W (Option CollectorSummary)
    unfolding body on_exception close_feed
    supervised fuel = finally (try_except (body fuel) on_exception) close_feed

  unfoldable pub run_of : Request → Engine W ℕ
  unfolding call
  run_of request = elim request.claimed_run_id [
    | some run_id ↦ pure run_id
    | none ↦ call (ports.create_run request.account_id request.trigger request.target_count)
  ]

  unfoldable pub deadline_of : Engine W (Option ℕ)
  unfolding call
  deadline_of = elim limits.deadline_seconds [
    | none ↦ pure none
    | some seconds ↦ do now ← call ports.clock; pure (some (now + seconds))
  ]

  -- `fuel` bounds the turns of the loop; nothing is returned only if it does not suffice.
  unfoldable pub collect : ℕ → Request → Engine W (Option CollectorSummary)
  unfolding set run_of deadline_of supervised is_rejected
  collect fuel request =
      if is_rejected limits request.target_count request.desired_account_total
      then raise Exn.value_error
      else do
        run_id ← run_of request
        deadline ← deadline_of
        set (λ l. fresh_locals)
        supervised
            (record {
              account_id = request.account_id;
              target_count = request.target_count;
              desired_account_total = request.desired_account_total;
              run_id = run_id;
              deadline = deadline;
            })
            fuel
