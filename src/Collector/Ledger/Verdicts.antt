-- ===== src/Collector/Ledger/Verdicts.antt =====
-- The summary that is returned has the status that the run was last given.
pub mod Turns
pub mod Ending
use offline_reels.Base.{
  ℕ, zero, suc, ◌+◌, ◌≤◌, ◌<◌, ◌≡◌, ◌≢◌, refl, Option, none, some, String, List, [], ◌∷◌, arith,
  true, leb, false, Bool, ◌==◌, string_eq, if◌then◌else◌,
}
use offline_reels.Domain.Statuses.{CollectionRunStatus}
use offline_reels.Pipeline.Persistence.{ReelCandidate}
use offline_reels.Action.{Outcome, ◌>>=◌, pure}
use offline_reels.Action.Lands.{
  Lands, Lands-bind, Lands-pure, Lands-test, Lands-try_except, Lands-raise, Lands-finally,
}
use offline_reels.Collector.Limits.{CollectorLimits, at_limit}
use offline_reels.Collector.Canonical.{SplitUrl, is_valid_candidate}
use offline_reels.Collector.Ports.{Exn, Ports, Call, Locals, Running}
use offline_reels.Collector.Calls.{
  CollectorSummary, Engine, summarize, safe_fail_run, safe_cancel_run, swallow, unless_exception,
  is_exception,
}
use offline_reels.Collector.Ledger.{On, newest_verdict}
use offline_reels.Collector.Ledger.Rules.{
  IsQuiet, helper_rules, Lands-same, Lands-set, Lands-get, Lands-from, Lands-note, Keeps-call,
}
use offline_reels.Collector.Turn.{
  Task, LoopEnd, Turn, break_with, complete, conclude, settle, arrive, move, advance_turn, turn,
  loop, accept_next, next_turn, give_up, observe,
}
use offline_reels.Collector.Collect.{
  Request, collect, supervised, body, on_exception, report_failed, report_cancelled, after_loop,
  first_candidate, close_feed, reason_or,
}
use offline_reels.Action.Keeps.{Keeps}

abbrev pub Any : List Call → Locals → Type 0
Any log l = Unit {0}

abbrev pub Given : CollectionRunStatus → List Call → Locals → Type 0
Given status log l = newest_verdict log ≡ some status

-- A turn that ends the method has the verdict of its summary.
abbrev pub Said : Turn → List Call → Locals → Type 0
Said (Turn.finished summary) = Given summary.status
Said _ = Any

abbrev pub SaidAtEnd : LoopEnd → List Call → Locals → Type 0
SaidAtEnd (LoopEnd.completed summary) = Given summary.status
SaidAtEnd _ = Any

abbrev pub SaidOf : Option CollectorSummary → List Call → Locals → Type 0
SaidOf (some summary) = Given summary.status
SaidOf none = Any

module _ {W : Type 0} where
  -- Nothing is asked, and nothing is known.
  pub any :
      {A : Type 0} {P : List Call → Locals → Type 0} {m : Engine W A}
      → Lands (On P) m (λ _. On Any) (On Any)
  any =
      Lands-from (λ log l p. tt)
        (Lands-same (record { keeps = λ s p. record { holds = tt } }) (λ log l p. p))

  -- What is known before and after an action of which an Exception is swallowed.
  swallow-Lands :
      (status : CollectionRunStatus) (m : Engine W (Unit {0}))
      → Lands (On Any) m (λ _. On (Given status)) (On (Given status))
      → Lands (On Any) (swallow m) (λ _. On (Given status)) (On Any)
  unfolding swallow unless_exception
  swallow-Lands status m h = Lands-try_except h λ e.
      Lands-test (is_exception e) (λ _. Lands-pure tt (λ s p. p))
        (λ _. Lands-raise e (λ s p. record { holds = tt }))

module _ {W : Type 0} (ports : Ports W) where
  pub summarize-Lands :
      (run_id target : ℕ) (reason : Option String) (status : CollectionRunStatus)
      → Lands
          (On (Given status))
          (summarize ports run_id target reason status)
          (λ summary. On (Given summary.status))
          (On Any)
  unfolding summarize
  summarize-Lands run_id target reason status =
      Lands-bind (Lands-same (search helper_rules) (λ log l p. tt)) λ counts.
        Lands-bind (Lands-same (search helper_rules) (λ log l p. tt)) λ l. Lands-pure _ (λ s p. p)

  pub safe_fail_run-Lands :
      (run_id : ℕ) (reason : String)
      → Lands
          (On Any)
          (safe_fail_run ports run_id reason)
          (λ _. On (Given CollectionRunStatus.failed))
          (On Any)
  unfolding safe_fail_run newest_verdict
  safe_fail_run-Lands run_id reason =
      swallow-Lands CollectionRunStatus.failed _
        (Lands-bind (Lands-note _ (λ log l p. refl)) λ _. Lands-same (Keeps-call _) (λ log l p. p))

  pub safe_cancel_run-Lands :
      (run_id : ℕ)
      → Lands
          (On Any)
          (safe_cancel_run ports run_id)
          (λ _. On (Given CollectionRunStatus.cancelled))
          (On Any)
  unfolding safe_cancel_run newest_verdict
  safe_cancel_run-Lands run_id = swallow-Lands CollectionRunStatus.cancelled _ (
      Lands-bind (Lands-note _ (λ log l p. refl))
        λ _. Lands-same (search helper_rules) (λ log l p. p))
