-- ===== src/Collector/Ledger/Turns.antt =====
-- The parts of a turn that move nothing keep what is settled, for each property of the number of
-- confirmed moves.
use offline_reels.Base.{ℕ, Bool, false, Option, none, some, String, List}
use offline_reels.Pipeline.Persistence.{ReelCandidate}
use offline_reels.Action.Keeps.{Keeps, Keeps-option, Keeps-bind, Keeps-pure}
use offline_reels.Collector.Limits.{CollectorLimits}
use offline_reels.Collector.Canonical.{SplitUrl}
use offline_reels.Collector.Ports.{Ports, Call, Locals}
use offline_reels.Collector.Ledger.{On, IsSettled, orphans}
use offline_reels.Collector.Ledger.Rules.{IsQuiet, helper_rules, Keeps-unless_exception}
use offline_reels.Collector.Ledger.Sources.{acquire-Keeps}
use offline_reels.Collector.Turn.{
  Task, break_with, take_available, ownership, observe, complete, conclude, give_up, record_here,
  cool_down,
}

module _ {W : Type 0} (ports : Ports W) (limits : CollectorLimits)
    (urlsplit : String → Option SplitUrl) (task : Task) (C : ℕ → Type 0) where
  abbrev pub Here : List Call → Locals → Type 0
  Here = IsSettled limits C

  pub Here-IsQuiet : IsQuiet Here
  unfolding orphans
  Here-IsQuiet = record {
    advanced = λ log l p. p;
    closed = λ log l p. p;
    completed = λ log l p. p;
    run_failed = λ reason log l p. p;
    run_cancelled = λ log l p. p;
  }

  pub break_with-Keeps :
      (reason : String) → Keeps (On Here) (break_with ports limits urlsplit task reason)
  unfolding break_with
  break_with-Keeps reason = search helper_rules

  pub take_available-Keeps :
      (candidate : ReelCandidate)
      → Keeps (On Here) (take_available ports limits urlsplit task candidate)
  unfolding take_available record_here
  take_available-Keeps candidate = search helper_rules depth 20

  pub ownership-Keeps :
      (candidate : ReelCandidate) → Keeps (On Here) (ownership ports limits urlsplit task candidate)
  unfolding ownership
  ownership-Keeps candidate =
      Keeps-option task.desired_account_total _ _ (search helper_rules)
        (λ total. search helper_rules)

  pub observe-Keeps :
      (candidate : ReelCandidate) (owned : Bool)
      → Keeps (On Here) (observe ports limits urlsplit task candidate owned)
  unfolding observe record_here
  observe-Keeps candidate owned =
      search (helper_rules, take_available-Keeps, acquire-Keeps) depth 20

  pub complete-Keeps : Keeps (On Here) (complete ports limits urlsplit task)
  unfolding complete orphans
  complete-Keeps =
      Keeps-unless_exception _ _
        (Keeps-bind _ _
          (Keeps-option task.desired_account_total _ _ (search helper_rules)
            (λ total. search helper_rules))
          (λ done. search helper_rules))
        (Keeps-pure false)

  pub conclude-Keeps : Keeps (On Here) (conclude ports limits urlsplit task)
  unfolding conclude
  conclude-Keeps = search (helper_rules, complete-Keeps, Here-IsQuiet) depth 20

  pub give_up-Keeps :
      (reason : Option String) → Keeps (On Here) (give_up ports limits urlsplit task reason)
  unfolding give_up
  give_up-Keeps (some reason) = break_with-Keeps reason
  give_up-Keeps none = search (helper_rules, break_with-Keeps) depth 9

module _ {W : Type 0} (ports : Ports W) (limits : CollectorLimits)
    (urlsplit : String → Option SplitUrl) (task : Task) where
  pub cool_down-Keeps :
      {P : List Call → Locals → Type 0} → Keeps (On P) (cool_down ports limits urlsplit task)
  unfolding cool_down record_here
  cool_down-Keeps = search helper_rules depth 9
