-- ===== src/Collector/Ledger/Loop.antt =====
-- Every turn of the loop, and the loop.
use offline_reels.Base.{
  ℕ, zero, suc, ◌+◌, ◌≤◌, ◌<◌, ◌≡◌, ap, Bool, Option, none, some, String, List, arith, ◌≢◌, leb,
  if◌then◌else◌, ◌∙◌,
}
use offline_reels.Pipeline.Persistence.{ReelCandidate}
use offline_reels.Action.{◌>>=◌, pure}
use offline_reels.Action.Lands.{Lands, Lands-bind, Lands-pure, Lands-test}
use offline_reels.Collector.Limits.{CollectorLimits, at_limit}
use offline_reels.Collector.Canonical.{SplitUrl}
use offline_reels.Collector.Ports.{Ports, Call, Locals}
use offline_reels.Collector.Ledger.{On, Within-next}
use offline_reels.Collector.Ledger.Rules.{
  helper_rules, Lands-same, Lands-set, Lands-get, Lands-from, Keeps-safe_fail_run, Keeps-given,
}
use offline_reels.Collector.Ledger.Turns.{
  Here-IsQuiet, complete-Keeps, observe-Keeps, ownership-Keeps,
}
use offline_reels.Collector.Ledger.Advances.{
  Counted, InLimits, After, advance_turn-Lands, break_with-Lands, Counted-InLimits,
}
use offline_reels.Collector.Turn.{
  Task, Turn, turn, settle, loop, LoopEnd, conclude, break_with, observe, next_turn,
}
use offline_reels.Collector.Calls.{Engine}
use offline_reels.Action.Keeps.{Keeps}

module _ {W : Type 0} (ports : Ports W) (limits : CollectorLimits)
    (urlsplit : String → Option SplitUrl) (task : Task) where
  conclude-Lands :
      (n : ℕ)
      → Lands
          (On (InLimits limits))
          (conclude ports limits urlsplit task)
          (λ t. On (After limits n t))
          (On (InLimits limits))
  unfolding conclude
  conclude-Lands n =
      Lands-bind (same (complete-Keeps ports limits urlsplit task (λ k. k ≤ limits.max_advances)))
        λ done.
          Lands-test done
            (λ _. Lands-bind (same (search helper_rules)) λ summary. Lands-pure _ (λ s p. p))
            (λ _. Lands-bind (same (search helper_rules)) λ reason.
              Lands-bind (same (search helper_rules)) λ _.
                Lands-bind
                  (same (
                    Keeps-safe_fail_run ports (Here-IsQuiet ports limits urlsplit task _)
                      task.run_id reason))
                  λ _. Lands-bind (same (search helper_rules)) λ summary. Lands-pure _ (λ s p. p))
    where
      same :
          {A : Type 0} {m : Engine W A}
          → Keeps (On (InLimits limits)) m
          → Lands (On (InLimits limits)) m (λ _. On (InLimits limits)) (On (InLimits limits))
      same k = Lands-same k (λ log l p. p)

  settle-Lands :
      (n : ℕ) (candidate : ReelCandidate)
      → Lands
          (On (Counted limits n))
          (settle ports limits urlsplit task candidate)
          (λ t. On (After limits n t))
          (On (InLimits limits))
  unfolding settle
  settle-Lands n candidate =
      Lands-bind (Lands-same (search helper_rules) (Counted-InLimits limits n)) λ counts.
        Lands-test (leb task.target_count (counts.committed + counts.available))
          (λ _. Lands-from (Counted-InLimits limits n) (conclude-Lands n))
          (λ _. advance_turn-Lands ports limits urlsplit task n candidate)

  turn-Lands :
      (n : ℕ) (candidate : ReelCandidate)
      → Lands
          (On (Counted limits n))
          (turn ports limits urlsplit task candidate)
          (λ t. On (After limits n t))
          (On (InLimits limits))
  unfolding turn
  turn-Lands n candidate = Lands-bind (Lands-same (search helper_rules) up) λ _.
      Lands-bind (Lands-same (search helper_rules) up) λ late. Lands-bind (Lands-get (λ l. l)) λ l.
        Lands-test late (λ _. breaks l _)
          λ _.
            Lands-test (at_limit limits.max_observations l.observations) (λ _. breaks l _)
              λ free.
                Lands-bind
                  (Lands-set {R = Counted limits n} _ (λ log l' h. (
                    (
                      h.0.0.0,
                      (
                        h.0.0.1.0,
                        Within-next _ _
                            (ap (λ l. at_limit limits.max_observations l.observations) h.1 ∙ free),
                        h.0.0.1.2,
                        h.0.0.1.3,
                        h.0.0.1.4,
                      ),
                    ),
                    h.0.1,
                  )))
                  λ _.
                    Lands-bind
                      (Lands-same
                        (Keeps-given (ownership-Keeps ports limits urlsplit task _ candidate)) up)
                      by_ownership
    where
      up : (log : List Call) (l : Locals) → Counted limits n log l → InLimits limits log l
      up = Counted-InLimits limits n

      breaks :
          (l : Locals) (reason : String)
          → Lands
              (On (λ log l'. Counted limits n log l' × (l' ≡ l)))
              (break_with ports limits urlsplit task reason)
              (λ t. On (After limits n t))
              (On (InLimits limits))
      breaks l reason =
          Lands-from (λ log l' h. up log l' h.0)
            (break_with-Lands ports limits urlsplit task n reason)

      by_ownership :
          (owned : Option Bool)
          → Lands
              (On (Counted limits n))
              (elim owned as (λ _. Engine W Turn) [
                | none ↦ break_with ports limits urlsplit task "DUPLICATE_REEL"
                | some own ↦ observe ports limits urlsplit task candidate own >>= λ over.
                    if over then pure Turn.broke else settle ports limits urlsplit task candidate
              ])
              (λ t. On (After limits n t))
              (On (InLimits limits))
      by_ownership none = Lands-from up (break_with-Lands ports limits urlsplit task n _)
      by_ownership (some own) =
          Lands-bind
            (Lands-same (Keeps-given (observe-Keeps ports limits urlsplit task _ candidate own)) up)
            λ over.
              Lands-test over
                (λ _. Lands-pure _ (λ s p. record { holds = up s.log s.locals p.holds }))
                (λ _. settle-Lands n candidate)

  -- With more fuel than moves that are left, the loop does not run out of it.
  abbrev pub Ended : LoopEnd → List Call → Locals → Type 0
  Ended e log l = InLimits limits log l × (e ≢ LoopEnd.out_of_fuel)

  next_turn-Lands :
      (n : ℕ) (t : Turn) (rest : ReelCandidate → Engine W LoopEnd)
      → ((candidate : ReelCandidate)
          → Lands
              (On (Counted limits (suc n)))
              (rest candidate)
              (λ e. On (Ended e))
              (On (InLimits limits)))
      → Lands
          (On (After limits n t))
          (next_turn ports limits urlsplit task t rest)
          (λ e. On (Ended e))
          (On (InLimits limits))
  next_turn-Lands n Turn.broke rest h =
      Lands-pure _ (λ s p. record { holds = (p.holds, λ e. ground arith) })
  next_turn-Lands n (Turn.finished summary) rest h =
      Lands-pure _ (λ s p. record { holds = (p.holds, λ e. ground arith) })
  next_turn-Lands n (Turn.again candidate) rest h = h candidate

  pub loop-Lands :
      (fuel n : ℕ) (candidate : ReelCandidate)
      → limits.max_advances < fuel + n
      → Lands
          (On (Counted limits n))
          (loop ports limits urlsplit task fuel candidate)
          (λ e. On (Ended e))
          (On (InLimits limits))
  unfolding loop
  loop-Lands zero n candidate enough = Lands-pure _ λ s p. record {
    holds = (
      Counted-InLimits limits n s.log s.locals p.holds,
      λ e. let room = p.holds.1 in omega arith,
    );
  }
  loop-Lands (suc fuel) n candidate enough = Lands-bind (turn-Lands n candidate) λ t.
      next_turn-Lands n t (loop ports limits urlsplit task fuel)
        λ next. loop-Lands fuel (suc n) next (omega arith)
