-- ===== src/Collector/Guarantees.antt =====
-- What one call of CollectorEngine.collect in apps/api/app/instagram/collector/service.py guarantees,
-- whatever the ports do.
use offline_reels.Base.{
  ℕ, ◌≤◌, ◌<◌, ◌≡◌, ◌≢◌, refl, Option, none, some, String, List, [], ◌∷◌, arith, subst,
}
use offline_reels.Action.{Outcome}
use offline_reels.Action.Lands.{
  Lands, Lands-bind, Lands-pure, Lands-test, Lands-raise, Landed, Lands-try_except,
}
use offline_reels.Collector.Limits.{CollectorLimits, is_rejected}
use offline_reels.Collector.Canonical.{SplitUrl}
use offline_reels.Collector.Ports.{Exn, Ports, Call, Locals, Running}
use offline_reels.Collector.Calls.{CollectorSummary, swallow, unless_exception, is_exception}
use offline_reels.Collector.Ledger.{On, IsBounded, orphans, newest_verdict, Within-zero}
use offline_reels.Collector.Ledger.Rules.{
  helper_rules, Lands-same, Lands-set, Lands-up, Keeps-call, Lands-note,
}
use offline_reels.Collector.Ledger.Advances.{Counted}
use offline_reels.Collector.Ledger.Ending.{Summed}
use offline_reels.Collector.Ledger.Verdicts.{Any, SaidOf}
use offline_reels.Collector.Turn.{Task}
use offline_reels.Collector.Collect.{
  Request, collect, run_of, deadline_of, fresh_locals, close_feed,
}
use offline_reels.Action.Keeps.{Keeps, Keeps-option, Keeps-pure}

-- Before the call nothing is logged.
abbrev pub start : {W : Type 0} → W → Running W
start w = record { world = w; log = []; locals = fresh_locals }

-- The call that was made last.
abbrev pub newest : List Call → Option Call
newest [] = none
newest (c ∷ log) = some c

module _ {W : Type 0} (ports : Ports W) (limits : CollectorLimits)
    (urlsplit : String → Option SplitUrl) where
  abbrev Owned : List Call → Locals → Type 0
  Owned log l = orphans log ≡ []

  start-Owned : (w : W) → On Owned (start w)
  unfolding orphans
  start-Owned w = record { holds = refl }

  run_of-Keeps :
      {P : List Call → Locals → Type 0} (request : Request)
      → Keeps (On P) (run_of ports limits urlsplit request)
  unfolding run_of
  run_of-Keeps request =
      Keeps-option request.claimed_run_id _ _ (Keeps-call _) (λ run_id. Keeps-pure run_id)

  deadline_of-Keeps :
      {P : List Call → Locals → Type 0} → Keeps (On P) (deadline_of ports limits urlsplit)
  unfolding deadline_of
  deadline_of-Keeps =
      Keeps-option limits.deadline_seconds _ _ (Keeps-pure none) (λ seconds. search helper_rules)

  collect-Lands :
      (fuel : ℕ) (request : Request)
      → limits.max_advances < fuel
      → Lands
          (On Owned)
          (collect ports limits urlsplit fuel request)
          (λ r. On (Summed ports limits urlsplit r))
          (On Owned)
  unfolding collect
  collect-Lands fuel request enough =
      Lands-test (is_rejected limits request.target_count request.desired_account_total)
        (λ _. Lands-raise _ (λ s p. p))
        λ _. Lands-bind (Lands-same (run_of-Keeps request) (λ log l p. p)) λ run_id.
          Lands-bind (Lands-same deadline_of-Keeps (λ log l p. p)) λ deadline.
            Lands-bind
              (Lands-set {R = Counted limits 0} _ (λ log l p. (
                (p, (refl, Within-zero _, Within-zero _, Within-zero _, Within-zero _)),
                omega arith,
              )))
              λ _.
                Lands-up (λ log l p. p.0)
                  (offline_reels.Collector.Ledger.Ending.supervised-Lands ports limits urlsplit _
                    fuel enough)

  said-Lands :
      (fuel : ℕ) (request : Request)
      → Lands (On Any) (collect ports limits urlsplit fuel request) (λ r. On (SaidOf r)) (On Any)
  unfolding collect
  said-Lands fuel request =
      Lands-test (is_rejected limits request.target_count request.desired_account_total)
        (λ _. Lands-raise _ (λ s p. p))
        λ _. Lands-bind (Lands-same (run_of-Keeps request) (λ log l p. p)) λ run_id.
          Lands-bind (Lands-same deadline_of-Keeps (λ log l p. p)) λ deadline.
            Lands-bind (Lands-set {R = Any} _ (λ log l p. tt)) λ _.
              offline_reels.Collector.Ledger.Verdicts.Ending.supervised-Lands ports limits urlsplit
                _ fuel

  abbrev Closed : List Call → Locals → Type 0
  Closed log l = newest log ≡ some Call.closed

  close_feed-Lands :
      (task : Task)
      → Lands (On Any) (close_feed ports limits urlsplit task) (λ _. On Closed) (On Closed)
  unfolding close_feed swallow unless_exception
  close_feed-Lands task =
      Lands-try_except
        (Lands-bind (Lands-note {R = Closed} _ (λ log l p. refl))
          λ _. Lands-same (Keeps-call ports.close) (λ log l p. p))
        λ e.
          Lands-test (is_exception e) (λ _. Lands-pure tt (λ s p. p))
            (λ _. Lands-raise e (λ s p. p))

  returned-Summed :
      (fuel : ℕ) (request : Request) (w : W) (r : Option CollectorSummary) (s : Running W)
      → limits.max_advances < fuel
      → collect ports limits urlsplit fuel request (start w) ≡ (Outcome.returned r, s)
      → Summed ports limits urlsplit r s.log s.locals
  returned-Summed fuel request w r s enough e =
      (subst (Landed (λ r. On (Summed ports limits urlsplit r)) (On Owned)) e
        ((collect-Lands fuel request enough).lands (start w) (start-Owned w))).holds

  -- Every source that the call has newly published has been committed at the end, or its deletion has
  -- been asked for, whether the call returns or raises, if the fuel exceeds the number of moves that
  -- are allowed.
  pub collect-no_orphans :
      (fuel : ℕ) (request : Request) (w : W)
      → limits.max_advances < fuel
      → orphans (collect ports limits urlsplit fuel request (start w)).1.log ≡ []
  collect-no_orphans fuel request w enough =
      on (collect ports limits urlsplit fuel request (start w))
        ((collect-Lands fuel request enough).lands (start w) (start-Owned w))
    where
      on :
          (o : Outcome Exn (Option CollectorSummary) × Running W)
          → Landed (λ r. On (Summed ports limits urlsplit r)) (On Owned) o
          → orphans o.1.log ≡ []
      on (Outcome.returned r, s) h = h.holds.0.0
      on (Outcome.raised e, s) h = h.holds

  -- A call that returns has counted no more moves, observations, bytes, transitions and scroll
  -- actions than the limits allow, if the fuel exceeds the number of moves that are allowed.
  pub collect-IsBounded :
      (fuel : ℕ) (request : Request) (w : W) (r : Option CollectorSummary) (s : Running W)
      → limits.max_advances < fuel
      → collect ports limits urlsplit fuel request (start w) ≡ (Outcome.returned r, s)
      → IsBounded limits (λ k. k ≤ limits.max_advances) s.locals
  collect-IsBounded fuel request w r s enough e = (returned-Summed fuel request w r s enough e).0.1

  -- Fuel that exceeds the number of moves that are allowed is enough: a call that returns has a
  -- summary.
  pub collect-terminates :
      (fuel : ℕ) (request : Request) (w : W) (r : Option CollectorSummary) (s : Running W)
      → limits.max_advances < fuel
      → collect ports limits urlsplit fuel request (start w) ≡ (Outcome.returned r, s)
      → r ≢ none
  collect-terminates fuel request w r s enough e = (returned-Summed fuel request w r s enough e).1

  -- The status of the summary that a call returns is the one that the call last gave the run.
  pub collect-verdict :
      (fuel : ℕ) (request : Request) (w : W) (summary : CollectorSummary) (s : Running W)
      → collect ports limits urlsplit fuel request (start w) ≡ (Outcome.returned (some summary), s)
      → newest_verdict s.log ≡ some summary.status
  collect-verdict fuel request w summary s e =
      (subst (Landed (λ r. On (SaidOf r)) (On Any)) e
        ((said-Lands fuel request).lands (start w) (record { holds = tt }))).holds
