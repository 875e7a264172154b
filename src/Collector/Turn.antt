-- ===== src/Collector/Turn.antt =====
-- One turn of the loop `while True` of CollectorEngine.collect, and the loop.
use offline_reels.Base.{
  ℕ, suc, zero, ◌+◌, ◌-◌, Bool, true, false, ◌&&◌, not, Option, none, some, String, ◌∷◌, leb, ◌=ℕ◌,
  contains, if◌then◌else◌, string_eq, ◌==◌,
}
use offline_reels.Domain.Statuses.{ReelPipelineStatus, CollectionRunStatus}
use offline_reels.Pipeline.Persistence.{ReelCandidate}
use offline_reels.Action.{pure, raise, ◌>>=◌, ◌>>◌}
use offline_reels.Collector.Canonical.{SplitUrl, is_valid_candidate}
use offline_reels.Collector.Limits.{CollectorLimits, at_limit}
use offline_reels.Collector.Ports.{Exn, Ports, Call, Locals}
use offline_reels.Collector.Calls.{
  Engine, CollectorSummary, call, note, get, set, unless_exception, record_event, deadline_expired,
  require_deadline, raise_if_cancel_requested, safe_fail_run, summarize,
}
use offline_reels.Collector.Transition.{confirm_transition}
use offline_reels.Collector.Source.{acquire}

-- How a turn ends: by `break`, by `return`, or by going round again.
pub data Turn : Type 0 where
  broke : Turn
  finished : CollectorSummary → Turn
  again : ReelCandidate → Turn

-- How the loop ends; `out_of_fuel` is no end of the program's.
pub data LoopEnd : Type 0 where
  stopped : LoopEnd
  completed : CollectorSummary → LoopEnd
  out_of_fuel : LoopEnd

-- The arguments of `collect` and what it computes of them before the loop.
pub record Task : Type 0 where
  pub account_id : ℕ
  pub target_count : ℕ
  pub desired_account_total : Option ℕ
  pub run_id : ℕ
  pub deadline : Option ℕ

abbrev is_durable : Option ReelPipelineStatus → Bool
is_durable (some ReelPipelineStatus.source_ready) = true
is_durable (some ReelPipelineStatus.normalizing) = true
is_durable (some ReelPipelineStatus.ready) = true
is_durable _ = false

abbrev is_given : {A : Type 0} → Option A → Bool
is_given none = false
is_given (some a) = true

module _ {W : Type 0} (ports : Ports W) (limits : CollectorLimits)
    (urlsplit : String → Option SplitUrl) (task : Task) where
  unfoldable pub break_with : String → Engine W Turn
  unfolding set
  break_with reason = do set (λ l. record l { reason = some reason }); pure Turn.broke

  unfoldable pub record_here : String → Engine W (Unit {0})
  unfolding get record_event
  record_here event = do position ← get (λ l. l.position); record_event ports position event

  -- Is the candidate the account's already? Nothing where the run has seen it before.
  unfoldable pub ownership : ReelCandidate → Engine W (Option Bool)
  unfolding call get
  ownership candidate = elim task.desired_account_total [
    | some total ↦ do
      owned ← call (ports.account_has_durable_reel task.account_id candidate.shortcode)
      pure (some owned)
    | none ↦ do
      repeated ← get (λ l. contains candidate.shortcode l.seen)
      pure (if repeated then none else some false)
  ]

  -- `commit_available` of a Reel that is durable already: does it break the loop?
  unfoldable pub take_available : ReelCandidate → Engine W Bool
  unfolding call set unless_exception record_here
  take_available candidate = do
    committed ←
        unless_exception (do call (ports.commit_available task.run_id candidate); pure true)
          (pure false)
    if committed
        then (do record_here "db_commit"; pure false)
        else do set (λ l. record l { reason = some "DATABASE_WRITE_FAILED" }); pure true

  -- From `seen.add` to the end of the three cases: does the turn break the loop?
  unfoldable pub observe : ReelCandidate → Bool → Engine W Bool
  unfolding call set record_here take_available acquire
  observe candidate owned = do
    set (λ l. record l { seen = candidate.shortcode ∷ l.seen })
    record_here "detect"
    call ports.pause_current
    record_here "pause"
    status ← call (ports.reel_status candidate.shortcode)
    if owned
        then (do
          set (λ l. record l { duplicate_skipped_count = l.duplicate_skipped_count + 1 })
          record_here "duplicate_skipped"
          pure false)
        else if is_durable status
        then take_available candidate
        else acquire ports limits task.run_id candidate task.deadline

  -- The block `try: completed = …`: did it go through?
  unfoldable pub complete : Engine W Bool
  unfolding call set note unless_exception
  complete =
      unless_exception
        (do
          done ← elim task.desired_account_total [
            | some total ↦ call (ports.complete_if_account_durable_total task.run_id total)
            | none ↦ do call (ports.complete_run task.run_id); pure true
          ]
          if done then (do note Call.completed; pure true) else do
            set (λ l. record l { reason = some "FINAL_DURABLE_TOTAL_MISMATCH" })
            raise (Exn.failure none))
        (pure false)

  -- `reason or other`
  abbrev or_else : Option String → String → String
  or_else none other = other
  or_else (some reason) other = if reason == "" then other else reason

  unfoldable pub conclude : Engine W Turn
  unfolding complete get set safe_fail_run summarize
  conclude = do
    done ← complete
    if done
        then (do
          summary ← summarize ports task.run_id task.target_count none CollectionRunStatus.completed
          pure (Turn.finished summary))
        else do
          reason ← get (λ l. or_else l.reason "DATABASE_WRITE_FAILED")
          set (λ l. record l { reason = some reason })
          safe_fail_run ports task.run_id reason
          summary ←
              summarize ports task.run_id task.target_count (some reason) CollectionRunStatus.failed
          pure (Turn.finished summary)

  -- The part of the turn that follows a confirmed move.
  unfoldable pub arrive : ReelCandidate → Engine W Turn
  unfolding set record_here
  arrive candidate = do
    set (λ l. record l { confirmed_advances = l.confirmed_advances + 1 })
    record_here "transition_confirmed"
    set (λ l. record l { position = l.position + 1 })
    pure (Turn.again candidate)

  abbrev repeats : ReelCandidate → Locals → Bool
  repeats candidate l =
      not (is_given task.desired_account_total) && contains candidate.shortcode l.seen

  unfoldable pub accept_next : ReelCandidate → Engine W Turn
  unfolding get break_with arrive is_valid_candidate
  accept_next candidate =
      if is_valid_candidate urlsplit candidate
      then (do
        repeated ← get (repeats candidate)
        if repeated then break_with "DUPLICATE_REEL" else arrive candidate)
      else break_with "INVALID_REEL_CANDIDATE"

  unfoldable pub give_up : Option String → Engine W Turn
  unfolding break_with deadline_expired
  give_up (some reason) = break_with reason
  give_up none = do
    expired ← deadline_expired ports task.deadline
    break_with (if expired then "TOTAL_TIMEOUT_REACHED" else "TRANSITION_FAILED")

  abbrev pub remaining_scrolls : Locals → Option ℕ
  remaining_scrolls l = elim limits.max_scroll_actions [
    | none ↦ none
    | some scrolls ↦ some (scrolls - l.scroll_actions)
  ]

  unfoldable pub move : ReelCandidate → Engine W Turn
  unfolding set get raise_if_cancel_requested confirm_transition accept_next give_up
  move candidate = do
    set (λ l. record l { transition_operations = l.transition_operations + 1 })
    raise_if_cancel_requested ports task.run_id
    l ← get (λ l. l)
    moved ←
        confirm_transition ports l.position candidate.shortcode task.deadline (remaining_scrolls l)
    set (λ l. record l { scroll_actions = l.scroll_actions + moved.consumed })
    elim moved.next [ some next ↦ accept_next next | none ↦ give_up moved.reason ]

  unfoldable pub cool_down : Engine W (Unit {0})
  unfolding call require_deadline record_here
  cool_down = if limits.cooldown_seconds =ℕ 0 then pure tt else do
    require_deadline ports task.deadline
    record_here "cooldown"
    call (ports.sleep limits.cooldown_seconds)

  -- From the tests of the limits to the end of the turn.
  unfoldable pub advance_turn : ReelCandidate → Engine W Turn
  unfolding get deadline_expired break_with cool_down move
  advance_turn candidate = do
    late ← deadline_expired ports task.deadline
    l ← get (λ l. l)
    if late
        then break_with "TOTAL_TIMEOUT_REACHED"
        else if leb limits.max_advances l.confirmed_advances
        then break_with "ADVANCE_LIMIT_REACHED"
        else if at_limit limits.max_transition_operations l.transition_operations
        then break_with "ADVANCE_LIMIT_REACHED"
        else do
          cool_down
          too_late ← deadline_expired ports task.deadline
          if too_late then break_with "TOTAL_TIMEOUT_REACHED" else move candidate

  unfoldable pub settle : ReelCandidate → Engine W Turn
  unfolding call conclude advance_turn
  settle candidate = do
    counts ← call (ports.summary task.run_id)
    if leb task.target_count (counts.committed + counts.available)
        then conclude
        else advance_turn candidate

  unfoldable pub turn : ReelCandidate → Engine W Turn
  unfolding get set raise_if_cancel_requested deadline_expired break_with ownership observe settle
  turn candidate = do
    raise_if_cancel_requested ports task.run_id
    late ← deadline_expired ports task.deadline
    l ← get (λ l. l)
    if late
        then break_with "TOTAL_TIMEOUT_REACHED"
        else if at_limit limits.max_observations l.observations
        then break_with "OBSERVATION_LIMIT_REACHED"
        else do
          set (λ l. record l { observations = l.observations + 1 })
          owned ← ownership candidate
          elim owned [
            | none ↦ break_with "DUPLICATE_REEL"
            | some own ↦ do
              over ← observe candidate own
              if over then pure Turn.broke else settle candidate
          ]

  abbrev pub next_turn : Turn → (ReelCandidate → Engine W LoopEnd) → Engine W LoopEnd
  next_turn Turn.broke rest = pure LoopEnd.stopped
  next_turn (Turn.finished summary) rest = pure (LoopEnd.completed summary)
  next_turn (Turn.again candidate) rest = rest candidate

  unfoldable pub loop : ℕ → ReelCandidate → Engine W LoopEnd
  unfolding turn
  loop zero candidate = pure LoopEnd.out_of_fuel
  loop (suc fuel) candidate = do t ← turn candidate; next_turn t (loop fuel)
