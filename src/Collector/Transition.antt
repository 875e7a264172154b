-- ===== src/Collector/Transition.antt =====
-- `_wait_for_next` and `_confirm_transition` of CollectorEngine: one confirmed move of the feed, with
-- one retry. The diagnostics that the operator's report prints are left out.
use offline_reels.Base.{
  ℕ, ◌-◌, Bool, true, false, Option, none, some, String, List, [], ◌∷◌, ltb, if◌then◌else◌,
}
use offline_reels.Pipeline.Persistence.{ReelCandidate}
use offline_reels.Action.{pure, raise, try_except, ◌>>=◌, ◌>>◌}
use offline_reels.Collector.Ports.{Exn, Ports, Call}
use offline_reels.Collector.Calls.{
  Engine, call, note, unless_type_error, record_event, deadline_expired, require_deadline,
}

-- The next candidate, the scroll actions that were used, and why there is no candidate.
pub record Moved : Type 0 where
  pub next : Option ReelCandidate
  pub consumed : ℕ
  pub reason : Option String

abbrev pub moved : ReelCandidate → ℕ → Moved
moved candidate consumed = record { next = some candidate; consumed = consumed; reason = none }

abbrev pub stuck : ℕ → String → Moved
stuck consumed reason = record { next = none; consumed = consumed; reason = some reason }

-- attempt > remaining_scroll_actions
abbrev pub exceeds : Option ℕ → ℕ → Bool
exceeds none attempt = false
exceeds (some remaining) attempt = ltb remaining attempt

abbrev is_deadline : Exn → Bool
is_deadline Exn.deadline_exceeded = true
is_deadline _ = false

abbrev pub event_of : ℕ → String
event_of attempt = if ltb attempt 2 then "advance" else "advance_retry"

module _ {W : Type 0} (ports : Ports W) where
  unfoldable pub wait_for_next : String → Option ℕ → Engine W (Option ReelCandidate)
  unfolding unless_type_error call
  wait_for_next shortcode deadline =
      unless_type_error (call (ports.wait_for_next shortcode deadline))
        (call (ports.wait_for_next_plain shortcode))

  -- `self._feed.advance()`, or false past the deadline.
  unfoldable pub advance : Option ℕ → Engine W Bool
  unfolding require_deadline note call
  advance deadline =
      try_except
        (do require_deadline ports deadline; note Call.advanced; call ports.advance; pure true)
        (λ e. if is_deadline e then pure false else raise e)

  -- The attempts of the loop `for attempt in (1, 2)` that are left.
  unfoldable pub scroll_attempts : ℕ → String → Option ℕ → Option ℕ → List ℕ → Engine W Moved
  unfolding advance wait_for_next record_event deadline_expired
  scroll_attempts position shortcode deadline remaining [] = pure (stuck 2 "TRANSITION_FAILED")
  scroll_attempts position shortcode deadline remaining (attempt ∷ attempts) =
      if exceeds remaining attempt then pure (stuck (attempt - 1) "ADVANCE_LIMIT_REACHED") else do
        in_time ← advance deadline
        if in_time
            then (do
              record_event ports position (event_of attempt)
              next ← wait_for_next shortcode deadline
              elim next [
                | some candidate ↦ pure (moved candidate attempt)
                | none ↦ do
                  expired ← deadline_expired ports deadline
                  if expired
                      then pure (stuck attempt "TOTAL_TIMEOUT_REACHED")
                      else scroll_attempts position shortcode deadline remaining attempts
              ])
            else pure (stuck (attempt - 1) "TOTAL_TIMEOUT_REACHED")

  unfoldable pub confirm_transition : ℕ → String → Option ℕ → Option ℕ → Engine W Moved
  unfolding scroll_attempts unless_type_error call record_event
  confirm_transition position shortcode deadline remaining =
      elim ports.next_from_authenticated_feed [
        | none ↦ scroll_attempts position shortcode deadline remaining (1 ∷ 2 ∷ [])
        | some source ↦ do
          next ←
              unless_type_error (call (source shortcode deadline))
                (call (ports.next_from_authenticated_feed_plain shortcode))
          elim next [
            | none ↦ pure (stuck 0 "AUTHENTICATED_FEED_EXHAUSTED")
            | some candidate ↦ do
              record_event ports position "feed_source_advance"
              pure (moved candidate 0)
          ]
      ]
