-- ===== src/Collector/Ledger/Moves.antt =====
-- A move of the feed uses no more scroll actions than it may, and leaves every property of the log
-- and the local variables that a logged move leaves.
use offline_reels.Base.{
  ℕ, Option, none, some, String, List, [], ◌∷◌, arith, ◌-◌, ◌≡◌, false, if◌then◌else◌,
}
use offline_reels.Action.Keeps.{Keeps}
use offline_reels.Action.Lands.{Lands, Lands-test, Lands-pure, Lands-bind}
use offline_reels.Collector.Ports.{Ports, Call, Locals, Exn, Port}
use offline_reels.Collector.Ledger.{On, Within, Within-zero}
use offline_reels.Collector.Ledger.Rules.{
  IsQuiet, helper_rules, Lands-same, Keeps-deadline_expired, Keeps-record_event,
}
use offline_reels.Collector.Transition.{
  Moved, confirm_transition, scroll_attempts, exceeds, advance, wait_for_next, moved, stuck,
  event_of,
}
use offline_reels.Collector.Calls.{Engine, deadline_expired, record_event, unless_type_error, call}
use offline_reels.Action.{pure, ◌>>=◌}
use offline_reels.Pipeline.Persistence.{ReelCandidate}

module _ {W : Type 0} (ports : Ports W) {P : List Call → Locals → Type 0} (quiet : IsQuiet P)
    (remaining : Option ℕ) where
  abbrev pub Affordable : Moved → List Call → Locals → Type 0
  Affordable m log l = P log l × Within remaining m.consumed

  advance-Keeps : (deadline : Option ℕ) → Keeps (On P) (advance ports deadline)
  unfolding advance
  advance-Keeps deadline = search (helper_rules, quiet.advanced) depth 20

  wait_for_next-Keeps :
      (shortcode : String) (deadline : Option ℕ)
      → Keeps (On P) (wait_for_next ports shortcode deadline)
  unfolding wait_for_next
  wait_for_next-Keeps shortcode deadline = search helper_rules depth 9

  allowed : (k : ℕ) → exceeds remaining k ≡ false → Within remaining k
  allowed k e = at remaining e
    where
      at : (o : Option ℕ) → exceeds o k ≡ false → Within o k
      at none e = tt
      at (some r) e = ground arith

  -- One attempt, and those that follow it.
  attempt-Lands :
      (position : ℕ) (shortcode : String) (deadline : Option ℕ) (k : ℕ) (ks : List ℕ)
      → Within remaining (k - 1)
      → (Within remaining k
          → Lands
              (On P)
              (scroll_attempts ports position shortcode deadline remaining ks)
              (λ m. On (Affordable m))
              (On P))
      → Lands
          (On P)
          (scroll_attempts ports position shortcode deadline remaining (k ∷ ks))
          (λ m. On (Affordable m))
          (On P)
  unfolding scroll_attempts
  attempt-Lands position shortcode deadline k ks before rest =
      Lands-test (exceeds remaining k)
        (λ e. Lands-pure _ (λ s p. record { holds = (p.holds, before) }))
        λ e. Lands-bind (same (advance-Keeps deadline)) λ in_time.
          Lands-test in_time
            (λ _. Lands-bind (same (Keeps-record_event ports position (event_of k))) λ _.
              Lands-bind (same (wait_for_next-Keeps shortcode deadline))
                λ next. found (allowed k e) next)
            (λ _. stopped _ before)
    where
      same : {A : Type 0} {m : Engine W A} → Keeps (On P) m → Lands (On P) m (λ _. On P) (On P)
      same k = Lands-same k (λ log l p. p)

      stopped :
          (m : Moved)
          → Within remaining m.consumed
          → Lands (On {W = W} P) (pure {E = Exn} m) (λ m. On (Affordable m)) (On P)
      stopped m w = Lands-pure m (λ s p. record { holds = (p.holds, w) })

      found :
          Within remaining k
          → (next : Option ReelCandidate)
          → Lands
              (On P)
              (elim next as (λ _. Engine W Moved) [
                | some candidate ↦ pure (moved candidate k)
                | none ↦ deadline_expired ports deadline >>= λ expired.
                    if expired
                    then pure (stuck k "TOTAL_TIMEOUT_REACHED")
                    else scroll_attempts ports position shortcode deadline remaining ks
              ])
              (λ m. On (Affordable m))
              (On P)
      found w (some candidate) = stopped _ w
      found w none =
          Lands-bind (same (Keeps-deadline_expired ports deadline))
            λ expired. Lands-test expired (λ _. stopped _ w) (λ _. rest w)

  pub confirm_transition-Lands :
      (position : ℕ) (shortcode : String) (deadline : Option ℕ)
      → Lands
          (On P)
          (confirm_transition ports position shortcode deadline remaining)
          (λ m. On (Affordable m))
          (On P)
  unfolding confirm_transition scroll_attempts
  confirm_transition-Lands position shortcode deadline =
      by_source ports.next_from_authenticated_feed
    where
      by_next :
          (next : Option ReelCandidate)
          → Lands
              (On P)
              (elim next as (λ _. Engine W Moved) [
                | none ↦ pure (stuck 0 "AUTHENTICATED_FEED_EXHAUSTED")
                | some candidate ↦ record_event ports position "feed_source_advance" >>= λ _.
                    pure (moved candidate 0)
              ])
              (λ m. On (Affordable m))
              (On P)
      by_next none = Lands-pure _ (λ s p. record { holds = (p.holds, Within-zero remaining) })
      by_next (some candidate) =
          Lands-bind (Lands-same (Keeps-record_event ports position _) (λ log l p. p))
            λ _. Lands-pure _ (λ s p. record { holds = (p.holds, Within-zero remaining) })

      by_source :
          (o : Option (String → Option ℕ → Port W (Option ReelCandidate)))
          → Lands
              (On P)
              (elim o as (λ _. Engine W Moved) [
                | none ↦ scroll_attempts ports position shortcode deadline remaining (1 ∷ 2 ∷ [])
                | some source ↦
                    unless_type_error
                      (call (source shortcode deadline))
                      (call (ports.next_from_authenticated_feed_plain shortcode))
                    >>= λ next. elim next as (λ _. Engine W Moved) [
                      | none ↦ pure (stuck 0 "AUTHENTICATED_FEED_EXHAUSTED")
                      | some candidate ↦ record_event ports position "feed_source_advance" >>= λ _.
                          pure (moved candidate 0)
                    ]
              ])
              (λ m. On (Affordable m))
              (On P)
      by_source none =
          attempt-Lands position shortcode deadline 1 (2 ∷ []) (Within-zero remaining) λ w.
            attempt-Lands position shortcode deadline 2 [] w
              λ w'. Lands-pure _ (λ s p. record { holds = (p.holds, w') })
      by_source (some source) = Lands-bind (Lands-same (search helper_rules) (λ log l p. p)) by_next
