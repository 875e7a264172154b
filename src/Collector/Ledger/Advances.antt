-- ===== src/Collector/Ledger/Advances.antt =====
-- One turn of the loop, from a number of confirmed moves to the next.
use offline_reels.Base.{
  ℕ, suc, ◌+◌, ◌≤◌, ◌≡◌, ap, subst, false, Option, none, some, String, List, arith, sym, leb, ◌∙◌,
}
use offline_reels.Pipeline.Persistence.{ReelCandidate}
use offline_reels.Action.Lands.{Lands, Lands-bind, Lands-pure, Lands-test}
use offline_reels.Collector.Limits.{CollectorLimits, at_limit}
use offline_reels.Collector.Canonical.{SplitUrl, is_valid_candidate}
use offline_reels.Collector.Ports.{Ports, Call, Locals}
use offline_reels.Collector.Ledger.{On, Within, IsSettled, orphans, Within-used, Within-next}
use offline_reels.Collector.Ledger.Rules.{
  IsQuiet, helper_rules, Lands-same, Lands-set, Lands-get, Lands-from, Lands-up,
}
use offline_reels.Collector.Ledger.Turns.{cool_down-Keeps}
use offline_reels.Collector.Turn.{
  Task, Turn, arrive, record_here, break_with, accept_next, give_up, move, advance_turn,
  remaining_scrolls,
}
use offline_reels.Collector.Calls.{Engine}
use offline_reels.Collector.Ledger.Moves.{confirm_transition-Lands}

module _ (limits : CollectorLimits) where
  abbrev pub InLimits : List Call → Locals → Type 0
  InLimits = IsSettled limits (λ k. k ≤ limits.max_advances)

  -- There are `n` confirmed moves, and so many are allowed.
  abbrev pub Counted : ℕ → List Call → Locals → Type 0
  Counted n log l = IsSettled limits (λ k. k ≡ n) log l × (n ≤ limits.max_advances)

  -- One more is allowed.
  abbrev Moving : ℕ → List Call → Locals → Type 0
  Moving n log l = IsSettled limits (λ k. k ≡ n) log l × (suc n ≤ limits.max_advances)

  -- A turn goes round again after one more confirmed move.
  abbrev pub After : ℕ → Turn → List Call → Locals → Type 0
  After n (Turn.again candidate) = Counted (suc n)
  After n _ = InLimits

  pub Counted-InLimits : (n : ℕ) (log : List Call) (l : Locals) → Counted n log l → InLimits log l
  Counted-InLimits n log l h = (
    h.0.0,
    (subst (λ k. k ≤ limits.max_advances) (sym h.0.1.0) h.1, h.0.1.1, h.0.1.2, h.0.1.3, h.0.1.4),
  )

  Moving-InLimits : (n : ℕ) (log : List Call) (l : Locals) → Moving n log l → InLimits log l
  Moving-InLimits n log l h = let room = h.1 in Counted-InLimits n log l (h.0, omega arith)

module _ {W : Type 0} (ports : Ports W) (limits : CollectorLimits)
    (urlsplit : String → Option SplitUrl) (task : Task) (n : ℕ) where
  arrive-Lands :
      (candidate : ReelCandidate)
      → Lands
          (On (Moving limits n))
          (arrive ports limits urlsplit task candidate)
          (λ t. On (After limits n t))
          (On (InLimits limits))
  unfolding arrive record_here
  arrive-Lands candidate =
      Lands-bind
        (Lands-set {R = Counted limits (suc n)} _
          (λ log l h. ((h.0.0, (counted h.0.1.0, h.0.1.1, h.0.1.2, h.0.1.3, h.0.1.4)), h.1)))
        λ _. Lands-bind (Lands-same (search helper_rules) (Counted-InLimits limits (suc n))) λ _.
          Lands-bind (Lands-same (search helper_rules) (Counted-InLimits limits (suc n)))
            λ _. Lands-pure _ (λ s p. p)
    where
      counted : {k : ℕ} → k ≡ n → k + 1 ≡ suc n
      counted e = omega arith

  pub break_with-Lands :
      (reason : String)
      → Lands
          (On (InLimits limits))
          (break_with ports limits urlsplit task reason)
          (λ t. On (After limits n t))
          (On (InLimits limits))
  unfolding break_with
  break_with-Lands reason =
      Lands-bind (Lands-same (search helper_rules) (λ log l h. h)) λ _. Lands-pure _ (λ s p. p)

  accept_next-Lands :
      (candidate : ReelCandidate)
      → Lands
          (On (Moving limits n))
          (accept_next ports limits urlsplit task candidate)
          (λ t. On (After limits n t))
          (On (InLimits limits))
  unfolding accept_next
  accept_next-Lands candidate =
      Lands-test (is_valid_candidate urlsplit candidate)
        (λ _. Lands-bind (Lands-same (search helper_rules) (Moving-InLimits limits n)) λ repeated.
          Lands-test repeated (λ _. breaks "DUPLICATE_REEL") (λ _. arrive-Lands candidate))
        (λ _. breaks "INVALID_REEL_CANDIDATE")
    where
      breaks :
          (reason : String)
          → Lands
              (On (Moving limits n))
              (break_with ports limits urlsplit task reason)
              (λ t. On (After limits n t))
              (On (InLimits limits))
      breaks reason = Lands-from (Moving-InLimits limits n) (break_with-Lands reason)

  give_up-Lands :
      (reason : Option String)
      → Lands
          (On (InLimits limits))
          (give_up ports limits urlsplit task reason)
          (λ t. On (After limits n t))
          (On (InLimits limits))
  unfolding give_up
  give_up-Lands (some reason) = break_with-Lands reason
  give_up-Lands none =
      Lands-bind (Lands-same (search helper_rules) (λ log l h. h)) λ expired. break_with-Lands _

  -- What is known once the local variables have been read.
  abbrev Seen : Locals → List Call → Locals → Type 0
  Seen l log l' = Moving limits n log l' × (l' ≡ l)

  Seen-IsQuiet : (l : Locals) → IsQuiet (Seen l)
  unfolding orphans
  Seen-IsQuiet l = record {
    advanced = λ log l p. p;
    closed = λ log l p. p;
    completed = λ log l p. p;
    run_failed = λ reason log l p. p;
    run_cancelled = λ log l p. p;
  }

  onwards-Lands :
      (next : Option ReelCandidate) (reason : Option String)
      → Lands
          (On (Moving limits n))
          (elim next as (λ _. Engine W Turn) [
            | some candidate ↦ accept_next ports limits urlsplit task candidate
            | none ↦ give_up ports limits urlsplit task reason
          ])
          (λ t. On (After limits n t))
          (On (InLimits limits))
  onwards-Lands none reason = Lands-from (Moving-InLimits limits n) (give_up-Lands reason)
  onwards-Lands (some candidate) reason = accept_next-Lands candidate

  -- What `advance_turn` has tested.
  abbrev Ready : List Call → Locals → Type 0
  Ready log l =
      Moving limits n log l
      × (at_limit limits.max_transition_operations l.transition_operations ≡ false)

  move-Lands :
      (candidate : ReelCandidate)
      → Lands
          (On Ready)
          (move ports limits urlsplit task candidate)
          (λ t. On (After limits n t))
          (On (InLimits limits))
  unfolding move
  move-Lands candidate =
      Lands-bind
        (Lands-set {R = Moving limits n} _ λ log l h.
          ((h.0.0.0, (h.0.0.1.0, h.0.0.1.1, h.0.0.1.2, Within-next _ _ h.1, h.0.0.1.4)), h.0.1))
        λ _. Lands-bind (Lands-same (search helper_rules) (Moving-InLimits limits n)) λ _.
          Lands-bind (Lands-get (λ l. l)) λ l.
            Lands-bind
              (Lands-from (λ log l' h. h)
                (Lands-up (λ log l' h. Moving-InLimits limits n log l' h.0)
                  (confirm_transition-Lands ports (Seen-IsQuiet l)
                    (remaining_scrolls ports limits urlsplit task l) l.position candidate.shortcode
                    task.deadline)))
              λ moved.
                Lands-bind
                  (Lands-set {R = Moving limits n} _ λ log l' h. (
                    (
                      h.0.0.0.0,
                      (
                        h.0.0.0.1.0,
                        h.0.0.0.1.1,
                        h.0.0.0.1.2,
                        h.0.0.0.1.3,
                        scrolled l l' moved.consumed h.0.1 h.0.0.0.1.4 h.1,
                      ),
                    ),
                    h.0.0.1,
                  ))
                  λ _. onwards-Lands moved.next moved.reason
    where
      scrolled :
          (l l' : Locals) (consumed : ℕ)
          → l' ≡ l
          → Within limits.max_scroll_actions l'.scroll_actions
          → Within (remaining_scrolls ports limits urlsplit task l) consumed
          → Within limits.max_scroll_actions (l'.scroll_actions + consumed)
      scrolled l l' consumed e u w =
          Within-used limits.max_scroll_actions l'.scroll_actions consumed u (
            subst (λ l. Within (remaining_scrolls ports limits urlsplit task l) consumed) (sym e) w)

  pub advance_turn-Lands :
      (candidate : ReelCandidate)
      → Lands
          (On (Counted limits n))
          (advance_turn ports limits urlsplit task candidate)
          (λ t. On (After limits n t))
          (On (InLimits limits))
  unfolding advance_turn
  advance_turn-Lands candidate =
      Lands-bind (Lands-same (search helper_rules) (Counted-InLimits limits n)) λ late.
        Lands-bind (Lands-get (λ l. l)) λ l.
          Lands-test late (λ _. breaks l _)
            λ _.
              Lands-test (leb limits.max_advances l.confirmed_advances) (λ _. breaks l _)
                λ room.
                  Lands-test (at_limit limits.max_transition_operations l.transition_operations)
                    (λ _. breaks l _)
                    λ free. Lands-from (ready l room free) (
                      Lands-bind
                        (Lands-same (cool_down-Keeps ports limits urlsplit task)
                          (λ log l h. Moving-InLimits limits n log l h.0))
                        λ _.
                          Lands-bind
                            (Lands-same (search helper_rules)
                              (λ log l h. Moving-InLimits limits n log l h.0))
                            λ too_late.
                              Lands-test too_late
                                (λ _.
                                  Lands-from (λ log l h. Moving-InLimits limits n log l h.0)
                                    (break_with-Lands _))
                                (λ _. move-Lands candidate))
    where
      breaks :
          (l : Locals) (reason : String)
          → Lands
              (On (λ log l'. Counted limits n log l' × (l' ≡ l)))
              (break_with ports limits urlsplit task reason)
              (λ t. On (After limits n t))
              (On (InLimits limits))
      breaks l reason =
          Lands-from (λ log l' h. Counted-InLimits limits n log l' h.0) (break_with-Lands reason)

      more : (k : ℕ) → k ≡ n → leb limits.max_advances k ≡ false → suc n ≤ limits.max_advances
      more k e room = ground arith

      ready :
          (l : Locals)
          → leb limits.max_advances l.confirmed_advances ≡ false
          → at_limit limits.max_transition_operations l.transition_operations ≡ false
          → (log : List Call) (l' : Locals) → Counted limits n log l' × (l' ≡ l)
          → Ready log l'
      ready l room free log l' h = (
        (
          h.0.0,
          more l'.confirmed_advances h.0.0.1.0
              (ap (λ l. leb limits.max_advances l.confirmed_advances) h.1 ∙ room),
        ),
        ap (λ l. at_limit limits.max_transition_operations l.transition_operations) h.1 ∙ free,
      )
