-- ===== src/Collector/Ledger/Sources.antt =====
-- An attempt at a source leaves no published source without an owner.
use offline_reels.Base.{
  refl, ℕ, ◌≡◌, true, false, Option, none, some, String, List, [], ◌∷◌, string_eq, arith, ◌∙◌, ap,
}
use offline_reels.Pipeline.Persistence.{ReelCandidate, ValidatedSource}
use offline_reels.Action.{pure, raise, ◌>>=◌}
use offline_reels.Action.Keeps.{Keeps, Keeps-bind}
use offline_reels.Action.Lands.{
  Lands, Lands-pure, Lands-raise, Lands-test, Lands-try_except, Lands-finally, Lands-bind,
  Keeps-Lands,
}
use offline_reels.Collector.Limits.{CollectorLimits}
use offline_reels.Collector.Ports.{Exn, Ports, Call, Locals, PublishedSource}
use offline_reels.Collector.Calls.{Engine, call, note, set, unless_exception}
use offline_reels.Collector.Ledger.{On, IsBounded, IsSettled, orphans, to_delete}
use offline_reels.Collector.Ledger.Rules.{
  helper_rules, Lands-same, Keeps-call, Lands-get, Lands-note_set, Lands-note, Lands-set,
  Keeps-cleanup_temporary,
}
use offline_reels.Collector.Source.{
  over_bytes, to_delete, download_source, validate_source, publish, commit, publish_source,
  attempt_source, compensate, on_failure, acquire, fail_attempt, with_attempt, fresh_attempt,
}
use offline_reels.Collector.Canonical.{source_object_key}
use offline_reels.Collector.Ledger.Orphans.{
  created_keys, orphans-published, orphans-committed, orphans-deleted, Within-over_bytes,
}

abbrev keys_of : Option PublishedSource → List String
keys_of none = []
keys_of (some p) = p.object_key ∷ []

module _ (limits : CollectorLimits) (C : ℕ → Type 0) where
  -- Nothing has been published by the attempt.
  abbrev Fresh : List Call → Locals → Type 0
  Fresh log l =
      IsSettled limits C log l × (l.attempt.published ≡ none) × (l.attempt.db_committed ≡ false)

  abbrev Validated : ValidatedSource → List Call → Locals → Type 0
  Validated v log l = Fresh log l × (over_bytes limits l v ≡ false)

  -- The attempt has published the source and not committed it.
  abbrev Published : ValidatedSource → PublishedSource → List Call → Locals → Type 0
  Published v p log l =
      IsBounded limits C l
      × (orphans log ≡ created_keys p)
      × (l.attempt.published ≡ some p)
      × (l.attempt.db_committed ≡ false)
      × (over_bytes limits l v ≡ false)

  abbrev Done : List Call → Locals → Type 0
  Done log l = IsSettled limits C log l × (l.attempt.db_committed ≡ true)

  -- What has no owner is what the handler would delete.
  abbrev Owed : List Call → Locals → Type 0
  Owed log l = IsBounded limits C l × (orphans log ≡ keys_of (to_delete l.attempt))

  Fresh-Owed : (log : List Call) (l : Locals) → Fresh log l → Owed log l
  Fresh-Owed log l h = ground arith

  Done-Owed : (log : List Call) (l : Locals) → Done log l → Owed log l
  Done-Owed log l h = ground arith

  Published-Owed :
      (v : ValidatedSource) (p : PublishedSource) (log : List Call) (l : Locals)
      → Published v p log l
      → Owed log l
  Published-Owed v p log l h = ground arith

  module _ {W : Type 0} where
    module _ (ports : Ports W) where
      download_source-Keeps :
          (run_id : ℕ) (candidate : ReelCandidate) (deadline : Option ℕ) (temporary : String)
          → Keeps (On Fresh) (download_source ports limits run_id candidate deadline temporary)
      unfolding download_source
      download_source-Keeps run_id candidate deadline temporary = search helper_rules depth 20

      validate_source-Lands :
          (deadline : Option ℕ) (temporary : String)
          → Lands
              (On Fresh)
              (validate_source ports limits deadline temporary)
              (λ v. On (Validated v))
              (On Owed)
      unfolding validate_source
      validate_source-Lands deadline temporary =
          Lands-bind (Lands-same (search helper_rules) Fresh-Owed) λ _.
            Lands-bind (Lands-same (Keeps-call (ports.validate temporary)) Fresh-Owed) λ v.
              Lands-bind (Lands-same (search helper_rules) Fresh-Owed) λ position.
                Lands-bind (Lands-same (search helper_rules) Fresh-Owed) λ _.
                  Lands-bind (Lands-same (search helper_rules) Fresh-Owed) λ _.
                    Lands-bind (Lands-get (λ l. over_bytes limits l v)) λ over.
                      Lands-test over
                        (λ e.
                          Lands-bind
                            (Lands-same (search helper_rules) (λ log l h. Fresh-Owed log l h.0))
                            (λ _.
                              Lands-raise Exn.limit_exceeded
                                (λ s p. record { holds = Fresh-Owed s.log s.locals p.holds.0 })))
                        (λ e. Lands-pure v (λ s p. record { holds = (p.holds.0, p.holds.1 ∙ e) }))

      publish-Lands :
          (v : ValidatedSource) (temporary key : String)
          → Lands
              (On (Validated v))
              (publish ports limits temporary key)
              (λ p. On (Published v p))
              (On Owed)
      unfolding publish
      publish-Lands v temporary key =
          Lands-bind
            (Lands-same (Keeps-call (ports.publish temporary key))
              (λ log l h. Fresh-Owed log l h.0))
            λ p.
              Lands-bind
                (Lands-note_set (Call.published p) _
                  (λ log l h. (h.0.0.1, orphans-published p log h.0.0.0, refl, h.0.2, h.1)))
                λ _. Lands-pure p (λ s q. q)

      commit-Lands :
          (v : ValidatedSource) (p : PublishedSource) (run_id : ℕ) (candidate : ReelCandidate)
          → Lands
              (On (Published v p))
              (commit ports limits run_id candidate v p.object_key)
              (λ _. On Done)
              (On Owed)
      unfolding commit
      commit-Lands v p run_id candidate =
          Lands-bind
            (Lands-same (Keeps-call (ports.commit_source run_id candidate v p.object_key))
              (Published-Owed v p))
            λ _. Lands-note_set (Call.committed p.object_key) _ (λ log l h. (
              (
                orphans-committed p log h.1,
                (h.0.0, h.0.1, Within-over_bytes limits l v h.4, h.0.3, h.0.4),
              ),
              refl,
            ))

      publish_source-Lands :
          (v : ValidatedSource) (run_id : ℕ) (candidate : ReelCandidate) (deadline : Option ℕ)
          (temporary : String)
          → Lands
              (On (Validated v))
              (publish_source ports limits run_id candidate deadline temporary)
              (λ p. On (Published v p))
              (On Owed)
      unfolding publish_source
      publish_source-Lands v run_id candidate deadline temporary =
          Lands-bind (Lands-same (search helper_rules) up) λ _.
            Lands-bind (Lands-same (search helper_rules) up) λ _.
              Lands-bind (Lands-same (search helper_rules) up) λ _.
                Lands-bind (publish_if (source_object_key candidate.shortcode)) λ p.
                  Lands-bind (Lands-same (search helper_rules) (Published-Owed v p)) λ position.
                    Lands-bind (Lands-same (search helper_rules) (Published-Owed v p)) λ _.
                      Lands-bind (Lands-same (search helper_rules) (Published-Owed v p))
                        λ _. Lands-pure p (λ s q. q)
        where
          up : (log : List Call) (l : Locals) → Validated v log l → Owed log l
          up log l h = Fresh-Owed log l h.0

          publish_if :
              (o : Option String)
              → Lands
                  (On (Validated v))
                  (elim o as (λ _. Engine W PublishedSource) [
                    | none ↦ raise Exn.invalid_reel_candidate
                    | some key ↦ publish ports limits temporary key
                  ])
                  (λ p. On (Published v p))
                  (On Owed)
          publish_if none = Lands-raise _ (λ s p. record { holds = up s.log s.locals p.holds })
          publish_if (some key) = publish-Lands v temporary key

      attempt_source-Lands :
          (run_id : ℕ) (candidate : ReelCandidate) (deadline : Option ℕ) (temporary : String)
          → Lands
              (On Fresh)
              (attempt_source ports limits run_id candidate deadline temporary)
              (λ _. On (IsSettled limits C))
              (On Owed)
      unfolding attempt_source
      attempt_source-Lands run_id candidate deadline temporary =
          Lands-bind
            (Lands-same (download_source-Keeps run_id candidate deadline temporary) Fresh-Owed)
            λ _. Lands-bind (validate_source-Lands deadline temporary) λ v.
              Lands-bind (publish_source-Lands v run_id candidate deadline temporary) λ p.
                Lands-bind (Lands-same (search helper_rules) (Published-Owed v p)) λ _.
                  Lands-bind (commit-Lands v p run_id candidate) λ _.
                    Lands-bind (Lands-same (search helper_rules) Done-Owed) λ position.
                      Lands-bind (Lands-same (search helper_rules) Done-Owed) λ _.
                        Lands-bind (Lands-same (search helper_rules) Done-Owed)
                          λ _. Lands-pure false (λ s p. record { holds = p.holds.0 })

      compensate-Lands :
          Lands
            (On Owed)
            (compensate ports limits)
            (λ _. On (IsSettled limits C))
            (On (IsSettled limits C))
      unfolding compensate
      compensate-Lands = Lands-bind (Lands-get (λ l. to_delete l.attempt)) undo
        where
          undo :
              (o : Option PublishedSource)
              → Lands
                  (On (λ log l. Owed log l × (to_delete l.attempt ≡ o)))
                  (elim o as (λ _. Engine W (Unit {0})) [
                    | none ↦ pure tt
                    | some p ↦ note (Call.deleted p.object_key) >>= λ _.
                        unless_exception
                          (call (ports.delete p.object_key))
                          (set (with_attempt (λ a. record a { compensation_failed = true })))
                  ])
                  (λ _. On (IsSettled limits C))
                  (On (IsSettled limits C))
          undo none =
              Lands-pure tt
                (λ s p. record { holds = (p.holds.0.1 ∙ ap keys_of p.holds.1, p.holds.0.0) })
          undo (some p) =
              Lands-bind
                (Lands-note (Call.deleted p.object_key)
                  (λ log l h. (orphans-deleted p log (h.0.1 ∙ ap keys_of h.1), h.0.0)))
                λ _. Lands-same (search helper_rules) (λ log l h. h)

      on_failure-Lands :
          (run_id : ℕ) (candidate : ReelCandidate) (e : Exn)
          → Lands
              (On Owed)
              (on_failure ports limits run_id candidate e)
              (λ _. On (IsSettled limits C))
              (On (IsSettled limits C))
      unfolding on_failure fail_attempt
      on_failure-Lands run_id candidate e =
          Lands-bind compensate-Lands λ _. Lands-same (search helper_rules depth 9) (λ log l h. h)

      pub acquire-Keeps :
          (run_id : ℕ) (candidate : ReelCandidate) (deadline : Option ℕ)
          → Keeps (On (IsSettled limits C)) (acquire ports limits run_id candidate deadline)
      unfolding acquire
      acquire-Keeps run_id candidate deadline =
          Keeps-bind (call (ports.temporary_path candidate.shortcode)) _ (Keeps-call _) λ temporary.
            Keeps-Lands (
              Lands-bind
                (Lands-set (with_attempt (λ a. fresh_attempt)) (λ log l h. (h, refl, refl)))
                λ _.
                  Lands-finally
                    (Lands-try_except (attempt_source-Lands run_id candidate deadline temporary)
                      (on_failure-Lands run_id candidate))
                    (λ b. Keeps-cleanup_temporary ports temporary)
                    (Keeps-cleanup_temporary ports temporary) (λ b s h. h))
