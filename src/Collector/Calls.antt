-- ===== src/Collector/Calls.antt =====
-- The helpers of CollectorEngine in apps/api/app/instagram/collector/service.py: a port's call, the
-- log, the deadline, the cancellation probe, and the calls whose exceptions are swallowed.
use offline_reels.Base.{ℕ, Bool, true, false, Option, none, some, String, ◌∷◌, leb, if◌then◌else◌}
use offline_reels.Domain.Statuses.{CollectionRunStatus}
use offline_reels.Action.{Action, Outcome, pure, raise, try_except, ◌>>=◌, ◌>>◌}
use offline_reels.Collector.Ports.{Exn, Ports, Port, Call, Locals, Running}

abbrev pub Engine : Type 0 → Type 0 → Type 0
Engine W A = Action (Running W) Exn A

pub record CollectorSummary : Type 0 where
  pub run_id : Option ℕ
  pub status : CollectionRunStatus
  pub target_count : ℕ
  pub source_committed_count : ℕ
  pub already_available_count : ℕ
  pub failed_count : ℕ
  pub confirmed_advances : ℕ
  pub stop_reason_code : Option String
  pub observations : ℕ
  pub duplicate_skipped_count : ℕ

-- isinstance(e, Exception)
abbrev pub is_exception : Exn → Bool
is_exception Exn.keyboard_interrupt = false
is_exception _ = true

abbrev pub is_type_error : Exn → Bool
is_type_error Exn.type_error = true
is_type_error _ = false

-- `_safe_exception_code`
abbrev pub safe_exception_code : Exn → Option String
safe_exception_code (Exn.failure code) = code
safe_exception_code _ = none

module _ {W : Type 0} where
  unfoldable pub call : {A : Type 0} → Port W A → Engine W A
  call port s = let (r, w) = port s.world in (r, record s { world = w })

  unfoldable pub note : Call → Engine W (Unit {0})
  note c s = (Outcome.returned tt, record s { log = c ∷ s.log })

  unfoldable pub get : {A : Type 0} → (Locals → A) → Engine W A
  get f s = (Outcome.returned (f s.locals), s)

  unfoldable pub set : (Locals → Locals) → Engine W (Unit {0})
  set f s = (Outcome.returned tt, record s { locals = f s.locals })

  -- What the code does once a call has returned, with the call in the log.
  unfoldable pub note_set : Call → (Locals → Locals) → Engine W (Unit {0})
  note_set c f s = (Outcome.returned tt, record s { log = c ∷ s.log; locals = f s.locals })

  -- try: … except Exception: <other>
  unfoldable pub unless_exception : {A : Type 0} → Engine W A → Engine W A → Engine W A
  unless_exception m other = try_except m (λ e. if is_exception e then other else raise e)

  -- try: … except Exception: pass
  unfoldable pub swallow : Engine W (Unit {0}) → Engine W (Unit {0})
  unfolding unless_exception
  swallow m = unless_exception m (pure tt)

  -- try: … except TypeError: <other>
  unfoldable pub unless_type_error : {A : Type 0} → Engine W A → Engine W A → Engine W A
  unless_type_error m other = try_except m (λ e. if is_type_error e then other else raise e)

  module _ (ports : Ports W) where
    -- `_record`
    unfoldable pub record_event : ℕ → String → Engine W (Unit {0})
    unfolding swallow unless_type_error
    record_event position event = swallow (
        unless_type_error (call (ports.record_event position event))
          (swallow (call (ports.record_plain event))))

    unfoldable pub deadline_expired : Option ℕ → Engine W Bool
    unfolding call
    deadline_expired none = pure false
    deadline_expired (some deadline) = do now ← call ports.clock; pure (leb deadline now)

    unfoldable pub require_deadline : Option ℕ → Engine W (Unit {0})
    unfolding deadline_expired
    require_deadline deadline = do
      expired ← deadline_expired deadline
      if expired then raise Exn.deadline_exceeded else pure tt

    unfoldable pub raise_if_cancel_requested : ℕ → Engine W (Unit {0})
    unfolding call
    raise_if_cancel_requested run_id = elim ports.cancellation_requested [
      | none ↦ pure tt
      | some probe ↦ do
        requested ← call (probe run_id)
        if requested then raise Exn.keyboard_interrupt else pure tt
    ]

    unfoldable pub cleanup_temporary : String → Engine W (Unit {0})
    unfolding swallow call
    cleanup_temporary path = swallow (call (ports.cleanup_temporary path))

    unfoldable pub safe_fail_run : ℕ → String → Engine W (Unit {0})
    unfolding swallow call note
    safe_fail_run run_id reason =
        swallow (do note (Call.run_failed reason); call (ports.fail_run run_id reason))

    unfoldable pub safe_cancel_run : ℕ → Engine W (Unit {0})
    unfolding swallow call note
    safe_cancel_run run_id = swallow (do
      note Call.run_cancelled
      outcome ← call (ports.cancel_run run_id "CANCELLED_BY_USER")
      pure tt)

    -- `_summary`: the counts of the run, or zeros where they cannot be read.
    unfoldable pub summarize :
        ℕ → ℕ → Option String → CollectionRunStatus → Engine W CollectorSummary
    unfolding unless_exception call get
    summarize run_id target_count reason expected_status = do
      counts ←
          unless_exception (call (ports.summary run_id))
            (pure (record { committed = 0; available = 0; failed = 0; status = expected_status }))
      l ← get (λ l. l)
      pure (record {
        run_id = some run_id;
        status = expected_status;
        target_count = target_count;
        source_committed_count = counts.committed;
        already_available_count = counts.available;
        failed_count = counts.failed;
        confirmed_advances = l.confirmed_advances;
        stop_reason_code = reason;
        observations = l.observations;
        duplicate_skipped_count = l.duplicate_skipped_count;
      })
