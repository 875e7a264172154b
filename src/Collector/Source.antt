-- ===== src/Collector/Source.antt =====
-- The part of CollectorEngine.collect that downloads, validates, publishes and commits the source of
-- one candidate, with its compensation and its choice of a reason.
use offline_reels.Base.{
  ℕ, ◌+◌, Bool, true, false, ◌&&◌, not, Option, none, some, String, ◌==◌, ltb, if◌then◌else◌,
  string_eq,
}
use offline_reels.Pipeline.Persistence.{ReelCandidate, ValidatedSource}
use offline_reels.Action.{pure, raise, try_except, finally, ◌>>=◌, ◌>>◌}
use offline_reels.Collector.Canonical.{source_object_key}
use offline_reels.Collector.Limits.{CollectorLimits}
use offline_reels.Collector.Ports.{Exn, Ports, Call, Attempt, Locals, PublishedSource}
use offline_reels.Collector.Calls.{
  Engine, call, note, get, set, swallow, unless_exception, record_event, require_deadline,
  raise_if_cancel_requested, cleanup_temporary, is_exception, safe_exception_code, note_set,
}

abbrev pub fresh_attempt : Attempt
fresh_attempt = record {
  published = none;
  stage = "download";
  download_attempted = false;
  db_committed = false;
  compensation_failed = false;
}

abbrev pub with_attempt : (Attempt → Attempt) → Locals → Locals
with_attempt f l = record l { attempt = f l.attempt }

abbrev pub with_reason : String → Locals → Locals
with_reason reason l = record l { reason = some reason }

-- The source that a failed attempt has to delete.
abbrev pub to_delete : Attempt → Option PublishedSource
to_delete a = elim a.published [
  | none ↦ none
  | some p ↦ if not a.db_committed && p.created_by_attempt then some p else none
]

-- The reason that the handler of `except Exception` chooses.
abbrev stage_reason : Attempt → String
stage_reason a = elim a.published [
  | some p ↦
      if a.compensation_failed
      then "DATABASE_WRITE_FAILED_COMPENSATION_FAILED"
      else "DATABASE_WRITE_FAILED"
  | none ↦
      if a.stage == "validation"
      then "VALIDATION_FAILED"
      else if a.stage == "publication"
      then "STORAGE_FAILED"
      else "DOWNLOAD_FAILED"
]

abbrev coded_reason : Exn → Attempt → String
coded_reason e a = elim (safe_exception_code e) [ some code ↦ code | none ↦ stage_reason a ]

abbrev is_byte_limit : Option String → Bool
is_byte_limit none = false
is_byte_limit (some reason) = reason == "RUN_BYTE_LIMIT_EXCEEDED"

unfoldable pub failure_reason : Exn → Locals → String
failure_reason Exn.deadline_exceeded l = "TOTAL_TIMEOUT_REACHED"
failure_reason e l =
    if is_byte_limit l.reason then "RUN_BYTE_LIMIT_EXCEEDED" else coded_reason e l.attempt

abbrev pub over_bytes : CollectorLimits → Locals → ValidatedSource → Bool
over_bytes limits l validated = elim limits.max_run_bytes [
  | none ↦ false
  | some bytes ↦ ltb bytes (l.committed_bytes + validated.byte_size)
]

module _ {W : Type 0} (ports : Ports W) (limits : CollectorLimits) where
  unfoldable pub download_source : ℕ → ReelCandidate → Option ℕ → String → Engine W (Unit {0})
  unfolding call set record_event require_deadline raise_if_cancel_requested
  download_source run_id candidate deadline temporary = do
    raise_if_cancel_requested ports run_id
    require_deadline ports deadline
    set (with_attempt (λ a. record a { download_attempted = true }))
    call (ports.download candidate temporary)
    position ← get (λ l. l.position)
    record_event ports position "download"
    require_deadline ports deadline

  unfoldable pub validate_source : Option ℕ → String → Engine W ValidatedSource
  unfolding call set get record_event require_deadline
  validate_source deadline temporary = do
    set (with_attempt (λ a. record a { stage = "validation" }))
    validated ← call (ports.validate temporary)
    position ← get (λ l. l.position)
    record_event ports position "validation"
    require_deadline ports deadline
    over ← get (λ l. over_bytes limits l validated)
    if over
        then (do set (with_reason "RUN_BYTE_LIMIT_EXCEEDED"); raise Exn.limit_exceeded)
        else pure validated

  -- `self._storage.publish`, with what the local `published` then holds.
  unfoldable pub publish : String → String → Engine W PublishedSource
  unfolding call note_set
  publish temporary key = do
    p ← call (ports.publish temporary key)
    note_set (Call.published p) (with_attempt (λ a. record a { published = some p }))
    pure p

  unfoldable pub publish_source : ℕ → ReelCandidate → Option ℕ → String → Engine W PublishedSource
  unfolding publish set get record_event require_deadline raise_if_cancel_requested
      source_object_key
  publish_source run_id candidate deadline temporary = do
    set (with_attempt (λ a. record a { stage = "publication" }))
    raise_if_cancel_requested ports run_id
    require_deadline ports deadline
    published ← elim (source_object_key candidate.shortcode) [
      | none ↦ raise Exn.invalid_reel_candidate
      | some key ↦ publish temporary key
    ]
    position ← get (λ l. l.position)
    record_event ports position "publication"
    require_deadline ports deadline
    pure published

  -- `commit_source`, and what the local variables hold once it has returned.
  unfoldable pub commit : ℕ → ReelCandidate → ValidatedSource → String → Engine W (Unit {0})
  unfolding call note_set
  commit run_id candidate validated key = do
    call (ports.commit_source run_id candidate validated key)
    note_set (Call.committed key) (λ l. record l {
      committed_bytes = l.committed_bytes + validated.byte_size;
      attempt = record l.attempt { db_committed = true };
    })

  unfoldable pub attempt_source : ℕ → ReelCandidate → Option ℕ → String → Engine W Bool
  unfolding download_source validate_source publish_source commit set get record_event
      require_deadline
  attempt_source run_id candidate deadline temporary = do
    download_source run_id candidate deadline temporary
    validated ← validate_source deadline temporary
    published ← publish_source run_id candidate deadline temporary
    set (with_attempt (λ a. record a { stage = "database" }))
    commit run_id candidate validated published.object_key
    position ← get (λ l. l.position)
    record_event ports position "db_commit"
    require_deadline ports deadline
    pure false

  -- The compensation of both handlers: did it fail?
  unfoldable pub compensate : Engine W (Unit {0})
  unfolding get note call unless_exception set
  compensate = do
    left ← get (λ l. to_delete l.attempt)
    elim left [
      | none ↦ pure tt
      | some p ↦ do
        note (Call.deleted p.object_key)
        unless_exception (call (ports.delete p.object_key))
            (set (with_attempt (λ a. record a { compensation_failed = true })))
    ]

  -- The handler of `except Exception`, which ends in `break`.
  unfoldable pub fail_attempt : ℕ → ReelCandidate → Exn → Engine W Bool
  unfolding get set swallow call
  fail_attempt run_id candidate e = do
    l ← get (λ l. l)
    set (with_reason (failure_reason e l))
    if l.attempt.db_committed then pure true else do
      swallow (
          call (
            ports.record_failure run_id candidate (failure_reason e l)
              l.attempt.download_attempted))
      pure true

  unfoldable pub on_failure : ℕ → ReelCandidate → Exn → Engine W Bool
  unfolding compensate fail_attempt
  on_failure run_id candidate e = do
    compensate
    if is_exception e then fail_attempt run_id candidate e else raise e

  -- Does the attempt break the loop?
  unfoldable pub acquire : ℕ → ReelCandidate → Option ℕ → Engine W Bool
  unfolding call set attempt_source on_failure cleanup_temporary
  acquire run_id candidate deadline = do
    temporary ← call (ports.temporary_path candidate.shortcode)
    set (with_attempt (λ a. fresh_attempt))
    finally
        (try_except (attempt_source run_id candidate deadline temporary)
          (on_failure run_id candidate))
        (cleanup_temporary ports temporary)
