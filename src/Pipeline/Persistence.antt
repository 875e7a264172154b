-- ===== src/Pipeline/Persistence.antt =====
-- apps/api/app/instagram/collector/persistence.py: the Collector's transactions on runs, Reels,
-- run items and normalization jobs. The clock and the new UUIDs are arguments.
use offline_reels.Base.{List, [], ◌∷◌, string_eq, ◌||◌}
use offline_reels.Base.Table.{find}
use offline_reels.Base.Select.{select_first}
use offline_reels.Domain.Transitions.{Transition, require_transition, reel_pipeline_transitions}
use offline_reels.Pipeline.Transaction.{
  Error, Tx, pure, raise, ◌>>=◌, ◌>>◌, gets, value_error, lookup_error, add_run, save_run, add_reel,
  save_reel, add_item, add_job,
}
use offline_reels.Base.{
  String, ℕ, List, Bool, ◌+◌, Option, none, ◌==◌, some, true, if◌then◌else◌, ◌∷◌, ◌&&◌, false, ◌||◌,
  not, nat_eq,
}
use offline_reels.Pipeline.Schema.{Run, Db, Reel, Job, run_key, needs_source}
use offline_reels.Domain.Statuses.{
  RunItemOutcome, ReelPipelineStatus, CollectionRunStatus, reel_eq, NormalizationJobStatus,
  DownloadAuthMode, run_eq, CollectionTrigger,
}

pub record ReelCandidate : Type 0 where
  pub shortcode : String
  pub canonical_url : String

pub record ValidatedSource : Type 0 where
  pub sha256 : String
  pub byte_size : ℕ

pub data CancelRunOutcome : Type 0 where
  cancelled not_found already_terminal : CancelRunOutcome

-- `require_transition` inside a transaction.
abbrev pub checked : Transition → Tx (Unit {0})
checked Transition.accepted = pure tt
checked Transition.invalid_state_transition = raise Error.invalid_state_transition

-- select(InstagramReel).where(InstagramReel.shortcode == shortcode)
unfoldable pub reel_by_shortcode : String → List Reel → Option Reel
reel_by_shortcode s [] = none
reel_by_shortcode s (r ∷ rs) = if r.shortcode == s then some r else reel_by_shortcode s rs

unfoldable pub create_run : ℕ → ℕ → CollectionTrigger → ℕ → ℕ → Tx ℕ
unfolding add_run
create_run run_id account trigger target now = do
  add_run (record {
    id = run_id;
    account_id = account;
    trigger = trigger;
    status = CollectionRunStatus.running;
    target_count = target;
    source_committed_count = 0;
    already_available_count = 0;
    failed_count = 0;
    stop_reason_code = none;
    started_at = some now;
    completed_at = none;
    cancel_requested_at = none;
    created_at = now;
  })
  pure run_id

abbrev pub is_claimable : ℕ → (Run → Bool) → Run → Bool
is_claimable account locked r =
    r.account_id == account
    && r.status == CollectionRunStatus.queued
    && elim r.cancel_requested_at [ none ↦ true | some _ ↦ false ]
    && not (locked r)

-- `locked` are the rows that SKIP LOCKED passes over.
unfoldable pub claim_queued_run : ℕ → (Run → Bool) → ℕ → Tx (Option Run)
unfolding save_run
claim_queued_run account locked now = do
  item ← gets (λ db. select_first (λ r. r.created_at) run_key (is_claimable account locked) db.runs)
  elim item [
    | none ↦ pure none
    | some r ↦ do
      let started = record r { status = CollectionRunStatus.running; started_at = some now }
      save_run started
      pure (some started)
  ]

unfoldable pub cancellation_requested : ℕ → Db → Bool
cancellation_requested run_id db = elim (find run_key run_id db.runs) [
  | none ↦ true
  | some r ↦ elim r.cancel_requested_at [ none ↦ false | some _ ↦ true ]
]

-- The item's place, and the run with the counter of its outcome raised.
abbrev pub position_after : Run → ℕ
position_after r = r.source_committed_count + r.already_available_count + r.failed_count + 1

abbrev pub counted : RunItemOutcome → Run → Run
counted RunItemOutcome.source_committed r = record r {
  source_committed_count = r.source_committed_count + 1;
}
counted RunItemOutcome.already_available r = record r {
  already_available_count = r.already_available_count + 1;
}
counted RunItemOutcome.failed r = record r { failed_count = r.failed_count + 1 }

unfoldable pub add_run_item :
    ℕ → Reel → RunItemOutcome → Option DownloadAuthMode → Option String → ℕ → Tx (Unit {0})
unfolding save_run add_item
add_run_item run_id reel outcome auth_mode reason now = do
  found ← gets (λ db. find run_key run_id db.runs)
  elim found [
    | none ↦ raise lookup_error
    | some run ↦ do
      add_item (record {
        run_id = run_id;
        reel_id = reel.id;
        position = position_after run;
        outcome = outcome;
        download_auth_mode = auth_mode;
        reason_code = reason;
        completed_at = some now;
      })
      save_run (counted outcome run)
  ]

unfoldable pub commit_available : ℕ → ReelCandidate → ℕ → Tx (Unit {0})
unfolding reel_by_shortcode add_run_item
commit_available run_id candidate now = do
  found ← gets (λ db. reel_by_shortcode candidate.shortcode db.reels)
  elim found [
    | none ↦ raise value_error
    | some reel ↦
        if needs_source reel.pipeline_status
        then add_run_item run_id reel RunItemOutcome.already_available none none now
        else raise value_error
  ]

abbrev pub discovered_reel : ℕ → ReelCandidate → ℕ → Reel
discovered_reel reel_id candidate now = record {
  id = reel_id;
  shortcode = candidate.shortcode;
  canonical_url = candidate.canonical_url;
  pipeline_status = ReelPipelineStatus.discovered;
  source_object_key = none;
  source_sha256 = none;
  source_byte_size = none;
  video_id = none;
  failure_reason_code = none;
  discovered_at = some now;
  source_ready_at = none;
  ready_at = none;
  failed_at = none;
  source_cleanup_pending = false;
}

-- The Reel of the shortcode, added as `discovered` where there is none.
unfoldable pub reel_or_new : ℕ → ReelCandidate → ℕ → Tx Reel
unfolding reel_by_shortcode add_reel
reel_or_new reel_id candidate now = do
  found ← gets (λ db. reel_by_shortcode candidate.shortcode db.reels)
  elim found [
    | none ↦ do
      add_reel (discovered_reel reel_id candidate now)
      pure (discovered_reel reel_id candidate now)
    | some reel ↦ pure reel
  ]

-- The status from which a source is committed, after the change to `downloading`.
unfoldable pub to_downloading : ReelPipelineStatus → Tx (Unit {0})
unfolding require_transition reel_pipeline_transitions
to_downloading ReelPipelineStatus.failed = checked (
    require_transition reel_pipeline_transitions ReelPipelineStatus.failed
      ReelPipelineStatus.downloading)
to_downloading ReelPipelineStatus.discovered = checked (
    require_transition reel_pipeline_transitions ReelPipelineStatus.discovered
      ReelPipelineStatus.downloading)
to_downloading ReelPipelineStatus.downloading = pure tt
to_downloading _ = raise value_error

abbrev pub sourced : ValidatedSource → String → ℕ → Reel → Reel
sourced source object_key now reel = record reel {
  pipeline_status = ReelPipelineStatus.source_ready;
  source_object_key = some object_key;
  source_sha256 = some source.sha256;
  source_byte_size = some source.byte_size;
  source_ready_at = some now;
  failure_reason_code = none;
}

abbrev pub pending_job : ℕ → ℕ → ℕ → ℕ → Job
pending_job job_id reel attempts now = record {
  id = job_id;
  reel_id = reel;
  status = NormalizationJobStatus.pending;
  attempt_count = attempts;
  reason_code = none;
  completed_at = none;
  claimed_at = none;
  lease_expires_at = none;
  worker_id = none;
  staging_prefix = none;
  created_at = now;
}

unfoldable pub commit_source :
    ℕ → ReelCandidate → ValidatedSource → String → ℕ → ℕ → ℕ → Tx (Unit {0})
unfolding reel_or_new to_downloading save_reel add_job add_run_item
commit_source run_id candidate source object_key reel_id job_id now = do
  reel ← reel_or_new reel_id candidate now
  to_downloading reel.pipeline_status
  checked (
      require_transition reel_pipeline_transitions ReelPipelineStatus.downloading
        ReelPipelineStatus.source_ready)
  save_reel (sourced source object_key now reel)
  add_job (pending_job job_id reel.id 0 now)
  add_run_item run_id reel RunItemOutcome.source_committed (some DownloadAuthMode.session_first)
      none now

abbrev pub can_fail : ReelPipelineStatus → Bool
can_fail ReelPipelineStatus.discovered = true
can_fail ReelPipelineStatus.downloading = true
can_fail _ = false

abbrev pub refused_reel : String → ℕ → Reel → Reel
refused_reel reason now reel = record reel {
  pipeline_status = ReelPipelineStatus.failed;
  failed_at = some now;
  failure_reason_code = some reason;
}

-- The part of `record_failure` that writes the Reel.
unfoldable pub mark_failed : String → ℕ → Reel → Tx (Unit {0})
unfolding save_reel
mark_failed reason now reel =
    if can_fail reel.pipeline_status then save_reel (refused_reel reason now reel) else pure tt

abbrev pub attempted_mode : Bool → Option DownloadAuthMode
attempted_mode attempted = if attempted then some DownloadAuthMode.session_first else none

unfoldable pub record_failure : ℕ → ReelCandidate → String → Bool → ℕ → ℕ → Tx (Unit {0})
unfolding reel_or_new mark_failed add_run_item
record_failure run_id candidate reason download_attempted reel_id now = do
  reel ← reel_or_new reel_id candidate now
  mark_failed reason now reel
  add_run_item run_id reel RunItemOutcome.failed (attempted_mode download_attempted) (some reason)
      now

unfoldable pub fail_run : ℕ → String → ℕ → Tx (Unit {0})
unfolding save_run
fail_run run_id reason now = do
  found ← gets (λ db. find run_key run_id db.runs)
  elim found [
    | none ↦ pure tt
    | some run ↦
        if run.status == CollectionRunStatus.running
        then save_run (record run {
          status = CollectionRunStatus.failed;
          stop_reason_code = some reason;
          completed_at = some now;
        })
        else pure tt
  ]

unfoldable pub cancel_run : ℕ → String → ℕ → Tx CancelRunOutcome
unfolding save_run
cancel_run run_id reason now = do
  found ← gets (λ db. find run_key run_id db.runs)
  elim found [
    | none ↦ pure CancelRunOutcome.not_found
    | some run ↦
        if run.status == CollectionRunStatus.queued || run.status == CollectionRunStatus.running
        then (do
          save_run (record run {
            status = CollectionRunStatus.cancelled;
            stop_reason_code = some reason;
            completed_at = some now;
          })
          pure CancelRunOutcome.cancelled)
        else pure CancelRunOutcome.already_terminal
  ]

unfoldable pub complete_run : ℕ → ℕ → Tx (Unit {0})
unfolding save_run
complete_run run_id now = do
  found ← gets (λ db. find run_key run_id db.runs)
  elim found [
    | none ↦ pure tt
    | some run ↦
        save_run (record run { status = CollectionRunStatus.completed; completed_at = some now })
  ]
