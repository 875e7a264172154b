-- ===== src/Pipeline/Accounts.antt =====
-- The transactions of CollectorPersistence on accounts, and its queries of what an account owns: the
-- joins of Reels, run items and runs. The clock is an argument.
pub mod Completion
pub mod Ownership
pub mod Policy
use offline_reels.Base.{
  ℕ, Bool, true, false, ◌&&◌, ◌||◌, not, Option, none, some, String, List, [], ◌∷◌, ◌==◌, nat_eq,
  string_eq, count_if, if◌then◌else◌,
}
use offline_reels.Base.Table.{find}
use offline_reels.Domain.Statuses.{
  AccountStatus, account_eq, CollectionRunStatus, run_eq, ReelPipelineStatus, reel_eq,
  RunItemOutcome,
}
use offline_reels.Domain.Transitions.{require_transition, account_transitions}
use offline_reels.Pipeline.Schema.{Db, Account, Run, Reel, Item, account_key, run_key}
use offline_reels.Pipeline.Transaction.{
  Tx, Error, pure, raise, gets, ◌>>=◌, ◌>>◌, add_account, save_account, save_run,
}
use offline_reels.Pipeline.Persistence.{checked}

abbrev pub new_account : ℕ → Account
new_account account_id = record {
  id = account_id;
  status = AccountStatus.disconnected;
  last_connected_at = none;
  reauth_required_at = none;
  reason_code = none;
}

unfoldable pub ensure_account : ℕ → Tx (Unit {0})
unfolding add_account
ensure_account account_id = do
  found ← gets (λ db. find account_key account_id db.accounts)
  elim found [ none ↦ add_account (new_account account_id) | some account ↦ pure tt ]

-- The row that a change of the status writes.
abbrev pub with_status : AccountStatus → Option String → ℕ → Account → Account
with_status AccountStatus.connected reason now account = record account {
  status = AccountStatus.connected;
  reason_code = reason;
  last_connected_at = some now;
}
with_status AccountStatus.reauth_required reason now account = record account {
  status = AccountStatus.reauth_required;
  reason_code = reason;
  reauth_required_at = some now;
}
with_status status reason now account = record account { status = status; reason_code = reason }

unfoldable pub change_status : AccountStatus → Option String → ℕ → Account → Tx (Unit {0})
unfolding save_account
change_status status reason now account = do
  if account.status == status
      then pure tt
      else checked (require_transition account_transitions account.status status)
  save_account (with_status status reason now account)

unfoldable pub set_account_status : ℕ → AccountStatus → Option String → ℕ → Tx (Unit {0})
unfolding add_account change_status
set_account_status account_id status reason now = do
  found ← gets (λ db. find account_key account_id db.accounts)
  elim found [
    | some account ↦ change_status status reason now account
    | none ↦ do
      add_account (new_account account_id)
      change_status status reason now (new_account account_id)
  ]

unfoldable pub account_status : ℕ → Tx AccountStatus
account_status account_id = do
  found ← gets (λ db. find account_key account_id db.accounts)
  elim found [ none ↦ pure AccountStatus.disconnected | some account ↦ pure account.status ]

unfoldable pub any_row : {A : Type 0} → (A → Bool) → List A → Bool
any_row p [] = false
any_row p (x ∷ xs) = let rest = any_row p xs in p x || rest

unfoldable pub active_run_exists : ℕ → Db → Bool
unfolding any_row
active_run_exists account_id db =
    any_row
      (λ run.
        run.account_id == account_id
        && (run.status == CollectionRunStatus.queued || run.status == CollectionRunStatus.running))
      db.runs

-- `_durable_statuses`
abbrev pub is_durable : ReelPipelineStatus → Bool
is_durable ReelPipelineStatus.source_ready = true
is_durable ReelPipelineStatus.normalizing = true
is_durable ReelPipelineStatus.ready = true
is_durable _ = false

-- `_acquisition_outcomes`
abbrev pub is_acquisition : RunItemOutcome → Bool
is_acquisition RunItemOutcome.source_committed = true
is_acquisition RunItemOutcome.already_available = true
is_acquisition _ = false

-- `column IS NOT NULL`
abbrev pub is_not_none : {A : Type 0} → Option A → Bool
is_not_none none = false
is_not_none (some a) = true

-- A row of the joined tables that `_account_durable_count` counts.
abbrev pub is_counted : ℕ → Reel → Item → Run → Bool
is_counted account_id reel item run =
    item.reel_id == reel.id
    && run.id == item.run_id
    && run.account_id == account_id
    && is_acquisition item.outcome
    && is_durable reel.pipeline_status
    && is_not_none reel.source_object_key
    && is_not_none reel.source_sha256
    && is_not_none reel.source_byte_size

-- `_account_durable_count`: count(distinct id), so a Reel counts once, however many rows it joins.
unfoldable pub account_durable_count : ℕ → Db → ℕ
unfolding any_row count_if
account_durable_count account_id db =
    count_if
      (λ reel.
        any_row (λ item. any_row (λ run. is_counted account_id reel item run) db.runs) db.items)
      db.reels

-- A row of the joined tables that `account_has_durable_reel` selects.
abbrev pub is_selected : ℕ → String → Reel → Item → Run → Bool
is_selected account_id shortcode reel item run =
    item.reel_id == reel.id
    && run.id == item.run_id
    && run.account_id == account_id
    && reel.shortcode == shortcode
    && is_durable reel.pipeline_status
    && is_not_none reel.source_object_key
    && is_not_none reel.source_sha256
    && is_not_none reel.source_byte_size
    && is_acquisition item.outcome

unfoldable pub account_has_durable_reel : ℕ → String → Db → Bool
unfolding any_row
account_has_durable_reel account_id shortcode db =
    any_row
      (λ reel.
        any_row (λ item. any_row (λ run. is_selected account_id shortcode reel item run) db.runs)
          db.items)
      db.reels

unfoldable pub complete_if_account_durable_total : ℕ → ℕ → ℕ → Tx Bool
unfolding account_durable_count save_run
complete_if_account_durable_total run_id desired_total now = do
  found ← gets (λ db. find run_key run_id db.runs)
  elim found [
    | none ↦ pure false
    | some run ↦ if not (run.status == CollectionRunStatus.running) then pure false else do
      count ← gets (account_durable_count run.account_id)
      if not (count == desired_total) then pure false else do
        save_run (record run { status = CollectionRunStatus.completed; completed_at = some now })
        pure true
  ]

-- The counts and the status of a run.
pub record RunCounts : Type 0 where
  pub source_committed_count : ℕ
  pub already_available_count : ℕ
  pub failed_count : ℕ
  pub status : CollectionRunStatus

unfoldable pub summary : ℕ → Tx RunCounts
summary run_id = do
  found ← gets (λ db. find run_key run_id db.runs)
  elim found [
    | none ↦ raise Error.lookup_error
    | some run ↦ pure (record {
      source_committed_count = run.source_committed_count;
      already_available_count = run.already_available_count;
      failed_count = run.failed_count;
      status = run.status;
    })
  ]
