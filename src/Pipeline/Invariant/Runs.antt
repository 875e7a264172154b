-- ===== src/Pipeline/Invariant/Runs.antt =====
-- The transactions that write runs only leave Reels and jobs as they are.
use offline_reels.Base.{refl, ℕ, Bool, String, ◌==◌, ◌||◌}
use offline_reels.Domain.Statuses.{CollectionRunStatus, run_eq, CollectionTrigger}
use offline_reels.Base.Table.{find}
use offline_reels.Pipeline.Transaction.{pure, add_run, save_run}
use offline_reels.Pipeline.After.{
  After, After-if, After-option, After-last, After-save_run, After-write,
}
use offline_reels.Pipeline.Schema.{Db, Run, run_key}
use offline_reels.Pipeline.Persistence.{
  create_run, claim_queued_run, fail_run, cancel_run, complete_run, is_claimable,
}
use offline_reels.Pipeline.Invariant.Rows.{SameTables}
use offline_reels.Base.Select.{select_first}

module _ (db : Db) where
  same_tables : SameTables db db
  same_tables = (refl, refl)

  After-write_run : (r : Run) → After (SameTables db) (save_run r db)
  After-write_run r =
      After-last (SameTables db) (save_run r) db
        (After-save_run (SameTables db) pure r db λ _. same_tables)

  pub After-create_run :
      (run account : ℕ) (trigger : CollectionTrigger) (target now : ℕ)
      → After (SameTables db) (create_run run account trigger target now db)
  unfolding create_run add_run
  After-create_run run account trigger target now =
      After-write (SameTables db) (λ _. pure run) _ _ _ (λ _. same_tables)

  pub After-claim_queued_run :
      (account : ℕ) (locked : Run → Bool) (now : ℕ)
      → After (SameTables db) (claim_queued_run account locked now db)
  unfolding claim_queued_run
  After-claim_queued_run account locked now =
      After-option (SameTables db)
        (select_first (λ r. r.created_at) run_key (is_claimable account locked) db.runs) _ _ db
        (λ _. same_tables) λ r _. After-save_run (SameTables db) _ _ db λ _. same_tables

  pub After-fail_run :
      (run : ℕ) (reason : String) (now : ℕ) → After (SameTables db) (fail_run run reason now db)
  unfolding fail_run
  After-fail_run run reason now =
      After-option (SameTables db) (find run_key run db.runs) _ _ db (λ _. same_tables)
        λ r _.
          After-if (SameTables db) (r.status == CollectionRunStatus.running) _ _ db
            (λ _. After-write_run _) (λ _. same_tables)

  pub After-cancel_run :
      (run : ℕ) (reason : String) (now : ℕ) → After (SameTables db) (cancel_run run reason now db)
  unfolding cancel_run
  After-cancel_run run reason now =
      After-option (SameTables db) (find run_key run db.runs) _ _ db (λ _. same_tables)
        λ r _.
          After-if (SameTables db)
            (r.status == CollectionRunStatus.queued || r.status == CollectionRunStatus.running) _ _
            db (λ _. After-save_run (SameTables db) _ _ db λ _. same_tables) (λ _. same_tables)

  pub After-complete_run : (run now : ℕ) → After (SameTables db) (complete_run run now db)
  unfolding complete_run
  After-complete_run run now =
      After-option (SameTables db) (find run_key run db.runs) _ _ db (λ _. same_tables)
        λ r _. After-write_run _
