-- ===== src/Pipeline/Accounts/Completion.antt =====
-- A run is completed for the total of durable Reels that its account owns.
use offline_reels.Base.{
  ℕ, ◌≡◌, ◌≢◌, refl, true, false, some, List, [], ◌∷◌, ◌==◌, nat_eq, count_if, arith, Bool-cases,
  inl, inr, ◌⊎◌, sym, ◌∙◌,
}
use offline_reels.Base.Table.{find, put, find-put, key-find}
use offline_reels.Domain.Statuses.{CollectionRunStatus, run_eq}
use offline_reels.Pipeline.Schema.{Db, Run, run_key, run_checks}
use offline_reels.Pipeline.Transaction.{ok, save_run, runs_clash, run_admitted}
use offline_reels.Pipeline.Accounts.{
  account_has_durable_reel, account_durable_count, complete_if_account_durable_total,
}
use offline_reels.Pipeline.Accounts.Ownership.{
  HasOwnShortcodes, account_durable_count-has_durable_reel,
}

abbrev completed_run : ℕ → Run → Run
completed_run now run = record run {
  status = CollectionRunStatus.completed;
  completed_at = some now;
}

no_clash :
    (now : ℕ) (run : Run) (runs : List Run) → count_if (runs_clash (completed_run now run)) runs ≡ 0
unfolding runs_clash count_if
no_clash now run [] = ground arith
no_clash now run (r ∷ runs) = ground (arith, no_clash now run runs)

completed-admitted :
    (now : ℕ) (run : Run) (runs : List Run)
    → run_checks run ≡ true
    → run_admitted (completed_run now run) runs ≡ true
unfolding run_admitted
completed-admitted now run runs h = ground (arith, no_clash now run runs)

-- The run is running, and its account owns as many Reels as it asks for, one by one.
pub record MayComplete (desired_total : ℕ) (run : Run) (db : Db) : Type 0 where
  pub running : run.status ≡ CollectionRunStatus.running
  pub total :
      count_if (λ reel. account_has_durable_reel run.account_id reel.shortcode db) db.reels
      ≡ desired_total

-- The row of the run is completed at this time, and no other row of a table is written.
pub record IsCompleted (run_id now : ℕ) (run : Run) (db db' : Db) : Type 0 where
  pub row :
      find run_key run_id db'.runs
      ≡ some (record run { status = CollectionRunStatus.completed; completed_at = some now })
  pub others : (k : ℕ) → k ≢ run_id → find run_key k db'.runs ≡ find run_key k db.runs
  pub rest : db' ≡ record db { runs = db'.runs }

module _ (run_id desired_total now : ℕ) (run : Run) (db : Db) (own : HasOwnShortcodes db.reels)
    (there : find run_key run_id db.runs ≡ some run) (sound : run_checks run ≡ true) where
  abbrev after : Db
  after = record db { runs = put run_key (completed_run now run) db.runs }

  after-IsCompleted : IsCompleted run_id now run db after
  after-IsCompleted = record {
    row = ground (
      arith,
      there,
      key-find run_key run_id db.runs run there,
      find-put run_key (completed_run now run) run_id db.runs,
    );
    others = λ k h. ground (
      arith,
      h,
      key-find run_key run_id db.runs run there,
      find-put run_key (completed_run now run) k db.runs,
    );
    rest = refl;
  }

  -- What the call does: it completes the run, or changes nothing.
  abbrev pub Decides : Type 0
  Decides =
      (MayComplete desired_total run db
        × (db' : Db) × ((complete_if_account_durable_total run_id desired_total now db
              ≡ ok (true, db'))
            × IsCompleted run_id now run db db'))
      ⊎ ((¬ MayComplete desired_total run db)
          × (complete_if_account_durable_total run_id desired_total now db ≡ ok (false, db)))

  -- For a known run whose row obeys its checks, and Reels with shortcodes of their own, the completion
  -- for a durable total always returns. It returns true where the run is running and the account of the
  -- run has the ownership test pass for exactly that many Reels, and then the run's row and nothing
  -- else is written, as completed. Otherwise it returns false and writes nothing.
  pub complete_if_account_durable_total-decides : Decides
  unfolding complete_if_account_durable_total save_run
  complete_if_account_durable_total-decides =
      elim (Bool-cases (run.status == CollectionRunStatus.running)) [
        | inl r ↦ elim (Bool-cases (account_durable_count run.account_id db == desired_total)) [
          | inl t ↦ inl (
            record {
              running = ground (arith, run_eq.equal_iff run.status CollectionRunStatus.running);
              total =
                  sym (account_durable_count-has_durable_reel run.account_id db own)
                  ∙ ground (
                    arith,
                    nat_eq.equal_iff (account_durable_count run.account_id db) desired_total,
                  );
            },
            after,
            (
              ground (arith, there, r, t, completed-admitted now run db.runs sound),
              after-IsCompleted,
            ),
          )
          | inr t ↦ inr (
            λ m. ground (
              arith,
              m.total,
              account_durable_count-has_durable_reel run.account_id db own,
              nat_eq.equal_iff (account_durable_count run.account_id db) desired_total,
            ),
            ground (arith, there, r, t),
          )
        ]
        | inr r ↦ inr (
          λ m. ground (arith, m.running, run_eq.equal_iff run.status CollectionRunStatus.running),
          ground (arith, there, r),
        )
      ]
