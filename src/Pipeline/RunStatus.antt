-- ===== src/Pipeline/RunStatus.antt =====
-- How the Collector's transactions change the status of a run.
use offline_reels.Base.{
  ℕ, Bool, String, ◌==◌, ◌||◌, ◌≡◌, ◌⊎◌, inl, inr, some, arith, ◌=ℕ◌, true, false, Bool-cases,
  subst, sym,
}
use offline_reels.Base.Table.{find, put, find-put, key-find, IsKeyed}
use offline_reels.Base.Select.{select_first, select_first-find}
use offline_reels.Domain.Statuses.{CollectionRunStatus, run_eq}
use offline_reels.Domain.Transitions.{collection_run_transitions, require_transition}
use offline_reels.Domain.Paths.{RunStep}
use offline_reels.Pipeline.Schema.{Db, Run, run_key}
use offline_reels.Pipeline.Transaction.{committed, pure, save_run, ◌>>◌, Result}
use offline_reels.Pipeline.After.{
  After, After-if, After-option, After-last, After-save_run, After-committed,
}
use offline_reels.Pipeline.Persistence.{claim_queued_run, fail_run, cancel_run, is_claimable}

-- Each run keeps its status or makes one change that the policy allows.
abbrev pub RunsFollow : Db → Db → Type 0
RunsFollow db db' =
    (k : ℕ) (r r' : Run)
    → find run_key k db.runs ≡ some r
    → find run_key k db'.runs ≡ some r'
    → (r'.status ≡ r.status) ⊎ RunStep r.status r'.status

module _ (db : Db) where
  RunsFollow-refl : RunsFollow db db
  RunsFollow-refl k r r' h h' = inl (ground arith)

  RunsFollow-put :
      (r r' : Run)
      → find run_key r'.id db.runs ≡ some r
      → RunStep r.status r'.status
      → RunsFollow db (record db { runs = put run_key r' db.runs })
  RunsFollow-put r r' h step k x x' f f' = elim (Bool-cases (r'.id =ℕ k)) [
    | inl e ↦ inr (
        subst (λ q. RunStep q.status x'.status) (old e)
          (subst (λ q. RunStep r.status q.status) (written e) step))
    | inr e ↦ inl (kept e)
  ]
    where
      old : (r'.id =ℕ k) ≡ true → r ≡ x
      old e = ground arith

      written : (r'.id =ℕ k) ≡ true → r' ≡ x'
      written e = ground (arith, find-put run_key r' k db.runs)

      kept : (r'.id =ℕ k) ≡ false → x'.status ≡ x.status
      kept e = ground (arith, find-put run_key r' k db.runs)

  After-move :
      {A : Type 0} (a : A) (r r' : Run)
      → find run_key r'.id db.runs ≡ some r
      → RunStep r.status r'.status
      → After (RunsFollow db) ((save_run r' >> pure a) db)
  After-move a r r' h step =
      After-save_run (RunsFollow db) (λ _. pure a) r' db λ _. RunsFollow-put r r' h step

can_start :
    (s : CollectionRunStatus)
    → (s == CollectionRunStatus.queued) ≡ true
    → RunStep s CollectionRunStatus.running
unfolding require_transition collection_run_transitions
can_start s h = ground arith

can_end :
    (s : CollectionRunStatus)
    → (s == CollectionRunStatus.running) ≡ true
    → RunStep s CollectionRunStatus.failed
unfolding require_transition collection_run_transitions
can_end s h = ground arith

can_cancel :
    (s : CollectionRunStatus)
    → (s == CollectionRunStatus.queued || s == CollectionRunStatus.running) ≡ true
    → RunStep s CollectionRunStatus.cancelled
unfolding require_transition collection_run_transitions
can_cancel s h = ground arith

row_of :
    (db : Db) (k : ℕ) (r : Run)
    → find run_key k db.runs ≡ some r
    → find run_key r.id db.runs ≡ some r
row_of db k r e =
    subst (λ i. find run_key i db.runs ≡ some r) (sym (key-find run_key k db.runs r e)) e

After-started :
    (account : ℕ) (locked : Run → Bool) (now : ℕ) (db : Db)
    → IsKeyed run_key db.runs
    → After (RunsFollow db) (claim_queued_run account locked now db)
unfolding claim_queued_run
After-started account locked now db keyed =
    After-option (RunsFollow db)
      (select_first (λ r. r.created_at) run_key (is_claimable account locked) db.runs) _ _ db
      (λ _. RunsFollow-refl db)
      λ r e.
        let (there, p) =
          select_first-find (λ r. r.created_at) run_key (is_claimable account locked) db.runs r
            keyed e in
        After-move db _ r _ there (can_start r.status (ground (arith, p)))

After-failed :
    (run : ℕ) (reason : String) (now : ℕ) (db : Db)
    → After (RunsFollow db) (fail_run run reason now db)
unfolding fail_run
After-failed run reason now db =
    After-option (RunsFollow db) (find run_key run db.runs) _ _ db (λ _. RunsFollow-refl db)
      λ r e.
        After-if (RunsFollow db) (r.status == CollectionRunStatus.running) _ _ db
          (λ b.
            After-last (RunsFollow db) (save_run (stopped r)) db
              (After-move db tt r (stopped r) (row_of db run r e) (can_end r.status b)))
          (λ _. RunsFollow-refl db)
  where
    stopped : Run → Run
    stopped r = record r {
      status = CollectionRunStatus.failed;
      stop_reason_code = some reason;
      completed_at = some now;
    }

After-cancelled :
    (run : ℕ) (reason : String) (now : ℕ) (db : Db)
    → After (RunsFollow db) (cancel_run run reason now db)
unfolding cancel_run
After-cancelled run reason now db =
    After-option (RunsFollow db) (find run_key run db.runs) _ _ db (λ _. RunsFollow-refl db)
      λ r e.
        After-if (RunsFollow db)
          (r.status == CollectionRunStatus.queued || r.status == CollectionRunStatus.running) _ _ db
          (λ b. After-move db _ r _ (row_of db run r e) (can_cancel r.status b))
          (λ _. RunsFollow-refl db)

-- Starting a queued run, failing a run and cancelling a run leave the status of every run as it was
-- or change it as the policy of runs allows, where the table's primary keys are distinct; so none
-- of them moves a run that has completed, failed or been cancelled.
pub run_changes-RunsFollow :
    (db : Db) (now : ℕ)
    → IsKeyed run_key db.runs
    → ((account : ℕ) (locked : Run → Bool)
        → RunsFollow db (committed db (claim_queued_run account locked now db)))
      × ((run : ℕ) (reason : String) → RunsFollow db (committed db (fail_run run reason now db)))
      × ((run : ℕ) (reason : String) → RunsFollow db (committed db (cancel_run run reason now db)))
run_changes-RunsFollow db now keyed = (
  λ account locked.
      kept (claim_queued_run account locked now db) (After-started account locked now db keyed),
  λ run reason. kept (fail_run run reason now db) (After-failed run reason now db),
  λ run reason. kept (cancel_run run reason now db) (After-cancelled run reason now db),
)
  where
    kept :
        {A : Type 0} (m : Result (A × Db))
        → After (RunsFollow db) m
        → RunsFollow db (committed db m)
    kept m h = After-committed (RunsFollow db) db m (RunsFollow-refl db) h
