-- ===== src/Pipeline/Counters.antt =====
-- The counters of a run and the items that they count.
use mathlib.Core.Option
use offline_reels.Base.{
  ◌∙◌, if◌then◌else◌, refl, ℕ, Bool, true, false, ◌≡◌, ◌==◌, ◌&&◌, count_if, some, Option, String,
  List, ◌∷◌, arith, inl, inr, Bool-cases, ◌=ℕ◌, subst, nat_eq, none,
}
use offline_reels.Base.Table.{find, put, find-put, key-find}
use offline_reels.Domain.Statuses.{RunItemOutcome, DownloadAuthMode, ReelPipelineStatus}
use offline_reels.Pipeline.Schema.{Run, Item, Db, Reel, run_key, needs_source}
use offline_reels.Pipeline.Transaction.{committed, save_run, pure, save_reel, Result}
use offline_reels.Pipeline.After.{
  After, After-option, After-add_item, After-last, After-save_run, After-committed, After-if,
  After-bind, After-add_reel, After-save_reel, After-add_job,
}
use offline_reels.Pipeline.Persistence.{
  add_run_item, counted, reel_or_new, to_downloading, mark_failed, commit_source, record_failure,
  commit_available, ReelCandidate, reel_by_shortcode, can_fail, ValidatedSource, attempted_mode,
  discovered_reel, refused_reel, sourced, pending_job,
}
use offline_reels.Domain.Transitions.{require_transition, reel_pipeline_transitions}
use mathlib.Core.Option.{none}

abbrev pub has_outcome : RunItemOutcome → RunItemOutcome → Bool
has_outcome RunItemOutcome.source_committed RunItemOutcome.source_committed = true
has_outcome RunItemOutcome.already_available RunItemOutcome.already_available = true
has_outcome RunItemOutcome.failed RunItemOutcome.failed = true
has_outcome _ _ = false

abbrev pub is_item_of : ℕ → RunItemOutcome → Item → Bool
is_item_of run o i = i.run_id == run && has_outcome o i.outcome

abbrev pub counter : RunItemOutcome → Run → ℕ
counter RunItemOutcome.source_committed r = r.source_committed_count
counter RunItemOutcome.already_available r = r.already_available_count
counter RunItemOutcome.failed r = r.failed_count

-- Each counter of a run is the number of its items with that outcome.
abbrev pub RunsCounted : List Item → List Run → Type 0
RunsCounted items runs =
    (k : ℕ) (r : Run)
    → find run_key k runs ≡ some r
    → (o : RunItemOutcome) → count_if (is_item_of k o) items ≡ counter o r

count-other :
    (k : ℕ) (o : RunItemOutcome) (i : Item) (items : List Item)
    → (i.run_id =ℕ k) ≡ false
    → count_if (is_item_of k o) (i ∷ items) ≡ count_if (is_item_of k o) items
unfolding count_if
count-other k o i items h = ground arith

count-own :
    (o : RunItemOutcome) (i : Item) (items : List Item) (run : Run)
    → count_if (is_item_of i.run_id o) items ≡ counter o run
    → count_if (is_item_of i.run_id o) (i ∷ items) ≡ counter o (counted i.outcome run)
unfolding count_if
count-own o i items run h = ground arith

counted_id : (o : RunItemOutcome) (run : Run) → (counted o run).id ≡ run.id
counted_id RunItemOutcome.source_committed run = refl
counted_id RunItemOutcome.already_available run = refl
counted_id RunItemOutcome.failed run = refl

module _ (i : Item) (run : Run) (items : List Item) (runs : List Run)
    (found : find run_key i.run_id runs ≡ some run) where
  raised : Run
  raised = counted i.outcome run

  raised_id : raised.id ≡ i.run_id
  unfolding raised
  raised_id = counted_id i.outcome run ∙ key-find run_key i.run_id runs run found

  find-raised :
      (k : ℕ)
      → find run_key k (put run_key raised runs) ≡ (
          if i.run_id =ℕ k
          then Option.map (λ _. raised) (find run_key k runs)
          else find run_key k runs)
  find-raised k =
      subst
        (λ j. find run_key k (put run_key raised runs) ≡ (
          if j =ℕ k then Option.map (λ _. raised) (find run_key k runs) else find run_key k runs))
        raised_id (find-put run_key raised k runs)

  RunsCounted-item :
      RunsCounted items runs → RunsCounted (i ∷ items) (put run_key (counted i.outcome run) runs)
  unfolding raised
  RunsCounted-item inv k r f o = elim (Bool-cases (i.run_id =ℕ k)) [
    | inl e ↦
        let written : raised ≡ r = ground (arith, find-raised k, found) in
        let here : i.run_id ≡ k = ground arith in
        subst (λ j. count_if (is_item_of j o) (i ∷ items) ≡ counter o r) here
          (subst (λ q. count_if (is_item_of i.run_id o) (i ∷ items) ≡ counter o q) written
            (count-own o i items run (inv i.run_id run found o)))
    | inr e ↦
        let kept : find run_key k runs ≡ some r = ground (arith, find-raised k) in
        count-other k o i items e ∙ inv k r kept o
  ]

-- `_add_item` keeps the counters of every run equal to the numbers of its items with each outcome.
add_run_item-RunsCounted :
    (run_id : ℕ) (reel : Reel) (outcome : RunItemOutcome) (mode : Option DownloadAuthMode)
    (reason : Option String) (now : ℕ) (db : Db)
    → RunsCounted db.items db.runs
    → After (λ d. RunsCounted d.items d.runs) (add_run_item run_id reel outcome mode reason now db)
unfolding add_run_item
add_run_item-RunsCounted run_id reel outcome mode reason now db inv =
    After-option P (find run_key run_id db.runs) _ _ db (λ _. tt)
      λ run found. After-add_item P _ _ db λ _.
        After-last P (save_run _) _
          (After-save_run P pure _ _ λ _. RunsCounted-item _ run db.items db.runs found inv)
  where
    P : Db → Type 0
    P d = RunsCounted d.items d.runs

abbrev pub Counted : Db → Type 0
Counted d = RunsCounted d.items d.runs

Counted-reel_or_new :
    (reel_id : ℕ) (candidate : ReelCandidate) (now : ℕ) (db : Db)
    → Counted db
    → After Counted (reel_or_new reel_id candidate now db)
unfolding reel_or_new
Counted-reel_or_new reel_id candidate now db inv =
    After-option Counted (reel_by_shortcode candidate.shortcode db.reels) _ _ db
      (λ _. After-add_reel Counted _ (discovered_reel reel_id candidate now) db λ _. inv)
      (λ _ _. inv)

Counted-to_downloading :
    (status : ReelPipelineStatus) (db : Db) → Counted db → After Counted (to_downloading status db)
unfolding to_downloading require_transition reel_pipeline_transitions
Counted-to_downloading ReelPipelineStatus.discovered db inv = inv
Counted-to_downloading ReelPipelineStatus.downloading db inv = inv
Counted-to_downloading ReelPipelineStatus.source_ready db inv = tt
Counted-to_downloading ReelPipelineStatus.normalizing db inv = tt
Counted-to_downloading ReelPipelineStatus.ready db inv = tt
Counted-to_downloading ReelPipelineStatus.failed db inv = inv

Counted-mark_failed :
    (reason : String) (now : ℕ) (reel : Reel) (db : Db)
    → Counted db
    → After Counted (mark_failed reason now reel db)
unfolding mark_failed
Counted-mark_failed reason now reel db inv =
    After-if Counted (can_fail reel.pipeline_status) _ _ db
      (λ _.
        After-last Counted (save_reel (refused_reel reason now reel)) db
          (After-save_reel Counted pure (refused_reel reason now reel) db λ _. inv))
      (λ _. inv)

Counted-commit_source :
    (run_id : ℕ) (candidate : ReelCandidate) (source : ValidatedSource) (object_key : String)
    (reel_id job_id now : ℕ) (db : Db)
    → Counted db
    → After Counted (commit_source run_id candidate source object_key reel_id job_id now db)
unfolding commit_source require_transition reel_pipeline_transitions
Counted-commit_source run_id candidate source object_key reel_id job_id now db inv =
    After-bind Counted Counted (reel_or_new reel_id candidate now) _ db
      (Counted-reel_or_new reel_id candidate now db inv)
      λ reel db1 inv1.
        After-bind Counted Counted (to_downloading reel.pipeline_status) _ db1
          (Counted-to_downloading reel.pipeline_status db1 inv1)
          λ _ db2 inv2. After-save_reel Counted _ (sourced source object_key now reel) db2 λ _.
            After-add_job Counted _ (pending_job job_id reel.id 0 now) _ λ _.
              add_run_item-RunsCounted run_id reel RunItemOutcome.source_committed
                (some DownloadAuthMode.session_first) none now _ inv2

Counted-record_failure :
    (run_id : ℕ) (candidate : ReelCandidate) (reason : String) (attempted : Bool) (reel_id now : ℕ)
    (db : Db)
    → Counted db
    → After Counted (record_failure run_id candidate reason attempted reel_id now db)
unfolding record_failure
Counted-record_failure run_id candidate reason attempted reel_id now db inv =
    After-bind Counted Counted (reel_or_new reel_id candidate now) _ db
      (Counted-reel_or_new reel_id candidate now db inv)
      λ reel db1 inv1.
        After-bind Counted Counted (mark_failed reason now reel) _ db1
          (Counted-mark_failed reason now reel db1 inv1)
          λ _ db2 inv2.
            add_run_item-RunsCounted run_id reel RunItemOutcome.failed (attempted_mode attempted)
              (some reason) now db2 inv2

Counted-commit_available :
    (run_id : ℕ) (candidate : ReelCandidate) (now : ℕ) (db : Db)
    → Counted db
    → After Counted (commit_available run_id candidate now db)
unfolding commit_available
Counted-commit_available run_id candidate now db inv =
    After-option Counted (reel_by_shortcode candidate.shortcode db.reels) _ _ db (λ _. tt)
      λ reel _.
        After-if Counted (needs_source reel.pipeline_status) _ _ db
          (λ _.
            add_run_item-RunsCounted run_id reel RunItemOutcome.already_available none none now db
              inv)
          (λ _. tt)

-- Committing a source, recording a failure and committing an available Reel, whether they commit or
-- raise, keep the counters of every run equal to the numbers of its items with each outcome.
pub collection-RunsCounted :
    (db : Db)
    → RunsCounted db.items db.runs
    → ((run_id : ℕ) (candidate : ReelCandidate) (source : ValidatedSource) (object_key : String)
          (reel_id job_id now : ℕ)
        → Counted
            (committed db (commit_source run_id candidate source object_key reel_id job_id now db)))
      × ((run_id : ℕ) (candidate : ReelCandidate) (reason : String) (attempted : Bool)
            (reel_id now : ℕ)
          → Counted
              (committed db (record_failure run_id candidate reason attempted reel_id now db)))
      × ((run_id : ℕ) (candidate : ReelCandidate) (now : ℕ)
          → Counted (committed db (commit_available run_id candidate now db)))
collection-RunsCounted db inv = (
  λ run_id candidate source object_key reel_id job_id now.
      kept (commit_source run_id candidate source object_key reel_id job_id now db)
        (Counted-commit_source run_id candidate source object_key reel_id job_id now db inv),
  λ run_id candidate reason attempted reel_id now.
      kept (record_failure run_id candidate reason attempted reel_id now db)
        (Counted-record_failure run_id candidate reason attempted reel_id now db inv),
  λ run_id candidate now.
      kept (commit_available run_id candidate now db)
        (Counted-commit_available run_id candidate now db inv),
)
  where
    kept : {A : Type 0} (m : Result (A × Db)) → After Counted m → Counted (committed db m)
    kept m h = After-committed Counted db m inv h
