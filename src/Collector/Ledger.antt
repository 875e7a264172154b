-- ===== src/Collector/Ledger.antt =====
-- What the engine's state holds between two calls: which published sources nobody owns yet, and the
-- bounds of the counters.
pub mod Rules
pub mod Orphans
pub mod Sources
pub mod Moves
pub mod Turns
pub mod Advances
pub mod Loop
pub mod Ending
pub mod Verdicts
use offline_reels.Base.{
  ℕ, ◌≤◌, ◌≡◌, Bool, true, false, Option, none, some, String, List, [], ◌∷◌, ◌==◌, string_eq,
  if◌then◌else◌, ◌-◌, ◌+◌, arith,
}
use offline_reels.Collector.Ports.{Call, Locals, Running, Attempt, PublishedSource}
use offline_reels.Collector.Limits.{CollectorLimits, at_limit}
use offline_reels.Collector.Source.{to_delete}
use offline_reels.Domain.Statuses.{CollectionRunStatus}

-- The list without the key.
unfoldable pub without : String → List String → List String
without k [] = []
without k (x ∷ xs) = let rest = without k xs in if x == k then rest else x ∷ rest

-- The keys of the sources that were newly published and neither committed nor deleted since, by a
-- log that has the newest call first.
unfoldable pub orphans : List Call → List String
unfolding without
orphans [] = []
orphans (Call.published p ∷ log) =
    let rest = orphans log in if p.created_by_attempt then p.object_key ∷ rest else rest
orphans (Call.deleted k ∷ log) = without k (orphans log)
orphans (Call.committed k ∷ log) = without k (orphans log)
orphans (Call.advanced ∷ log) = orphans log
orphans (Call.closed ∷ log) = orphans log
orphans (Call.completed ∷ log) = orphans log
orphans (Call.run_failed reason ∷ log) = orphans log
orphans (Call.run_cancelled ∷ log) = orphans log

-- The count is within a limit that is given.
abbrev pub Within : Option ℕ → ℕ → Type 0
Within none n = Unit {0}
Within (some limit) n = n ≤ limit

pub Within-zero : (o : Option ℕ) → Within o 0
Within-zero none = tt
Within-zero (some limit) = omega arith

pub Within-next : (o : Option ℕ) (k : ℕ) → at_limit o k ≡ false → Within o (k + 1)
Within-next none k e = tt
Within-next (some limit) k e = ground arith

pub Within-used :
    (o : Option ℕ) (used more : ℕ)
    → Within o used
    → Within (elim o [ none ↦ none | some limit ↦ some (limit - used) ]) more
    → Within o (used + more)
Within-used none used more u m = tt
Within-used (some limit) used more u m = omega arith

-- The counters keep the limits of the engine, and the number of confirmed moves is as `C` wants it.
abbrev pub IsBounded : CollectorLimits → (ℕ → Type 0) → Locals → Type 0
IsBounded limits C l =
    C l.confirmed_advances
    × Within limits.max_observations l.observations
    × Within limits.max_run_bytes l.committed_bytes
    × Within limits.max_transition_operations l.transition_operations
    × Within limits.max_scroll_actions l.scroll_actions

-- A property of the log and the local variables, as one of the state.
pub record On {ℓ} {W : Type 0} (P : List Call → Locals → Type ℓ) (s : Running W) : Type ℓ where
  pub holds : P s.log s.locals

-- Nothing published is without an owner, and the counters are within their limits.
abbrev pub IsSettled : CollectorLimits → (ℕ → Type 0) → List Call → Locals → Type 0
IsSettled limits C log l = (orphans log ≡ []) × IsBounded limits C l

-- The status that a call reports of the run.
abbrev pub verdict : Call → Option CollectionRunStatus
verdict Call.completed = some CollectionRunStatus.completed
verdict (Call.run_failed reason) = some CollectionRunStatus.failed
verdict Call.run_cancelled = some CollectionRunStatus.cancelled
verdict _ = none

-- What was last reported.
unfoldable pub newest_verdict : List Call → Option CollectionRunStatus
newest_verdict [] = none
newest_verdict (c ∷ log) =
    let rest = newest_verdict log in elim (verdict c) [ some status ↦ some status | none ↦ rest ]
