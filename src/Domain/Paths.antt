-- ===== src/Domain/Paths.antt =====
-- Sequences of state changes that the policies of transitions.py allow.
use offline_reels.Base.{refl, ℕ, suc, ◌+◌, ◌≤◌, ◌≡◌, arith}
use offline_reels.Domain.Statuses.{
  AccountStatus, ReelPipelineStatus, account_eq, run_eq, reel_eq, job_eq, CollectionRunStatus,
}
use offline_reels.Domain.Transitions.{
  account_transitions, reel_pipeline_transitions, accepted, require_transition,
  collection_run_transitions,
}

-- Changes that `require_transition` accepts, one after the other.
pub data Changes (S : Type 0) (step : S → S → Type 0) : S → S → Type 0 where
  here : {s : S} → Changes S step s s
  next : {s t u : S} → Changes S step s t → step t u → Changes S step s u

module _ {S : Type 0} {step : S → S → Type 0} where
  -- How many changes there are.
  unfoldable pub steps : {s t : S} → Changes S step s t → ℕ
  steps here = 0
  steps (next p e) = suc (steps p)

  -- A stage that a change raises by at most one.
  steps-climb :
      (stage : S → ℕ)
      → ((s t : S) → step s t → stage t ≤ stage s + 1)
      → {s t : S} (p : Changes S step s t) → stage t ≤ stage s + steps p
  unfolding steps
  steps-climb stage h here = omega arith
  steps-climb stage h (next {t = t} {u = u} p e) = omega (arith, steps-climb stage h p, h t u e)

abbrev pub AccountStep : AccountStatus → AccountStatus → Type 0
AccountStep s t = require_transition account_transitions s t ≡ accepted

abbrev pub RunStep : CollectionRunStatus → CollectionRunStatus → Type 0
RunStep s t = require_transition collection_run_transitions s t ≡ accepted

abbrev pub ReelStep : ReelPipelineStatus → ReelPipelineStatus → Type 0
ReelStep s t = require_transition reel_pipeline_transitions s t ≡ accepted

abbrev pub reel_stage : ReelPipelineStatus → ℕ
reel_stage ReelPipelineStatus.discovered = 0
reel_stage ReelPipelineStatus.downloading = 1
reel_stage ReelPipelineStatus.source_ready = 2
reel_stage ReelPipelineStatus.normalizing = 3
reel_stage ReelPipelineStatus.ready = 4
reel_stage ReelPipelineStatus.failed = 0

ReelStep-stage : (s t : ReelPipelineStatus) → ReelStep s t → reel_stage t ≤ reel_stage s + 1
unfolding require_transition reel_pipeline_transitions
ReelStep-stage s t h = ground arith

-- No allowed sequence of changes skips a stage: from a discovered or a failed Reel to a ready one
-- there are at least four changes, and from a ready source at least two.
pub reel_path-no_shortcut :
    (s : ReelPipelineStatus) (p : Changes ReelPipelineStatus ReelStep s ReelPipelineStatus.ready)
    → 4 ≤ reel_stage s + steps p
reel_path-no_shortcut s p = steps-climb reel_stage ReelStep-stage p

-- From every status an account can be brought back to `connected`.
pub account_path-connected :
    (s : AccountStatus) → Changes AccountStatus AccountStep s AccountStatus.connected
unfolding require_transition account_transitions
account_path-connected AccountStatus.disconnected =
    next {t = AccountStatus.connecting} (next here refl) refl
account_path-connected AccountStatus.connecting = next here refl
account_path-connected AccountStatus.connected = here
account_path-connected AccountStatus.reauth_required =
    next {t = AccountStatus.connecting} (next here refl) refl
account_path-connected AccountStatus.temporarily_limited =
    next {t = AccountStatus.connecting} (next here refl) refl
