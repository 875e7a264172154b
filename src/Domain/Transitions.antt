-- ===== src/Domain/Transitions.antt =====
-- apps/api/app/instagram/transitions.py: which durable state changes are allowed.
use offline_reels.Base.{Bool, ◌&&◌, not, List, [], ◌∷◌, HasEquality, ◌==◌, contains, if◌then◌else◌}
use offline_reels.Domain.Statuses.{
  AccountStatus, CollectionRunStatus, ReelPipelineStatus, NormalizationJobStatus,
}

unfoldable pub account_transitions : AccountStatus → List AccountStatus
account_transitions AccountStatus.disconnected = AccountStatus.connecting ∷ []
account_transitions AccountStatus.connecting =
    AccountStatus.connected ∷ AccountStatus.disconnected ∷ AccountStatus.reauth_required
    ∷ AccountStatus.temporarily_limited ∷ []
account_transitions AccountStatus.connected =
    AccountStatus.disconnected ∷ AccountStatus.reauth_required ∷ AccountStatus.temporarily_limited
    ∷ []
account_transitions AccountStatus.reauth_required =
    AccountStatus.connecting ∷ AccountStatus.disconnected ∷ []
account_transitions AccountStatus.temporarily_limited =
    AccountStatus.connecting ∷ AccountStatus.disconnected ∷ []

unfoldable pub collection_run_transitions : CollectionRunStatus → List CollectionRunStatus
collection_run_transitions CollectionRunStatus.queued =
    CollectionRunStatus.running ∷ CollectionRunStatus.cancelled ∷ CollectionRunStatus.failed ∷ []
collection_run_transitions CollectionRunStatus.running =
    CollectionRunStatus.completed ∷ CollectionRunStatus.cancelled ∷ CollectionRunStatus.failed ∷ []
collection_run_transitions CollectionRunStatus.completed = []
collection_run_transitions CollectionRunStatus.cancelled = []
collection_run_transitions CollectionRunStatus.failed = []

unfoldable pub reel_pipeline_transitions : ReelPipelineStatus → List ReelPipelineStatus
reel_pipeline_transitions ReelPipelineStatus.discovered =
    ReelPipelineStatus.downloading ∷ ReelPipelineStatus.failed ∷ []
reel_pipeline_transitions ReelPipelineStatus.downloading =
    ReelPipelineStatus.source_ready ∷ ReelPipelineStatus.failed ∷ []
reel_pipeline_transitions ReelPipelineStatus.source_ready =
    ReelPipelineStatus.normalizing ∷ ReelPipelineStatus.failed ∷ []
reel_pipeline_transitions ReelPipelineStatus.normalizing =
    ReelPipelineStatus.source_ready ∷ ReelPipelineStatus.ready ∷ ReelPipelineStatus.failed ∷ []
reel_pipeline_transitions ReelPipelineStatus.ready = []
reel_pipeline_transitions ReelPipelineStatus.failed = ReelPipelineStatus.downloading ∷ []

unfoldable pub normalization_job_transitions : NormalizationJobStatus → List NormalizationJobStatus
normalization_job_transitions NormalizationJobStatus.pending =
    NormalizationJobStatus.running ∷ NormalizationJobStatus.failed ∷ []
normalization_job_transitions NormalizationJobStatus.running =
    NormalizationJobStatus.completed ∷ NormalizationJobStatus.failed ∷ []
normalization_job_transitions NormalizationJobStatus.completed = []
normalization_job_transitions NormalizationJobStatus.failed = []

-- What `require_transition` does: it returns, or raises `InvalidStateTransition`.
pub data Transition : Type 0 where
  accepted invalid_state_transition : Transition

module _ {S : Type 0} ⦃e : HasEquality S⦄ where
  unfoldable pub is_transition_allowed : (S → List S) → S → S → Bool
  is_transition_allowed policy current target =
      not (current == target) && contains target (policy current)

  unfoldable pub require_transition : (S → List S) → S → S → Transition
  unfolding is_transition_allowed
  require_transition policy current target =
      if is_transition_allowed policy current target
      then Transition.accepted
      else Transition.invalid_state_transition
