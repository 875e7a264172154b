-- ===== src/Examples/Policies.antt =====
-- The policies of apps/api/app/instagram/transitions.py on concrete paths.
use offline_reels.Base.{refl, ◌≡◌, ◌≤◌, some, true, length, codes}
use offline_reels.Domain.Statuses.{ReelPipelineStatus, AccountStatus}
use offline_reels.Domain.Paths.{
  Changes, here, next, steps, ReelStep, reel_path-no_shortcut, AccountStep, account_path-connected,
}
use offline_reels.Domain.Reasons.{
  is_valid_reason_code, reason_value, reason_code_max_length, ReasonCode,
  is_valid_reason_code-length, reason_value-valid,
}
use offline_reels.Domain.Transitions.{require_transition, reel_pipeline_transitions}

-- The whole way of a Reel whose first normalization attempt fails.
unfoldable retried :
    Changes ReelPipelineStatus ReelStep ReelPipelineStatus.failed ReelPipelineStatus.ready
unfolding require_transition reel_pipeline_transitions
retried =
    next {t = ReelPipelineStatus.normalizing}
      (next {t = ReelPipelineStatus.source_ready}
        (next {t = ReelPipelineStatus.normalizing}
          (next {t = ReelPipelineStatus.source_ready}
            (next {t = ReelPipelineStatus.downloading} (next here refl) refl) refl)
          refl)
        refl)
      refl

retried-steps : steps retried ≡ 6
unfolding steps retried
retried-steps = refl

reel_path-no_shortcut_example : 4 ≤ 6
unfolding steps retried
reel_path-no_shortcut_example = reel_path-no_shortcut ReelPipelineStatus.failed retried

account_path-connected_example :
    Changes AccountStatus AccountStep AccountStatus.reauth_required AccountStatus.connected
account_path-connected_example = account_path-connected AccountStatus.reauth_required

is_valid_reason_code-length_example : length (codes "AUTH_REQUIRED") ≤ reason_code_max_length
unfolding is_valid_reason_code
is_valid_reason_code-length_example = is_valid_reason_code-length "AUTH_REQUIRED" refl

reason_value-valid_example :
    is_valid_reason_code (some (reason_value ReasonCode.stale_lease_recovered)) ≡ true
reason_value-valid_example = reason_value-valid ReasonCode.stale_lease_recovered
