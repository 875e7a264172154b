-- ===== src/Collector/Limits.antt =====
-- CollectorLimits of apps/api/app/instagram/collector/service.py, and the checks with which
-- `collect` begins. Seconds are numbers of microseconds.
use offline_reels.Base.{ℕ, Bool, false, ◌||◌, Option, none, some, ltb, leb}

pub record CollectorLimits : Type 0 where
  pub max_target : ℕ
  pub max_advances : ℕ
  pub max_transition_operations : Option ℕ
  pub max_scroll_actions : Option ℕ
  pub max_run_bytes : Option ℕ
  pub cooldown_seconds : ℕ
  pub deadline_seconds : Option ℕ
  pub max_observations : Option ℕ

abbrev pub default_limits : CollectorLimits
default_limits = record {
  max_target = 5;
  max_advances = 10;
  max_transition_operations = none;
  max_scroll_actions = none;
  max_run_bytes = none;
  cooldown_seconds = 0;
  deadline_seconds = none;
  max_observations = none;
}

-- A limit that is given and below one.
abbrev below_one : Option ℕ → Bool
below_one none = false
below_one (some n) = ltb n 1

-- Does `collect` raise ValueError before it touches a port?
unfoldable pub is_rejected : CollectorLimits → ℕ → Option ℕ → Bool
is_rejected limits target_count desired_account_total =
    ltb target_count 1
    || ltb limits.max_target target_count
    || below_one limits.max_run_bytes
    || below_one limits.max_transition_operations
    || below_one limits.max_scroll_actions
    || below_one limits.deadline_seconds
    || below_one limits.max_observations
    || elim desired_account_total [ none ↦ false | some total ↦ ltb total target_count ]

-- Is the count at a limit that is given?
abbrev pub at_limit : Option ℕ → ℕ → Bool
at_limit none count = false
at_limit (some limit) count = leb limit count
