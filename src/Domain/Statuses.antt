-- ===== src/Domain/Statuses.antt =====
-- The status enumerations of apps/api/app/instagram/contracts.py, with `==` on each.
use offline_reels.Base.{ℕ, ◌≡◌, ◌↔◌, HasEquality, ◌=ℕ◌, arith, true}

pub data AccountStatus : Type 0 where
  disconnected connecting connected reauth_required temporarily_limited : AccountStatus

pub data LoginSessionStatus : Type 0 where
  pending active completed expired cancelled : LoginSessionStatus

pub data CollectionRunStatus : Type 0 where
  queued running completed cancelled failed : CollectionRunStatus

pub data ReelPipelineStatus : Type 0 where
  discovered downloading source_ready normalizing ready failed : ReelPipelineStatus

pub data NormalizationJobStatus : Type 0 where
  pending running completed failed : NormalizationJobStatus

pub data RunItemOutcome : Type 0 where
  source_committed already_available failed : RunItemOutcome

pub data CollectionTrigger : Type 0 where
  manual automatic : CollectionTrigger

pub data DownloadAuthMode : Type 0 where
  session_first : DownloadAuthMode

-- The place of a member in its enumeration, by which members are compared.
abbrev pub account_tag : AccountStatus → ℕ
account_tag AccountStatus.disconnected = 0
account_tag AccountStatus.connecting = 1
account_tag AccountStatus.connected = 2
account_tag AccountStatus.reauth_required = 3
account_tag AccountStatus.temporarily_limited = 4

abbrev pub login_tag : LoginSessionStatus → ℕ
login_tag LoginSessionStatus.pending = 0
login_tag LoginSessionStatus.active = 1
login_tag LoginSessionStatus.completed = 2
login_tag LoginSessionStatus.expired = 3
login_tag LoginSessionStatus.cancelled = 4

abbrev pub run_tag : CollectionRunStatus → ℕ
run_tag CollectionRunStatus.queued = 0
run_tag CollectionRunStatus.running = 1
run_tag CollectionRunStatus.completed = 2
run_tag CollectionRunStatus.cancelled = 3
run_tag CollectionRunStatus.failed = 4

abbrev pub reel_tag : ReelPipelineStatus → ℕ
reel_tag ReelPipelineStatus.discovered = 0
reel_tag ReelPipelineStatus.downloading = 1
reel_tag ReelPipelineStatus.source_ready = 2
reel_tag ReelPipelineStatus.normalizing = 3
reel_tag ReelPipelineStatus.ready = 4
reel_tag ReelPipelineStatus.failed = 5

abbrev pub job_tag : NormalizationJobStatus → ℕ
job_tag NormalizationJobStatus.pending = 0
job_tag NormalizationJobStatus.running = 1
job_tag NormalizationJobStatus.completed = 2
job_tag NormalizationJobStatus.failed = 3

pub account_tag_iff : (a b : AccountStatus) → ((account_tag a =ℕ account_tag b) ≡ true) ↔ (a ≡ b)
account_tag_iff a b = ground arith

pub login_tag_iff : (a b : LoginSessionStatus) → ((login_tag a =ℕ login_tag b) ≡ true) ↔ (a ≡ b)
login_tag_iff a b = ground arith

pub run_tag_iff : (a b : CollectionRunStatus) → ((run_tag a =ℕ run_tag b) ≡ true) ↔ (a ≡ b)
run_tag_iff a b = ground arith

pub reel_tag_iff : (a b : ReelPipelineStatus) → ((reel_tag a =ℕ reel_tag b) ≡ true) ↔ (a ≡ b)
reel_tag_iff a b = ground arith

pub job_tag_iff : (a b : NormalizationJobStatus) → ((job_tag a =ℕ job_tag b) ≡ true) ↔ (a ≡ b)
job_tag_iff a b = ground arith

instance abbrev pub account_eq : HasEquality AccountStatus
account_eq = record { equal = λ a b. account_tag a =ℕ account_tag b; equal_iff = account_tag_iff }

instance abbrev pub login_eq : HasEquality LoginSessionStatus
login_eq = record { equal = λ a b. login_tag a =ℕ login_tag b; equal_iff = login_tag_iff }

instance abbrev pub run_eq : HasEquality CollectionRunStatus
run_eq = record { equal = λ a b. run_tag a =ℕ run_tag b; equal_iff = run_tag_iff }

instance abbrev pub reel_eq : HasEquality ReelPipelineStatus
reel_eq = record { equal = λ a b. reel_tag a =ℕ reel_tag b; equal_iff = reel_tag_iff }

instance abbrev pub job_eq : HasEquality NormalizationJobStatus
job_eq = record { equal = λ a b. job_tag a =ℕ job_tag b; equal_iff = job_tag_iff }
