-- ===== src/Collector/Ports.antt =====
-- The ports of apps/api/app/instagram/collector/contracts.py as a record of actions on a world `W`,
-- and the state of a running `collect`: the world, the local variables of the method, and a log of
-- the calls that publish, commit, move on and close, the newest first.
use offline_reels.Base.{ℕ, Bool, Option, String, List}
use offline_reels.Domain.Statuses.{CollectionTrigger, CollectionRunStatus, ReelPipelineStatus}
use offline_reels.Pipeline.Persistence.{ReelCandidate, ValidatedSource, CancelRunOutcome}
use offline_reels.Action.{Action}

-- The exceptions that `collect` tells apart. `failure` is any other Exception, with the value of
-- its `code` where it has one.
pub data Exn : Type 0 where
  invalid_reel_candidate keyboard_interrupt limit_exceeded deadline_exceeded type_error : Exn
  value_error : Exn
  failure : Option String → Exn

pub record PublishedSource : Type 0 where
  pub object_key : String
  pub created_by_attempt : Bool

pub record RunSummary : Type 0 where
  pub committed : ℕ
  pub available : ℕ
  pub failed : ℕ
  pub status : CollectionRunStatus

abbrev pub Port : Type 0 → Type 0 → Type 0
Port W A = Action W Exn A

-- `wait_for_next` and `next_from_authenticated_feed` take the deadline that their callback tests;
-- the variants with `_plain` are the calls without the callback, `record_plain` that without the
-- position. The two ports that `getattr` looks for may be missing.
pub record Ports (W : Type 0) : Type 0 where
  pub create_run : ℕ → CollectionTrigger → ℕ → Port W ℕ
  pub cancellation_requested : Option (ℕ → Port W Bool)
  pub account_has_durable_reel : ℕ → String → Port W Bool
  pub reel_status : String → Port W (Option ReelPipelineStatus)
  pub commit_available : ℕ → ReelCandidate → Port W (Unit {0})
  pub commit_source : ℕ → ReelCandidate → ValidatedSource → String → Port W (Unit {0})
  pub record_failure : ℕ → ReelCandidate → String → Bool → Port W (Unit {0})
  pub fail_run : ℕ → String → Port W (Unit {0})
  pub cancel_run : ℕ → String → Port W CancelRunOutcome
  pub complete_run : ℕ → Port W (Unit {0})
  pub complete_if_account_durable_total : ℕ → ℕ → Port W Bool
  pub summary : ℕ → Port W RunSummary
  pub current : Port W ReelCandidate
  pub pause_current : Port W (Unit {0})
  pub advance : Port W (Unit {0})
  pub wait_for_next : String → Option ℕ → Port W (Option ReelCandidate)
  pub wait_for_next_plain : String → Port W (Option ReelCandidate)
  pub next_from_authenticated_feed : Option (String → Option ℕ → Port W (Option ReelCandidate))
  pub next_from_authenticated_feed_plain : String → Port W (Option ReelCandidate)
  pub close : Port W (Unit {0})
  pub download : ReelCandidate → String → Port W (Unit {0})
  pub validate : String → Port W ValidatedSource
  pub temporary_path : String → Port W String
  pub publish : String → String → Port W PublishedSource
  pub delete : String → Port W (Unit {0})
  pub cleanup_temporary : String → Port W (Unit {0})
  pub record_event : ℕ → String → Port W (Unit {0})
  pub record_plain : String → Port W (Unit {0})
  pub clock : Port W ℕ
  pub sleep : ℕ → Port W (Unit {0})

-- `published` and `committed` are logged when the call has returned, the others when it is made.
pub data Call : Type 0 where
  published : PublishedSource → Call
  deleted committed : String → Call
  advanced closed completed : Call
  run_failed : String → Call
  run_cancelled : Call

-- The part of the source of one candidate that is under way.
pub record Attempt : Type 0 where
  pub published : Option PublishedSource
  pub stage : String
  pub download_attempted : Bool
  pub db_committed : Bool
  pub compensation_failed : Bool

pub record Locals : Type 0 where
  pub confirmed_advances : ℕ
  pub transition_operations : ℕ
  pub scroll_actions : ℕ
  pub committed_bytes : ℕ
  pub seen : List String
  pub duplicate_skipped_count : ℕ
  pub observations : ℕ
  pub reason : Option String
  pub position : ℕ
  pub attempt : Attempt

pub record Running (W : Type 0) : Type 0 where
  pub world : W
  pub log : List Call
  pub locals : Locals
