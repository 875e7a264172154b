-- ===== src/Examples/Collections.antt =====
-- Runs of `collect` on a feed of two Reels, one that completes and one whose second source cannot be
-- committed, and the theorems at them.
use offline_reels.Base.{
  ℕ, ◌+◌, ◌≡◌, refl, true, false, Option, none, some, String, [], ◌∷◌, ◌==◌, string_eq,
  if◌then◌else◌, ltb, followed_by, arith, ◌≢◌, ◌≤◌,
}
use offline_reels.Domain.Statuses.{CollectionTrigger, CollectionRunStatus}
use offline_reels.Pipeline.Persistence.{ReelCandidate, CancelRunOutcome}
use offline_reels.Action.{◌>>=◌, pure, finally, try_except, Outcome}
use offline_reels.Collector.Limits.{default_limits}
use offline_reels.Collector.Canonical.{SplitUrl}
use offline_reels.Collector.Ports.{Exn, Port, Ports, Call, Running, PublishedSource}
use offline_reels.Collector.Collect.{Request, collect}
use offline_reels.Collector.Guarantees.{
  start, collect-no_orphans, collect-terminates, collect-verdict, collect-IsBounded,
}
use offline_reels.Collector.Calls.{CollectorSummary}
use offline_reels.Collector.Ledger.{orphans, IsBounded, newest_verdict}
use offline_reels.Collector.Source.{failure_reason}

-- How far the feed has been moved, and how many sources the run has.
record Feed : Type 0 where
  at : ℕ
  committed : ℕ

abbrev url_of : String → String
url_of shortcode = followed_by "https://www.instagram.com/reel/" (followed_by shortcode "/")

abbrev reel_at : ℕ → ReelCandidate
reel_at n =
    let shortcode = if ltb n 1 then "first" else "second" in
    record { shortcode = shortcode; canonical_url = url_of shortcode }

abbrev split_of : String → SplitUrl
split_of shortcode = record {
  scheme = "https";
  hostname = some "www.instagram.com";
  port = none;
  username = none;
  password = none;
  query = "";
  fragment = "";
  path = followed_by "/reel/" (followed_by shortcode "/");
}

-- It splits the URLs of the two Reels, as urllib does.
abbrev split_two : String → Option SplitUrl
split_two url =
    if url == url_of "first"
    then some (split_of "first")
    else if url == url_of "second"
    then some (split_of "second")
    else none

abbrev does : {A : Type 0} → (Feed → A) → (Feed → Feed) → Port Feed A
does f g w = (Outcome.returned (f w), g w)

abbrev says : {A : Type 0} → A → Port Feed A
says a w = (Outcome.returned a, w)

-- A database that takes as many sources as `room`, and refuses the next.
abbrev ports_with : ℕ → Ports Feed
ports_with room = record {
  create_run = λ account trigger target. says 7;
  cancellation_requested = none;
  account_has_durable_reel = λ account shortcode. says false;
  reel_status = λ shortcode. says none;
  commit_available = λ run candidate. says tt;
  commit_source = λ run candidate source key w.
      if ltb w.committed room
      then (Outcome.returned tt, record w { committed = w.committed + 1 })
      else (Outcome.raised (Exn.failure none), w);
  record_failure = λ run candidate reason attempted. says tt;
  fail_run = λ run reason. says tt;
  cancel_run = λ run reason. says CancelRunOutcome.cancelled;
  complete_run = λ run. says tt;
  complete_if_account_durable_total = λ run total. says true;
  summary = λ run.
      does
        (λ w. record {
          committed = w.committed;
          available = 0;
          failed = 0;
          status = CollectionRunStatus.running;
        })
        (λ w. w);
  current = does (λ w. reel_at w.at) (λ w. w);
  pause_current = says tt;
  advance = does (λ w. tt) (λ w. record w { at = w.at + 1 });
  wait_for_next = λ shortcode deadline. does (λ w. some (reel_at w.at)) (λ w. w);
  wait_for_next_plain = λ shortcode. says none;
  next_from_authenticated_feed = none;
  next_from_authenticated_feed_plain = λ shortcode. says none;
  close = says tt;
  download = λ candidate path. says tt;
  validate = λ path. says (record { sha256 = "00"; byte_size = 900 });
  temporary_path = λ shortcode. says shortcode;
  publish = λ path key. says (record { object_key = key; created_by_attempt = true });
  delete = λ key. says tt;
  cleanup_temporary = λ path. says tt;
  record_event = λ position event. says tt;
  record_plain = λ event. says tt;
  clock = says 0;
  sleep = λ seconds. says tt;
}

abbrev two_reels : Request
two_reels = record {
  account_id = 1;
  trigger = CollectionTrigger.manual;
  target_count = 2;
  desired_account_total = none;
  claimed_run_id = none;
}

abbrev unmoved : Feed
unmoved = record { at = 0; committed = 0 }

abbrev outcome_with : ℕ → Outcome Exn (Option CollectorSummary) × Running Feed
outcome_with room = collect (ports_with room) default_limits split_two 11 two_reels (start unmoved)

abbrev first_key : String
first_key = "instagram-sources/first.mp4"

abbrev second_key : String
second_key = "instagram-sources/second.mp4"

abbrev newly : String → PublishedSource
newly key = record { object_key = key; created_by_attempt = true }

log_with_room :
    (outcome_with 2).1.log
    ≡ Call.closed
      ∷ Call.completed
      ∷ Call.committed second_key
      ∷ Call.published (newly second_key)
      ∷ Call.advanced
      ∷ Call.committed first_key
      ∷ Call.published (newly first_key)
      ∷ []
unfolding collect ◌>>=◌ pure finally try_except followed_by
log_with_room = refl

log_without_room :
    (outcome_with 1).1.log
    ≡ Call.closed
      ∷ Call.run_failed "DATABASE_WRITE_FAILED"
      ∷ Call.deleted second_key
      ∷ Call.published (newly second_key)
      ∷ Call.advanced
      ∷ Call.committed first_key
      ∷ Call.published (newly first_key)
      ∷ []
unfolding collect ◌>>=◌ pure finally try_except followed_by failure_reason
log_without_room = refl

collect-no_orphans_example : orphans (outcome_with 1).1.log ≡ []
collect-no_orphans_example =
    collect-no_orphans (ports_with 1) default_limits split_two 11 two_reels unmoved (omega arith)

abbrev both_summed : CollectorSummary
both_summed = record {
  run_id = some 7;
  status = CollectionRunStatus.completed;
  target_count = 2;
  source_committed_count = 2;
  already_available_count = 0;
  failed_count = 0;
  confirmed_advances = 1;
  stop_reason_code = none;
  observations = 2;
  duplicate_skipped_count = 0;
}

returned_with_room : outcome_with 2 ≡ (Outcome.returned (some both_summed), (outcome_with 2).1)
unfolding collect ◌>>=◌ pure finally try_except followed_by
returned_with_room = refl

collect-IsBounded_example : IsBounded default_limits (λ k. k ≤ 10) (outcome_with 2).1.locals
collect-IsBounded_example =
    collect-IsBounded (ports_with 2) default_limits split_two 11 two_reels unmoved
      (some both_summed) (outcome_with 2).1 (omega arith) returned_with_room

collect-terminates_example : some both_summed ≢ none
collect-terminates_example =
    collect-terminates (ports_with 2) default_limits split_two 11 two_reels unmoved
      (some both_summed) (outcome_with 2).1 (omega arith) returned_with_room

collect-verdict_example : newest_verdict (outcome_with 2).1.log ≡ some CollectionRunStatus.completed
collect-verdict_example =
    collect-verdict (ports_with 2) default_limits split_two 11 two_reels unmoved both_summed
      (outcome_with 2).1 returned_with_room
