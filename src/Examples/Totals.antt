-- ===== src/Examples/Totals.antt =====
-- An account that owns one of two Reels, and a run of it that asks for one.
use offline_reels.Base.{refl, ◌≡◌, none, some, false, [], ◌∷◌, ℕ, count_if, String}
use offline_reels.Base.Table.{find}
use offline_reels.Domain.Statuses.{
  CollectionRunStatus, CollectionTrigger, ReelPipelineStatus, RunItemOutcome,
}
use offline_reels.Pipeline.Schema.{Db, Run, Reel, Item, run_key}
use offline_reels.Pipeline.Accounts.{account_durable_count, account_has_durable_reel, any_row}
use offline_reels.Pipeline.Accounts.Ownership.{HasOwnShortcodes}
use offline_reels.Pipeline.Accounts.Completion.{Decides, complete_if_account_durable_total-decides}

abbrev run : Run
run = record {
  id = 1;
  account_id = 7;
  trigger = CollectionTrigger.manual;
  status = CollectionRunStatus.running;
  target_count = 2;
  source_committed_count = 0;
  already_available_count = 1;
  failed_count = 1;
  stop_reason_code = none;
  started_at = some 10;
  completed_at = none;
  cancel_requested_at = none;
  created_at = 5;
}

abbrev reel_of : ℕ → String → Reel
reel_of id shortcode = record {
  id = id;
  shortcode = shortcode;
  canonical_url = "";
  pipeline_status = ReelPipelineStatus.source_ready;
  source_object_key = some "source";
  source_sha256 = some "00";
  source_byte_size = some 900;
  video_id = none;
  failure_reason_code = none;
  discovered_at = some 3;
  source_ready_at = some 4;
  ready_at = none;
  failed_at = none;
  source_cleanup_pending = false;
}

abbrev item_of : ℕ → ℕ → RunItemOutcome → Item
item_of reel_id position outcome = record {
  run_id = 1;
  reel_id = reel_id;
  position = position;
  outcome = outcome;
  download_auth_mode = none;
  reason_code = none;
  completed_at = some 20;
}

abbrev db : Db
db = record {
  reels = reel_of 2 "DAbc123" ∷ reel_of 3 "DAbc124" ∷ [];
  jobs = [];
  runs = run ∷ [];
  items = item_of 2 1 RunItemOutcome.already_available ∷ item_of 3 2 RunItemOutcome.failed ∷ [];
  videos = [];
  accounts = [];
  login_sessions = [];
}

-- The Reel that the run failed to get is not owned.
owns_one : account_durable_count 7 db ≡ 1
unfolding account_durable_count count_if any_row
owns_one = refl

owns_not : account_has_durable_reel 7 "DAbc124" db ≡ false
unfolding account_has_durable_reel any_row
owns_not = refl

own : HasOwnShortcodes db.reels
unfolding any_row
own = (refl, (refl, tt))

there : find run_key 1 db.runs ≡ some run
unfolding find
there = refl

complete_if_account_durable_total-decides_example : Decides 1 1 500 run db own there refl
complete_if_account_durable_total-decides_example =
    complete_if_account_durable_total-decides 1 1 500 run db own there refl
