-- ===== src/Pipeline/Transaction.antt =====
-- `with sessions.begin() as session`: a block that commits its writes, or raises and leaves the
-- database as it was. The constraints of the tables raise `integrity_error`.
use offline_reels.Base.{
  string_eq, String, count_if, ℕ, Bool, true, false, ◌&&◌, ◌||◌, not, Option, none, some, List, ◌∷◌,
  ◌==◌, nat_eq, if◌then◌else◌, length, codes,
}
use offline_reels.Base.Table.{find, put}
use offline_reels.Domain.Statuses.{
  CollectionRunStatus, NormalizationJobStatus, job_eq, run_eq, LoginSessionStatus, login_eq,
}
use offline_reels.Pipeline.Schema.{
  Reel, Job, Run, Item, Db, reel_key, job_key, run_key, reel_checks, run_checks, LoginSession,
  Account, account_key, login_key,
}

-- The exceptions that the blocks raise. `value_error` stands for ValueError and `lookup_error`
-- for LookupError.
pub data Error : Type 0 where
  value_error lookup_error invalid_state_transition integrity_error runtime_error : Error
  worker_cancelled final_object_conflict login_session_error assertion_error : Error

pub data Result (A : Type 0) : Type 0 where
  ok : A → Result A
  err : Error → Result A

abbrev pub Tx : Type 0 → Type 0
Tx A = Db → Result (A × Db)

abbrev pub pure : {A : Type 0} → A → Tx A
pure a db = ok (a, db)

abbrev pub raise : {A : Type 0} → Error → Tx A
raise e db = err e

-- The rest of the block, unless an exception has ended it.
abbrev pub continue : {A B : Type 0} → Result (A × Db) → (A → Tx B) → Result (B × Db)
continue (ok (a, db)) f = f a db
continue (err e) f = err e

infixl 5 ◌>>=◌ ◌>>◌
abbrev pub ◌>>=◌ : {A B : Type 0} → Tx A → (A → Tx B) → Tx B
◌>>=◌ m f db = continue (m db) f

abbrev pub ◌>>◌ : {B : Type 0} → Tx (Unit {0}) → Tx B → Tx B
m >> k = m >>= λ _. k

abbrev pub gets : {A : Type 0} → (Db → A) → Tx A
gets f db = ok (f db, db)

-- What the session holds after the block: the new state, or the old one after a rollback.
abbrev pub committed : {A : Type 0} → Db → Result (A × Db) → Db
committed db (ok (a, db')) = db'
committed db (err e) = db

-- NULLs are distinct under a unique constraint.
same_text : Option String → Option String → Bool
same_text (some a) (some b) = a == b
same_text _ _ = false

same_id : Option ℕ → Option ℕ → Bool
same_id (some a) (some b) = a == b
same_id _ _ = false

-- The unique columns of instagram_reels.
reels_clash : Reel → Reel → Bool
unfolding same_text same_id
reels_clash r q =
    not (q.id == r.id)
    && (q.shortcode == r.shortcode
        || q.canonical_url == r.canonical_url
        || same_text q.source_object_key r.source_object_key
        || same_id q.video_id r.video_id)

unfoldable pub reel_admitted : Reel → List Reel → Bool
unfolding reels_clash count_if
reel_admitted r reels = reel_checks r && count_if (reels_clash r) reels == 0

abbrev active : Job → Bool
active j = j.status == NormalizationJobStatus.pending || j.status == NormalizationJobStatus.running

-- uq_instagram_normalization_jobs_active_reel
jobs_clash : Job → Job → Bool
jobs_clash j q = not (q.id == j.id) && (active j && active q) && q.reel_id == j.reel_id

unfoldable pub job_admitted : Job → List Job → Bool
unfolding jobs_clash count_if
job_admitted j jobs = count_if (jobs_clash j) jobs == 0

abbrev active_run : Run → Bool
active_run r = r.status == CollectionRunStatus.queued || r.status == CollectionRunStatus.running

-- uq_instagram_collection_runs_active_account and the checks on the counters
unfoldable pub runs_clash : Run → Run → Bool
runs_clash r q =
    not (q.id == r.id) && (active_run r && active_run q) && q.account_id == r.account_id

unfoldable pub run_admitted : Run → List Run → Bool
unfolding runs_clash count_if
run_admitted r runs = run_checks r && count_if (runs_clash r) runs == 0

-- uq_instagram_collection_run_items_run_position and uq_instagram_collection_run_items_run_reel
items_clash : Item → Item → Bool
items_clash i q = q.run_id == i.run_id && (q.position == i.position || q.reel_id == i.reel_id)

unfoldable pub item_admitted : Item → List Item → Bool
unfolding items_clash count_if
item_admitted i items = count_if (items_clash i) items == 0

-- The flush of a changed row.
unfoldable pub save_reel : Reel → Tx (Unit {0})
save_reel r db =
    if reel_admitted r db.reels
    then ok (tt, record db { reels = put reel_key r db.reels })
    else err integrity_error

unfoldable pub save_job : Job → Tx (Unit {0})
save_job j db =
    if job_admitted j db.jobs
    then ok (tt, record db { jobs = put job_key j db.jobs })
    else err integrity_error

unfoldable pub save_run : Run → Tx (Unit {0})
save_run r db =
    if run_admitted r db.runs
    then ok (tt, record db { runs = put run_key r db.runs })
    else err integrity_error

-- uq_instagram_login_sessions_active_account, and the unique token hash
abbrev pub is_live : LoginSession → Bool
is_live s = s.status == LoginSessionStatus.pending || s.status == LoginSessionStatus.active

unfoldable pub logins_clash : LoginSession → LoginSession → Bool
logins_clash s q =
    not (q.id == s.id)
    && ((is_live s && is_live q) && q.account_id == s.account_id
        || q.launch_token_hash == s.launch_token_hash)

unfoldable pub login_admitted : LoginSession → List LoginSession → Bool
unfolding logins_clash count_if
login_admitted s sessions =
    length (codes s.launch_token_hash) == 64 && count_if (logins_clash s) sessions == 0

unfoldable pub save_account : Account → Tx (Unit {0})
save_account a db = ok (tt, record db { accounts = put account_key a db.accounts })

unfoldable pub save_login : LoginSession → Tx (Unit {0})
save_login s db =
    if login_admitted s db.login_sessions
    then ok (tt, record db { login_sessions = put login_key s db.login_sessions })
    else err integrity_error

-- `session.add` of a new row: its primary key is new too.
abbrev pub is_new : {A : Type 0} → Option A → Bool
is_new none = true
is_new (some _) = false

unfoldable pub add_reel : Reel → Tx (Unit {0})
add_reel r db =
    if reel_admitted r db.reels && is_new (find reel_key r.id db.reels)
    then ok (tt, record db { reels = r ∷ db.reels })
    else err integrity_error

unfoldable pub add_job : Job → Tx (Unit {0})
add_job j db =
    if job_admitted j db.jobs && is_new (find job_key j.id db.jobs)
    then ok (tt, record db { jobs = j ∷ db.jobs })
    else err integrity_error

unfoldable pub add_run : Run → Tx (Unit {0})
add_run r db =
    if run_admitted r db.runs && is_new (find run_key r.id db.runs)
    then ok (tt, record db { runs = r ∷ db.runs })
    else err integrity_error

unfoldable pub add_item : Item → Tx (Unit {0})
add_item i db =
    if item_admitted i db.items
    then ok (tt, record db { items = i ∷ db.items })
    else err integrity_error

unfoldable pub add_account : Account → Tx (Unit {0})
add_account a db =
    if is_new (find account_key a.id db.accounts)
    then ok (tt, record db { accounts = a ∷ db.accounts })
    else err integrity_error

unfoldable pub add_login : LoginSession → Tx (Unit {0})
add_login s db =
    if login_admitted s db.login_sessions && is_new (find login_key s.id db.login_sessions)
    then ok (tt, record db { login_sessions = s ∷ db.login_sessions })
    else err integrity_error
