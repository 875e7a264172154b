-- ===== src/Management/Tables.antt =====
-- The control tables of apps/api/app/db/models/instagram.py, `_cleanup_expired_locked` of
-- apps/api/app/api/management.py, and `with sessions.begin()`. `D` is the rest of the database and
-- `V` are the values of a JSON object.
use offline_reels.Base.{
  ℕ, ◌+◌, Bool, true, false, ◌&&◌, not, Option, none, some, String, List, leb, ◌==◌, nat_eq,
}
use offline_reels.Base.Rows.{keep_where, first_where}
use offline_reels.Action.{Action, Outcome}

-- ManagementError with its status and its code, IntegrityError, and any other exception.
pub data Failure : Type 0 where
  management_error : ℕ → String → Failure
  integrity_error other_error : Failure

pub record Challenge : Type 0 where
  pub id : ℕ
  pub account_id : ℕ
  pub secret_hash : String
  pub expires_at : ℕ
  pub consumed_at : Option ℕ

pub record Device : Type 0 where
  pub id : ℕ
  pub account_id : ℕ
  pub device_id : ℕ
  pub session_token_hash : String
  pub csrf_token_hash : String
  pub expires_at : ℕ
  pub revoked_at : Option ℕ

-- A JSON object as the list of its fields.
abbrev pub Fields : Type 0 → Type 0
Fields V = List (String × V)

-- `response` is the object that response_json encodes.
pub record Saved (V : Type 0) : Type 0 where
  pub session_id : ℕ
  pub operation : String
  pub key_hash : String
  pub request_fingerprint : String
  pub response_status : ℕ
  pub response : Fields V
  pub expires_at : ℕ

pub record Window : Type 0 where
  pub scope_hash : String
  pub window_started_at : ℕ
  pub request_count : ℕ

pub record Control (D V : Type 0) : Type 0 where
  pub challenges : List Challenge
  pub devices : List Device
  pub saved : List (Saved V)
  pub windows : List Window
  pub rest : D

abbrev pub is_expired : ℕ → ℕ → Bool
is_expired value now = leb value now

abbrev pub minute : ℕ
minute = 60000000

-- Has the session of a record expired? Its records are deleted with it.
unfoldable pub session_expired : List Device → ℕ → ℕ → Bool
unfolding first_where
session_expired devices now session_id =
    elim (first_where (λ d. d.id == session_id && is_expired d.expires_at now) devices) [
      | none ↦ false
      | some d ↦ true
    ]

unfoldable pub cleanup_expired : {D V : Type 0} → ℕ → Control D V → Control D V
unfolding keep_where session_expired
cleanup_expired now s = record s {
  saved =
      keep_where
        (λ r. not (is_expired r.expires_at now) && not (session_expired s.devices now r.session_id))
        s.saved;
  challenges = keep_where (λ c. not (is_expired c.expires_at now)) s.challenges;
  devices = keep_where (λ d. not (is_expired d.expires_at now)) s.devices;
  windows = keep_where (λ w. not (leb (w.window_started_at + minute) now)) s.windows;
}

module _ {S E A : Type 0} where
  -- An exception rolls back what the block has written.
  abbrev pub ended : S → Outcome E A × S → Outcome E A × S
  ended s (Outcome.returned a, s') = (Outcome.returned a, s')
  ended s (Outcome.raised e, s') = (Outcome.raised e, s)

  unfoldable pub begin : Action S E A → Action S E A
  begin m s = ended s (m s)
