-- ===== src/Login/Sessions.antt =====
-- apps/api/app/instagram/login_sessions.py: class LoginSessionService. The clock, the new UUID and
-- the new token are arguments, and `hash_launch_token` (SHA-256) is a parameter; one transaction
-- reads the clock once.
use offline_reels.Base.{
  List, [], ◌∷◌, ℕ, String, Option, some, none, Bool, true, false, ◌&&◌, ◌||◌, ◌==◌, leb, ltb,
  if◌then◌else◌, ◌+◌, nat_eq, string_eq,
}
use offline_reels.Base.Table.{find}
use offline_reels.Domain.Statuses.{AccountStatus, LoginSessionStatus, account_eq, login_eq}
use offline_reels.Domain.Reasons.{ReasonCode, reason_value}
use offline_reels.Domain.Transitions.{require_transition, account_transitions}
use offline_reels.Pipeline.Schema.{Account, LoginSession, Db, account_key, login_key}
use offline_reels.Pipeline.Transaction.{
  Result, ok, err, Tx, pure, raise, ◌>>=◌, ◌>>◌, gets, save_account, save_login, add_account,
  add_login, is_live, login_session_error, assertion_error, integrity_error,
}
use offline_reels.Pipeline.Persistence.{checked}

-- timedelta(minutes=15), in microseconds
abbrev pub default_login_ttl : ℕ
default_login_ttl = 900000000

pub record CreatedLoginSession : Type 0 where
  pub session_id : ℕ
  pub account_id : ℕ
  pub expires_at : ℕ
  pub launch_token : String

abbrev pub restored : AccountStatus → Option String → Account → Account
restored status reason account = record account { status = status; reason_code = reason }

unfoldable pub restore_account : LoginSession → Tx (Unit {0})
unfolding save_account require_transition account_transitions
restore_account item = do
  found ← gets (λ db. find account_key item.account_id db.accounts)
  elim found [
    | none ↦ raise assertion_error
    | some account ↦ do
      if account.status == item.prior_account_status
          then pure tt
          else checked
              (require_transition account_transitions account.status item.prior_account_status)
      save_account (restored item.prior_account_status item.reason_code account)
  ]

abbrev pub closed : LoginSessionStatus → ReasonCode → ℕ → LoginSession → LoginSession
closed status reason now item = record item {
  status = status;
  reason_code = some (reason_value reason);
  closed_at = some now;
}

-- `_expire_locked`, with the row as it is afterwards.
unfoldable pub expire_locked : ℕ → LoginSession → Tx LoginSession
unfolding save_login restore_account reason_value
expire_locked now item =
    if is_live item && leb item.expires_at now
    then (do
      let expired = closed LoginSessionStatus.expired ReasonCode.login_expired now item
      save_login expired
      restore_account expired
      pure expired)
    else pure item

-- The loop over the active sessions: is any of them active still?
unfoldable pub expire_all : ℕ → List LoginSession → Tx Bool
unfolding expire_locked
expire_all now [] = pure false
expire_all now (item ∷ items) = do
  item' ← expire_locked now item
  rest ← expire_all now items
  pure (is_live item' || rest)

unfoldable pub active_sessions : ℕ → List LoginSession → List LoginSession
active_sessions account [] = []
active_sessions account (s ∷ ss) =
    let rest = active_sessions account ss in
    if s.account_id == account && is_live s then s ∷ rest else rest

abbrev can_start : Bool → AccountStatus → Bool
can_start allow_connected AccountStatus.disconnected = true
can_start allow_connected AccountStatus.reauth_required = true
can_start allow_connected AccountStatus.connected = allow_connected
can_start allow_connected _ = false

abbrev new_account : ℕ → Account
new_account account = record {
  id = account;
  status = AccountStatus.disconnected;
  last_connected_at = none;
  reauth_required_at = none;
  reason_code = none;
}

unfoldable pub account_or_new : ℕ → Tx Account
unfolding add_account
account_or_new account_id = do
  found ← gets (λ db. find account_key account_id db.accounts)
  elim found [
    | none ↦ do add_account (new_account account_id); pure (new_account account_id)
    | some account ↦ pure account
  ]

-- The part of `create_in_transaction` that moves the account to `connecting`.
unfoldable pub start_connecting : Account → Tx (Unit {0})
unfolding save_account require_transition account_transitions
start_connecting account = if account.status == AccountStatus.connected then pure tt else do
  checked (require_transition account_transitions account.status AccountStatus.connecting)
  save_account (record account { status = AccountStatus.connecting })

abbrev pub activated : ℕ → LoginSession → LoginSession
activated now item = record item {
  status = LoginSessionStatus.active;
  consumed_at = some now;
  claimed_at = some now;
}

-- `activate` after the expiry.
unfoldable pub activate_pending : ℕ → LoginSession → Tx LoginSessionStatus
unfolding save_login
activate_pending now item =
    if item.status == LoginSessionStatus.pending
    then (do save_login (activated now item); pure LoginSessionStatus.active)
    else raise login_session_error

module _ (hash_launch_token : String → String) where
  abbrev pub new_session : ℕ → ℕ → AccountStatus → String → ℕ → LoginSession
  new_session session_id account_id prior token expires_at = record {
    id = session_id;
    account_id = account_id;
    status = LoginSessionStatus.pending;
    prior_account_status = prior;
    launch_token_hash = hash_launch_token token;
    reason_code = none;
    expires_at = expires_at;
    consumed_at = none;
    claimed_at = none;
    closed_at = none;
  }

  unfoldable pub create_in_transaction : ℕ → ℕ → Bool → String → ℕ → ℕ → Tx CreatedLoginSession
  unfolding expire_all active_sessions account_or_new start_connecting add_login
  create_in_transaction account_id ttl allow_connected token session_id now =
      if leb ttl 0 || ltb default_login_ttl ttl then raise login_session_error else do
        items ← gets (λ db. active_sessions account_id db.login_sessions)
        still_active ← expire_all now items
        if still_active then raise login_session_error else pure tt
        account ← account_or_new account_id
        if can_start allow_connected account.status then pure tt else raise login_session_error
        start_connecting account
        add_login (new_session session_id account_id account.status token (now + ttl))
        pure (record {
          session_id = session_id;
          account_id = account_id;
          expires_at = now + ttl;
          launch_token = token;
        })

  abbrev safe_error : {A : Type 0} → Result A → Result A
  safe_error (ok a) = ok a
  safe_error (err integrity_error) = err login_session_error
  safe_error (err e) = err e

  unfoldable pub create : ℕ → ℕ → Bool → String → ℕ → ℕ → Tx CreatedLoginSession
  unfolding create_in_transaction
  create account_id ttl allow_connected token session_id now db =
      safe_error (create_in_transaction account_id ttl allow_connected token session_id now db)

  unfoldable pub activate : ℕ → String → ℕ → Tx LoginSessionStatus
  unfolding expire_locked activate_pending
  activate session_id token now = do
    found ← gets (λ db. find login_key session_id db.login_sessions)
    elim found [
      | none ↦ raise login_session_error
      | some item ↦
          if item.launch_token_hash == hash_launch_token token
          then (do item' ← expire_locked now item; activate_pending now item')
          else raise login_session_error
    ]

unfoldable pub status : ℕ → ℕ → Tx (Option LoginSessionStatus)
unfolding expire_locked
status session_id now = do
  found ← gets (λ db. find login_key session_id db.login_sessions)
  elim found [
    | none ↦ pure none
    | some item ↦ do item' ← expire_locked now item; pure (some item'.status)
  ]

unfoldable pub is_profile_check : ℕ → Db → Bool
is_profile_check session_id db = elim (find login_key session_id db.login_sessions) [
  | none ↦ false
  | some item ↦ item.prior_account_status == AccountStatus.connected
]

-- `cancel_in_transaction` after the expiry.
unfoldable pub cancel_live : ℕ → LoginSession → Tx LoginSessionStatus
unfolding save_login restore_account reason_value
cancel_live now item =
    if is_live item
    then (do
      let item' = closed LoginSessionStatus.cancelled ReasonCode.login_cancelled now item
      save_login item'
      restore_account item'
      pure LoginSessionStatus.cancelled)
    else pure item.status

unfoldable pub cancel_in_transaction : ℕ → ℕ → Tx LoginSessionStatus
unfolding expire_locked cancel_live
cancel_in_transaction session_id now = do
  found ← gets (λ db. find login_key session_id db.login_sessions)
  elim found [
    | none ↦ raise login_session_error
    | some item ↦ do item' ← expire_locked now item; cancel_live now item'
  ]

abbrev connected_account : ℕ → Account → Account
connected_account now account = record account {
  status = AccountStatus.connected;
  reason_code = none;
  last_connected_at = some now;
}

abbrev completed_session : ℕ → LoginSession → LoginSession
completed_session now item = record item {
  status = LoginSessionStatus.completed;
  closed_at = some now;
}

-- `complete` after the expiry.
unfoldable pub complete_active : ℕ → LoginSession → Tx LoginSessionStatus
unfolding save_login save_account require_transition account_transitions
complete_active now item =
    if item.status == LoginSessionStatus.active
    then (do
      found ← gets (λ db. find account_key item.account_id db.accounts)
      elim found [
        | none ↦ raise assertion_error
        | some account ↦ do
          if account.status == AccountStatus.connected
              then pure tt
              else checked
                  (require_transition account_transitions account.status AccountStatus.connected)
          save_account (connected_account now account)
          save_login (completed_session now item)
          pure LoginSessionStatus.completed
      ])
    else pure item.status

unfoldable pub complete : ℕ → ℕ → Tx LoginSessionStatus
unfolding expire_locked complete_active
complete session_id now = do
  found ← gets (λ db. find login_key session_id db.login_sessions)
  elim found [
    | none ↦ raise login_session_error
    | some item ↦ do item' ← expire_locked now item; complete_active now item'
  ]
