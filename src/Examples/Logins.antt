-- ===== src/Examples/Logins.antt =====
-- A login session of an account that must sign in again.
use offline_reels.Base.{refl, ◌≡◌, none, ◌∷◌, [], String, false, some, true, inr}
use offline_reels.Base.Table.{find, put}
use offline_reels.Domain.Statuses.{AccountStatus, LoginSessionStatus}
use offline_reels.Pipeline.Schema.{Db, LoginSession, Account, login_key, account_key}
use offline_reels.Pipeline.Transaction.{ok, committed, login_admitted, logins_clash}
use offline_reels.Login.Sessions.{create, activate, cancel_in_transaction, new_session}
use offline_reels.Login.SingleUse.{activate-once}
use offline_reels.Domain.Transitions.{require_transition, account_transitions}
use offline_reels.Login.Restoring.{IsEnded, cancel-restores}
use offline_reels.Domain.Paths.{AccountStep}
use offline_reels.Domain.Reasons.{ReasonCode}
use offline_reels.Pipeline.Accounts.Policy.{Follows, set_account_status-follows}

-- A token, and a hash that keeps it.
abbrev token : String
token = "TOKENTOKENTOKENTOKENTOKENTOKENTOKENTOKENTOKENTOKENTOKENTOKENTOKE"

abbrev hash : String → String
hash t = t

abbrev before_login : Db
before_login = record {
  reels = [];
  jobs = [];
  runs = [];
  items = [];
  videos = [];
  accounts =
      record {
        id = 7;
        status = AccountStatus.reauth_required;
        last_connected_at = none;
        reauth_required_at = none;
        reason_code = none;
      }
      ∷ [];
  login_sessions = [];
}

unfoldable created : Db
unfolding create
created = committed before_login (create hash 7 600 false token 5 100 before_login)

unfoldable opened : Db
unfolding activate created
opened = committed created (activate hash 5 token 200 created)

created-opened : activate hash 5 token 200 created ≡ ok (LoginSessionStatus.active, opened)
unfolding opened created activate find login_admitted
created-opened = refl

activate-once_example :
    ¬ (activate hash 5 token 300 opened ≡ ok (LoginSessionStatus.active, opened))
activate-once_example =
    activate-once hash 5 token token 200 300 created opened opened LoginSessionStatus.active
      LoginSessionStatus.active created-opened

abbrev session : LoginSession
session = new_session hash 5 7 AccountStatus.reauth_required token 700

abbrev connecting_account : Account
connecting_account = record {
  id = 7;
  status = AccountStatus.connecting;
  last_connected_at = none;
  reauth_required_at = none;
  reason_code = none;
}

created-session : find login_key 5 created.login_sessions ≡ some session
unfolding created find login_admitted
created-session = refl

created-account : find account_key 7 created.accounts ≡ some connecting_account
unfolding created find put login_admitted
created-account = refl

session-admitted : login_admitted session created.login_sessions ≡ true
unfolding created find login_admitted logins_clash
session-admitted = refl

may_return : AccountStep AccountStatus.connecting AccountStatus.reauth_required
unfolding require_transition account_transitions
may_return = refl

cancel-restores_example :
    (db' : Db) × ((cancel_in_transaction 5 300 created ≡ ok (LoginSessionStatus.cancelled, db'))
      × IsEnded session 5 300 (LoginSessionStatus.cancelled, ReasonCode.login_cancelled) db')
cancel-restores_example =
    cancel-restores session connecting_account created 300 created-account refl session-admitted
      (inr may_return) 5 created-session

abbrev signed_out : Account
signed_out = record {
  id = 7;
  status = AccountStatus.reauth_required;
  last_connected_at = none;
  reauth_required_at = none;
  reason_code = none;
}

before_login-account : find account_key 7 before_login.accounts ≡ some signed_out
unfolding find
before_login-account = refl

-- The account signs in again.
set_account_status-follows_example :
    Follows 7 AccountStatus.connecting none 9 signed_out before_login before_login-account
set_account_status-follows_example =
    set_account_status-follows 7 AccountStatus.connecting none 9 signed_out before_login
      before_login-account
