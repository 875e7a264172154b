-- ===== src/Login/Restoring.antt =====
-- What a login session that ends without a login leaves behind.
use mathlib.Core.Option
use offline_reels.Base.{
  refl, ℕ, Bool, true, false, ◌≡◌, ◌==◌, some, arith, Bool-cases, inl, inr, ◌⊎◌, List, [], ◌∷◌, ◌≤◌,
  count_if, leb, if◌then◌else◌, subst, ap, sym,
}
use offline_reels.Base.Table.{find, put, find-put, key-find}
use offline_reels.Domain.Statuses.{LoginSessionStatus, login_eq, account_eq}
use offline_reels.Domain.Reasons.{ReasonCode, reason_value}
use offline_reels.Domain.Paths.{AccountStep}
use offline_reels.Pipeline.Schema.{LoginSession, Account, Db, login_key, account_key}
use offline_reels.Pipeline.Transaction.{ok, save_login, is_live, login_admitted, logins_clash}
use offline_reels.Login.Sessions.{
  cancel_in_transaction, expire_locked, cancel_live, restore_account, restored, closed,
}

count_if_mono :
    {A : Type 0} (p q : A → Bool) (xs : List A)
    → ((x : A) → q x ≡ true → p x ≡ true)
    → count_if q xs ≤ count_if p xs
unfolding count_if
count_if_mono p q [] h = omega arith
count_if_mono p q (x ∷ xs) h = ground (arith, h x, count_if_mono p q xs h)

closed-clash :
    (status : LoginSessionStatus) (reason : ReasonCode) (now : ℕ) (item q : LoginSession)
    → is_live (closed status reason now item) ≡ false
    → logins_clash (closed status reason now item) q ≡ true
    → logins_clash item q ≡ true
unfolding logins_clash
closed-clash status reason now item q h k = ground arith

closed-admitted :
    (status : LoginSessionStatus) (reason : ReasonCode) (now : ℕ) (item : LoginSession)
    (sessions : List LoginSession)
    → is_live (closed status reason now item) ≡ false
    → login_admitted item sessions ≡ true
    → login_admitted (closed status reason now item) sessions ≡ true
unfolding login_admitted logins_clash
closed-admitted status reason now item sessions h k = ground (
  arith,
  count_if_mono (logins_clash item) (logins_clash (closed status reason now item)) sessions
      (λ q c. closed-clash status reason now item q h c),
)

restore_account-returns :
    (item : LoginSession) (account : Account) (db : Db)
    → find account_key item.account_id db.accounts ≡ some account
    → (account.status ≡ item.prior_account_status)
      ⊎ AccountStep account.status item.prior_account_status
    → restore_account item db
      ≡ ok (
        tt,
        record db {
          accounts =
              put account_key
                (restored item.prior_account_status item.reason_code account)
                db.accounts;
        },
      )
unfolding restore_account
restore_account-returns item account db h k = elim k [
  | inl e ↦ ground arith
  | inr e ↦ elim (Bool-cases (account.status == item.prior_account_status)) [
    | inl b ↦ ground arith
    | inr b ↦ ground arith
  ]
]

-- How cancelling a live session ends it: whether its time is over decides.
abbrev pub end_of : ℕ → LoginSession → LoginSessionStatus × ReasonCode
end_of now item =
    if leb item.expires_at now
    then (LoginSessionStatus.expired, ReasonCode.login_expired)
    else (LoginSessionStatus.cancelled, ReasonCode.login_cancelled)

-- The session has ended with this status and reason at this time, and its account has the status
-- from before it and the reason of the end.
pub record IsEnded (item : LoginSession) (session_id now : ℕ)
    (end : LoginSessionStatus × ReasonCode) (db' : Db) : Type 0 where
  pub ended_status :
      Option.map (λ s. s.status) (find login_key session_id db'.login_sessions) ≡ some end.0
  pub ended_reason :
      Option.map (λ s. s.reason_code) (find login_key session_id db'.login_sessions)
      ≡ some (some (reason_value end.1))
  pub ended_at :
      Option.map (λ s. s.closed_at) (find login_key session_id db'.login_sessions) ≡ some (some now)
  pub account_status :
      Option.map (λ a. a.status) (find account_key item.account_id db'.accounts)
      ≡ some item.prior_account_status
  pub account_reason :
      Option.map (λ a. a.reason_code) (find account_key item.account_id db'.accounts)
      ≡ some (some (reason_value end.1))

-- The database after a session has been closed and its account given back its status.
abbrev ended : LoginSession → Account → Db → Db
ended item account db = record db {
  login_sessions = put login_key item db.login_sessions;
  accounts =
      put account_key (restored item.prior_account_status item.reason_code account) db.accounts;
}

module _ (item : LoginSession) (account : Account) (db : Db) (now : ℕ)
    (there : find account_key item.account_id db.accounts ≡ some account)
    (live : is_live item ≡ true) (admitted : login_admitted item db.login_sessions ≡ true)
    (restorable : (account.status ≡ item.prior_account_status)
      ⊎ AccountStep account.status item.prior_account_status) where
  expire_locked-returns :
      (e : leb item.expires_at now ≡ true)
      → expire_locked now item db
        ≡ ok (
          closed LoginSessionStatus.expired ReasonCode.login_expired now item,
          ended (closed LoginSessionStatus.expired ReasonCode.login_expired now item) account db,
        )
  unfolding expire_locked save_login
  expire_locked-returns e =
      let c = closed LoginSessionStatus.expired ReasonCode.login_expired now item in
      ground (
        arith,
        live,
        e,
        closed-admitted LoginSessionStatus.expired ReasonCode.login_expired now item
            db.login_sessions refl admitted,
        restore_account-returns c account
            (record db { login_sessions = put login_key c db.login_sessions }) there restorable,
      )

  cancel_live-returns :
      cancel_live now item db
      ≡ ok (
        LoginSessionStatus.cancelled,
        ended (closed LoginSessionStatus.cancelled ReasonCode.login_cancelled now item) account db,
      )
  unfolding cancel_live save_login
  cancel_live-returns =
      let c = closed LoginSessionStatus.cancelled ReasonCode.login_cancelled now item in
      ground (
        arith,
        live,
        closed-admitted LoginSessionStatus.cancelled ReasonCode.login_cancelled now item
            db.login_sessions refl admitted,
        restore_account-returns c account
            (record db { login_sessions = put login_key c db.login_sessions }) there restorable,
      )

  ended-IsEnded :
      (session_id : ℕ) (status : LoginSessionStatus) (reason : ReasonCode)
      → find login_key session_id db.login_sessions ≡ some item
      → IsEnded item session_id now
          (status, reason)
          (ended (closed status reason now item) account db)
  ended-IsEnded session_id status reason found = record {
    ended_status = ap (Option.map (λ s. s.status)) row;
    ended_reason = ap (Option.map (λ s. s.reason_code)) row;
    ended_at = ap (Option.map (λ s. s.closed_at)) row;
    account_status = ap (Option.map (λ a. a.status)) owner;
    account_reason = ap (Option.map (λ a. a.reason_code)) owner;
  }
    where
      row :
          find login_key session_id
            (put login_key (closed status reason now item) db.login_sessions)
          ≡ some (closed status reason now item)
      row = ground (
        arith,
        find-put login_key (closed status reason now item) session_id db.login_sessions,
        key-find login_key session_id db.login_sessions item found,
        found,
      )

      owner :
          find account_key item.account_id (
            put account_key
              (restored item.prior_account_status (some (reason_value reason)) account)
              db.accounts)
          ≡ some (restored item.prior_account_status (some (reason_value reason)) account)
      owner = ground (
        arith,
        find-put account_key
            (restored item.prior_account_status (some (reason_value reason)) account)
            item.account_id db.accounts,
        key-find account_key item.account_id db.accounts account there,
        there,
      )

  -- Cancelling a session that is pending or active, in a row that obeys its table's constraints,
  -- returns where the account still is in the status from before the login or may change to it. The
  -- session then is expired if its time is over, and cancelled otherwise, with that reason and the
  -- time, which is the status that is returned; and the account has its status from before the
  -- login again, with the reason.
  pub cancel-restores :
      (session_id : ℕ)
      → find login_key session_id db.login_sessions ≡ some item
      → (db' : Db) × ((cancel_in_transaction session_id now db ≡ ok ((end_of now item).0, db'))
          × IsEnded item session_id now (end_of now item) db')
  unfolding cancel_in_transaction cancel_live expire_locked
  cancel-restores session_id found = elim (Bool-cases (leb item.expires_at now)) [
    | inl e ↦ (
      ended (closed LoginSessionStatus.expired ReasonCode.login_expired now item) account db,
      (
        ground (arith, found, expire_locked-returns e),
        subst
            (λ b.
              IsEnded item session_id now
                (if b
                  then (LoginSessionStatus.expired, ReasonCode.login_expired)
                  else (LoginSessionStatus.cancelled, ReasonCode.login_cancelled))
                (ended (closed LoginSessionStatus.expired ReasonCode.login_expired now item) account
                  db))
            (sym e)
            (ended-IsEnded session_id LoginSessionStatus.expired ReasonCode.login_expired found),
      ),
    )
    | inr e ↦ (
      ended (closed LoginSessionStatus.cancelled ReasonCode.login_cancelled now item) account db,
      (
        ground (arith, found, cancel_live-returns, live),
        subst
            (λ b.
              IsEnded item session_id now
                (if b
                  then (LoginSessionStatus.expired, ReasonCode.login_expired)
                  else (LoginSessionStatus.cancelled, ReasonCode.login_cancelled))
                (ended (closed LoginSessionStatus.cancelled ReasonCode.login_cancelled now item)
                  account db))
            (sym e)
            (ended-IsEnded session_id LoginSessionStatus.cancelled ReasonCode.login_cancelled
              found),
      ),
    )
  ]
