-- ===== src/Pipeline/Accounts/Policy.antt =====
-- The status of an account changes by the policy.
use offline_reels.Base.{
  ℕ, ◌≡◌, refl, false, Option, some, String, ◌==◌, arith, inl, inr, ◌⊎◌, if◌then◌else◌, ◌∙◌,
  Bool-cases, ◌≢◌,
}
use offline_reels.Base.Table.{find, put, find-put, key-find}
use offline_reels.Domain.Statuses.{AccountStatus, account_eq}
use offline_reels.Domain.Paths.{AccountStep}
use offline_reels.Domain.Transitions.{Transition, require_transition, account_transitions}
use offline_reels.Pipeline.Schema.{Db, Account, account_key}
use offline_reels.Pipeline.Transaction.{ok, err, save_account, Error}
use offline_reels.Pipeline.Accounts.{set_account_status, change_status, with_status}

-- A change that the policy of accounts allows, or none.
abbrev pub MayBecome : AccountStatus → AccountStatus → Type 0
MayBecome s t = (s ≡ t) ⊎ AccountStep s t

-- The account has this status and reason, the time where it has connected or has to sign in again,
-- and all else as before.
pub record HasStatus (status : AccountStatus) (reason : Option String) (now : ℕ)
    (account account' : Account) : Type 0 where
  pub same_id : account'.id ≡ account.id
  pub new_status : account'.status ≡ status
  pub new_reason : account'.reason_code ≡ reason
  pub connected_at :
      account'.last_connected_at
      ≡ (if status == AccountStatus.connected then some now else account.last_connected_at)
  pub reauth_at :
      account'.reauth_required_at
      ≡ (if status == AccountStatus.reauth_required then some now else account.reauth_required_at)

-- The tables after the change: one row is new, and nothing else.
pub record IsChanged (account_id : ℕ) (status : AccountStatus) (reason : Option String) (now : ℕ)
    (account : Account) (db db' : Db) : Type 0 where
  pub account' : Account
  pub written : find account_key account_id db'.accounts ≡ some account'
  pub row : HasStatus status reason now account account'
  pub others :
      (k : ℕ) → k ≢ account_id → find account_key k db'.accounts ≡ find account_key k db.accounts
  pub rest : db' ≡ record db { accounts = db'.accounts }

with_status-HasStatus :
    (status : AccountStatus) (reason : Option String) (now : ℕ) (account : Account)
    → HasStatus status reason now account (with_status status reason now account)
with_status-HasStatus AccountStatus.disconnected reason now account = record {
  same_id = refl;
  new_status = refl;
  new_reason = refl;
  connected_at = refl;
  reauth_at = refl;
}
with_status-HasStatus AccountStatus.connecting reason now account = record {
  same_id = refl;
  new_status = refl;
  new_reason = refl;
  connected_at = refl;
  reauth_at = refl;
}
with_status-HasStatus AccountStatus.connected reason now account = record {
  same_id = refl;
  new_status = refl;
  new_reason = refl;
  connected_at = refl;
  reauth_at = refl;
}
with_status-HasStatus AccountStatus.reauth_required reason now account = record {
  same_id = refl;
  new_status = refl;
  new_reason = refl;
  connected_at = refl;
  reauth_at = refl;
}
with_status-HasStatus AccountStatus.temporarily_limited reason now account = record {
  same_id = refl;
  new_status = refl;
  new_reason = refl;
  connected_at = refl;
  reauth_at = refl;
}

module _ (account_id : ℕ) (status : AccountStatus) (reason : Option String) (now : ℕ)
    (account : Account) (db : Db)
    (there : find account_key account_id db.accounts ≡ some account) where
  abbrev after : Db
  after = record db {
    accounts = put account_key (with_status status reason now account) db.accounts;
  }

  key : account_key (with_status status reason now account) ≡ account_id
  key =
      (with_status-HasStatus status reason now account).same_id
      ∙ key-find account_key account_id db.accounts account there

  after-IsChanged : IsChanged account_id status reason now account db after
  after-IsChanged = record {
    account' = with_status status reason now account;
    written = ground (
      arith,
      key,
      there,
      find-put account_key (with_status status reason now account) account_id db.accounts,
    );
    row = with_status-HasStatus status reason now account;
    others = λ k h.
        ground (
          arith,
          key,
          h,
          find-put account_key (with_status status reason now account) k db.accounts,
        );
    rest = refl;
  }

  -- What the call does: it changes the row, or raises.
  abbrev pub Follows : Type 0
  Follows =
      (MayBecome account.status status
        × (db' : Db) × ((set_account_status account_id status reason now db ≡ ok (tt, db'))
            × IsChanged account_id status reason now account db db'))
      ⊎ ((¬ MayBecome account.status status)
          × (set_account_status account_id status reason now db
              ≡ err Error.invalid_state_transition))

  -- Setting the status of a known account either is a change to the status that it has or to one
  -- that the policy of accounts allows, and returns with that account's row and nothing else changed:
  -- it has the status and the reason, the time as that of the connection or of the need to sign in
  -- again where the status says so, and all else as before. Or it is no such change, and the call
  -- raises InvalidStateTransition.
  pub set_account_status-follows : Follows
  unfolding set_account_status change_status save_account
  set_account_status-follows = elim (Bool-cases (account.status == status)) [
    | inl e ↦ inl (
      inl (ground (arith, account_eq.equal_iff account.status status)),
      after,
      (ground (arith, there, e), after-IsChanged),
    )
    | inr e ↦ by_policy e (require_transition account_transitions account.status status) refl
  ]
    where
      by_policy :
          (account.status == status) ≡ false
          → (t : Transition) → require_transition account_transitions account.status status ≡ t
          → Follows
      by_policy e Transition.accepted h =
          inl (inr h, after, (ground (arith, there, e, h), after-IsChanged))
      by_policy e Transition.invalid_state_transition h = inr (
        λ m. elim m [
          | inl s ↦ ground (arith, account_eq.equal_iff account.status status)
          | inr s ↦ ground arith
        ],
        ground (arith, there, e, h),
      )
