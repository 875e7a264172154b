-- ===== src/Login/SingleUse.antt =====
-- A launch token opens its session once.
use offline_reels.Base.{refl, subst, ℕ, String, ◌≡◌, some, arith, Option-cases, inl, inr, ◌⊎◌, sym}
use offline_reels.Base.Table.{find, find-put, key-find}
use offline_reels.Domain.Statuses.{LoginSessionStatus, login_eq}
use offline_reels.Pipeline.Schema.{LoginSession, Db, login_key}
use offline_reels.Pipeline.Transaction.{Result, ok, err, save_login, Error}
use offline_reels.Login.Sessions.{activate, expire_locked, activate_pending, activated}

expire_locked-pending :
    (now : ℕ) (item item' : LoginSession) (db db' : Db)
    → expire_locked now item db ≡ ok (item', db')
    → item'.status ≡ LoginSessionStatus.pending
    → (item' ≡ item) × (db' ≡ db)
unfolding expire_locked
expire_locked-pending now item item' db db' h k = ground arith

save_login-find :
    (item item' : LoginSession) (db db' : Db) (u : Unit {0})
    → find login_key item.id db.login_sessions ≡ some item
    → item'.id ≡ item.id
    → save_login item' db ≡ ok (u, db')
    → find login_key item.id db'.login_sessions ≡ some item'
unfolding save_login
save_login-find item item' db db' u h k e =
    ground (arith, find-put login_key item' item.id db.login_sessions)

-- A block ends in an exception or returns.
pub Result-cases :
    {A : Type 0} (r : Result A) → ((e : Error) × (r ≡ err e)) ⊎ ((a : A) × (r ≡ ok a))
Result-cases (ok a) = inr (a, refl)
Result-cases (err e) = inl (e, refl)

activate_pending-active :
    (now : ℕ) (item : LoginSession) (db db' : Db) (status : LoginSessionStatus)
    → find login_key item.id db.login_sessions ≡ some item
    → activate_pending now item db ≡ ok (status, db')
    → find login_key item.id db'.login_sessions ≡ some (activated now item)
unfolding activate_pending save_login
activate_pending-active now item db db' status found h =
    ground (arith, find-put login_key (activated now item) item.id db.login_sessions)

activate_pending-pending :
    (now : ℕ) (item : LoginSession) (db db' : Db) (status : LoginSessionStatus)
    → activate_pending now item db ≡ ok (status, db')
    → item.status ≡ LoginSessionStatus.pending
unfolding activate_pending
activate_pending-pending now item db db' status h = ground arith

module _ (hash : String → String) (session_id : ℕ) where
  -- A session that an activation returns for was pending and in the table.
  record IsOpened (now : ℕ) (db db' : Db) (status : LoginSessionStatus) : Type 0 where
    item : LoginSession
    found : find login_key session_id db.login_sessions ≡ some item
    pending : item.status ≡ LoginSessionStatus.pending
    written : activate_pending now item db ≡ ok (status, db')

  activate-IsOpened :
      (token : String) (now : ℕ) (db db' : Db) (status : LoginSessionStatus)
      → activate hash session_id token now db ≡ ok (status, db')
      → IsOpened now db db' status
  unfolding activate
  activate-IsOpened token now db db' status h =
      elim (Option-cases (find login_key session_id db.login_sessions)) [
        | inl f ↦ absurd (ground arith)
        | inr (item, f) ↦ elim (Result-cases (expire_locked now item db)) [
          | inl (e, p) ↦ absurd (ground arith)
          | inr ((item', db1), p) ↦
              let w : activate_pending now item' db1 ≡ ok (status, db') = ground arith in
              let pend = activate_pending-pending now item' db1 db' status w in
              let (same, kept) = expire_locked-pending now item item' db db1 p pend in
              record {
                item = item;
                found = f;
                pending = subst (λ q. q.status ≡ LoginSessionStatus.pending) same pend;
                written =
                    subst (λ d. activate_pending now item d ≡ ok (status, db')) kept
                      (subst (λ q. activate_pending now q db1 ≡ ok (status, db')) same w);
              }
        ]
      ]

  -- A launch link opens its session once: after an activation that returns, no activation of the
  -- same session returns, whatever the token and the time.
  pub activate-once :
      (token token' : String) (now later : ℕ) (db db' db'' : Db)
      (status status' : LoginSessionStatus)
      → activate hash session_id token now db ≡ ok (status, db')
      → ¬ (activate hash session_id token' later db' ≡ ok (status', db''))
  activate-once token token' now later db db' db'' status status' h k =
      let first = activate-IsOpened token now db db' status h in
      let second = activate-IsOpened token' later db' db'' status' k in
      let is_id : first.item.id ≡ session_id =
        key-find login_key session_id db.login_sessions first.item first.found in
      let there =
        activate_pending-active now first.item db db' status
          (subst (λ i. find login_key i db.login_sessions ≡ some first.item) (sym is_id)
            first.found)
          first.written in
      ground (arith, is_id, there, second.found, second.pending)
