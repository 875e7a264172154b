-- ===== src/Management/Idempotency.antt =====
-- A request with an idempotency key is executed once, and answered again from the record.
use offline_reels.Base.{
  ℕ, ◌+◌, ◌<◌, ◌≡◌, refl, Bool, true, false, ◌&&◌, Option, none, some, String, List, ◌∷◌, ◌==◌,
  string_eq, nat_eq, if◌then◌else◌, arith, Bool-cases, inl, inr, ap, sym, ◌∙◌,
}
use offline_reels.Base.Rows.{first_where, first_where-keep_where, first_where-head}
use offline_reels.Action.{
  Action, Outcome, pure, raise, gets, modify, ◌>>=◌, go_on, try_except, handled,
}
use offline_reels.Management.Tables.{
  Control, Failure, Saved, Fields, cleanup_expired, begin, ended, session_expired,
}
use offline_reels.Management.RateLimits.{unless_integrity_error, is_integrity}
use offline_reels.Management.Replay.{
  Reply, idempotent, is_record, persisted, idempotency_ttl, reply, first_time, saved_reply,
  second_look, add_saved, conflict, is_key, looked, key_required, has_session,
}
use offline_reels.Management.Secrets.{returned-ended}

all_true : (a b c : Bool) → a ≡ true → b ≡ true → c ≡ true → (a && b && c) ≡ true
all_true a b c ha hb hc = ground arith

module _ {V : Type 0} (session_id : ℕ) (operation key_hash fingerprint : String) where
  -- The record of the reply `r` of the time `now`.
  abbrev record_of : ℕ → Reply V → Saved V
  record_of now r = record {
    session_id = session_id;
    operation = operation;
    key_hash = key_hash;
    request_fingerprint = fingerprint;
    response_status = r.status;
    response = persisted r.result;
    expires_at = now + idempotency_ttl;
  }

  record_of-is_record :
      (now : ℕ) (r : Reply V) → is_record session_id operation key_hash (record_of now r) ≡ true
  record_of-is_record now r =
      all_true _ _ _ ((nat_eq.equal_iff session_id session_id).1 refl)
        ((string_eq.equal_iff operation operation).1 refl)
        ((string_eq.equal_iff key_hash key_hash).1 refl)

module _ {D V : Type 0} (hash_secret : String → String) (session_id : ℕ)
    (operation key_hash fingerprint : String) where
  -- The record of the reply is in the table.
  record IsStored (now : ℕ) (r : Reply V) (s : Control D V) : Type 0 where
    others : List (Saved V)
    stands : s.saved ≡ record_of session_id operation key_hash fingerprint now r ∷ others

  add_saved-IsStored :
      (now : ℕ) (r q : Reply V) (s s' : Control D V)
      → go_on
          (add_saved (record_of session_id operation key_hash fingerprint now q) s)
          (λ _. pure q)
        ≡ (Outcome.returned r, s')
      → IsStored now r s'
  unfolding add_saved pure
  add_saved-IsStored now r q s s' h =
      at (has_session session_id s.devices)
        (first_where (is_record session_id operation key_hash) s.saved) h
    where
      at :
          (b : Bool) (o : Option (Saved V))
          → go_on
              (if b
                then (elim o as (λ _. Outcome Failure (Unit {0}) × Control D V) [
                  | none ↦ (
                    Outcome.returned tt,
                    record s {
                      saved = record_of session_id operation key_hash fingerprint now q ∷ s.saved;
                    },
                  )
                  | some taken ↦ (Outcome.raised Failure.integrity_error, s)
                ])
                else (Outcome.raised Failure.integrity_error, s))
              (λ _. pure q)
            ≡ (Outcome.returned r, s')
          → IsStored now r s'
      at true none h =
          let e : q ≡ r = ground arith in
          let f : record s {
            saved = record_of session_id operation key_hash fingerprint now q ∷ s.saved;
          }
              ≡ s' =
            ground arith in
          record {
            others = s.saved;
            stands =
                ap (λ t. t.saved) (sym f)
                ∙ ap (λ x. record_of session_id operation key_hash fingerprint now x ∷ s.saved) e;
          }
      at true (some taken) h = absurd (ground arith)
      at false o h = absurd (ground arith)

  first_time-IsStored :
      (action : Action (Control D V) Failure (ℕ × Fields V)) (now : ℕ) (r : Reply V)
      (s s' : Control D V)
      → first_time hash_secret session_id operation key_hash fingerprint action now s
        ≡ (Outcome.returned r, s')
      → IsStored now r s'
  unfolding first_time ◌>>=◌
  first_time-IsStored action now r s s' h = at (action s) h
    where
      at :
          (o : Outcome Failure (ℕ × Fields V) × Control D V)
          → go_on o (λ response t.
            go_on
              (add_saved
                (record_of session_id operation key_hash fingerprint now
                  (record { status = response.0; result = response.1; is_replay = false }))
                t)
              (λ _. pure (record { status = response.0; result = response.1; is_replay = false })))
            ≡ (Outcome.returned r, s')
          → IsStored now r s'
      at (Outcome.returned response, t) h = add_saved-IsStored now r _ t s' h
      at (Outcome.raised e, t) h = absurd (ground arith)

  looked-is_replay :
      (o : Option (Saved V)) (r : Reply V) (s s' : Control D V)
      → looked hash_secret session_id operation key_hash fingerprint o s ≡ (Outcome.returned r, s')
      → r.is_replay ≡ true
  unfolding looked pure raise
  looked-is_replay none r s s' h = ground arith
  looked-is_replay (some q) r s s' h = ground arith

  saved_reply-IsStored :
      (action : Action (Control D V) Failure (ℕ × Fields V)) (now : ℕ) (r : Reply V)
      (s s' : Control D V)
      → saved_reply hash_secret session_id operation key_hash fingerprint action now s
        ≡ (Outcome.returned r, s')
      → r.is_replay ≡ false
      → IsStored now r s'
  unfolding saved_reply begin modify gets ◌>>=◌ reply pure raise
  saved_reply-IsStored action now r s s' h new =
      at (first_where (is_record session_id operation key_hash) (cleanup_expired now s).saved)
        (returned-ended s s' r _ h)
    where
      at :
          (o : Option (Saved V))
          → reply hash_secret session_id operation key_hash fingerprint action now o
              (cleanup_expired now s)
            ≡ (Outcome.returned r, s')
          → IsStored now r s'
      at none k = first_time-IsStored action now r (cleanup_expired now s) s' k
      at (some q) k = absurd (ground arith)

  idempotent-IsStored :
      (handler : Action (Control D V) Failure (Reply V))
      (action : Action (Control D V) Failure (ℕ × Fields V)) (now : ℕ) (r : Reply V)
      (s s' : Control D V)
      → ((t t' : Control D V) (q : Reply V)
          → handler t ≡ (Outcome.returned q, t')
          → q.is_replay ≡ true)
      → unless_integrity_error
          (saved_reply hash_secret session_id operation key_hash fingerprint action now)
          handler
          s
        ≡ (Outcome.returned r, s')
      → r.is_replay ≡ false
      → IsStored now r s'
  unfolding unless_integrity_error try_except raise
  idempotent-IsStored handler action now r s s' replays h new =
      at (saved_reply hash_secret session_id operation key_hash fingerprint action now s) refl h
    where
      raised_not_returned :
          (f : Failure) (t : Control D V)
          → ◌≡◌ {A = Outcome Failure (Reply V) × Control D V}
              (Outcome.raised f, t)
              (Outcome.returned r, s')
          → ⊥
      raised_not_returned f t e = ground arith

      at :
          (o : Outcome Failure (Reply V) × Control D V)
          → saved_reply hash_secret session_id operation key_hash fingerprint action now s ≡ o
          → handled o (λ e. if is_integrity e then handler else raise e) ≡ (Outcome.returned r, s')
          → IsStored now r s'
      at (Outcome.returned q, t) e k = saved_reply-IsStored action now r s s' (e ∙ k) new
      at (Outcome.raised f, t) e k = elim (Bool-cases (is_integrity f)) [
        | inl i ↦
            let again : r.is_replay ≡ true =
              replays t s' r (ap (λ b. (if b then handler else raise f) t) (sym i) ∙ k) in
            absurd (ground arith)
        | inr i ↦
            absurd
              (raised_not_returned f t (ap (λ b. (if b then handler else raise f) t) (sym i) ∙ k))
      ]

  -- What a live record is found as.
  IsStored-found :
      (now at : ℕ) (r : Reply V) (s : Control D V)
      → IsStored now r s
      → at < now + idempotency_ttl
      → session_expired s.devices at session_id ≡ false
      → first_where (is_record session_id operation key_hash) (cleanup_expired at s).saved
        ≡ some (record_of session_id operation key_hash fingerprint now r)
  unfolding cleanup_expired
  IsStored-found now at r s stored before live =
      first_where-keep_where (is_record session_id operation key_hash) _
        (record_of session_id operation key_hash fingerprint now r) s.saved
        (ap (first_where (is_record session_id operation key_hash)) stored.stands
          ∙ first_where-head (is_record session_id operation key_hash) _ stored.others
              (record_of-is_record session_id operation key_hash fingerprint now r))
        (ground arith)

-- How a reply is given again.
abbrev pub replayed : {V : Type 0} → Reply V → Reply V
replayed r = record { status = r.status; result = persisted r.result; is_replay = true }

module _ {D V : Type 0} (hash_secret : String → String) (session_id : ℕ) (operation : String) where
  reply-same :
      (key_hash fingerprint fingerprint' : String)
      (action : Action (Control D V) Failure (ℕ × Fields V)) (now now' : ℕ) (r : Reply V)
      (t : Control D V)
      → (fingerprint == fingerprint') ≡ true
      → reply hash_secret session_id operation key_hash fingerprint' action now'
          (some (record_of session_id operation key_hash fingerprint now r))
          t
        ≡ (Outcome.returned (replayed r), t)
  unfolding reply pure raise
  reply-same key_hash fingerprint fingerprint' action now now' r t same =
      ap (λ b. (if b then pure (replayed r) else raise conflict) t) same

  reply-other :
      (key_hash fingerprint fingerprint' : String)
      (action : Action (Control D V) Failure (ℕ × Fields V)) (now now' : ℕ) (r : Reply V)
      (t : Control D V)
      → (fingerprint == fingerprint') ≡ false
      → reply hash_secret session_id operation key_hash fingerprint' action now'
          (some (record_of session_id operation key_hash fingerprint now r))
          t
        ≡ (Outcome.raised conflict, t)
  unfolding reply pure raise
  reply-other key_hash fingerprint fingerprint' action now now' r t other =
      ap (λ b. (if b then pure (replayed r) else raise conflict) t) other

  module _ (key body : String) (meanwhile : Control D V → Control D V)
      (action : Action (Control D V) Failure (ℕ × Fields V)) (now at : ℕ) (r : Reply V)
      (s s' : Control D V) where
    -- What a request has left that was executed.
    stored :
        is_key key ≡ true
        → idempotent hash_secret meanwhile session_id operation (some key) body action now s
          ≡ (Outcome.returned r, s')
        → r.is_replay ≡ false
        → IsStored hash_secret session_id operation (hash_secret key) (hash_secret body) now r s'
    unfolding idempotent second_look modify gets ◌>>=◌
    stored valid h new =
        idempotent-IsStored hash_secret session_id operation (hash_secret key) (hash_secret body)
          (second_look hash_secret session_id operation (hash_secret key) (hash_secret body)
            meanwhile)
          action now r s s'
          (λ t t' q k.
            looked-is_replay hash_secret session_id operation (hash_secret key) (hash_secret body) _
              q _ t' k)
          (ap
              (λ b.
                (if b
                    then unless_integrity_error
                        (saved_reply hash_secret session_id operation (hash_secret key)
                          (hash_secret body) action now)
                        (second_look hash_secret session_id operation (hash_secret key)
                          (hash_secret body) meanwhile)
                    else raise key_required)
                  s)
              (sym valid)
            ∙ h)
          new

    module _ (body' : String) (meanwhile' : Control D V → Control D V)
        (action' : Action (Control D V) Failure (ℕ × Fields V)) where
      -- What the block gives, where it raises no IntegrityError, is the answer.
      answered :
          (o : Outcome Failure (Reply V) × Control D V)
          → is_key key ≡ true
          → saved_reply hash_secret session_id operation
              (hash_secret key)
              (hash_secret body')
              action'
              at
              s'
            ≡ o
          → idempotent hash_secret meanwhile' session_id operation (some key) body' action' at s'
            ≡ handled o (λ e.
              if is_integrity e
              then second_look hash_secret session_id operation
                  (hash_secret key)
                  (hash_secret body')
                  meanwhile'
              else raise e)
      unfolding idempotent unless_integrity_error try_except
      answered o valid e =
          ap
            (λ b.
              (if b
                  then unless_integrity_error
                      (saved_reply hash_secret session_id operation (hash_secret key)
                        (hash_secret body') action' at)
                      (second_look hash_secret session_id operation (hash_secret key)
                        (hash_secret body') meanwhile')
                  else raise key_required)
                s')
            valid
          ∙ ap
              (λ o. handled o (λ e.
                if is_integrity e
                then second_look hash_secret session_id operation (hash_secret key)
                    (hash_secret body') meanwhile'
                else raise e))
              e

      -- The block at a record that is found.
      at_record :
          (o : Outcome Failure (Reply V) × Control D V)
          → IsStored hash_secret session_id operation (hash_secret key) (hash_secret body) now r s'
          → at < now + idempotency_ttl
          → session_expired s'.devices at session_id ≡ false
          → reply hash_secret session_id operation
              (hash_secret key)
              (hash_secret body')
              action'
              at
              (some (record_of session_id operation (hash_secret key) (hash_secret body) now r))
              (cleanup_expired at s')
            ≡ o
          → saved_reply hash_secret session_id operation
              (hash_secret key)
              (hash_secret body')
              action'
              at
              s'
            ≡ ended s' o
      unfolding saved_reply begin modify gets ◌>>=◌
      at_record o stored before live e =
          ap
            (λ q. ended s' (
              reply hash_secret session_id operation (hash_secret key) (hash_secret body') action'
                at q (cleanup_expired at s')))
            (IsStored-found hash_secret session_id operation (hash_secret key) (hash_secret body)
              now at r s' stored before live)
          ∙ ap (ended s') e

      -- In the tables that an executed request with a valid key has left, a request with the same
      -- key and a body of the same fingerprint is answered from the record for 24 hours, while the
      -- session has not expired: with the same status and the same fields but the launch token, and
      -- without its action.
      pub idempotent-replays :
          is_key key ≡ true
          → idempotent hash_secret meanwhile session_id operation (some key) body action now s
            ≡ (Outcome.returned r, s')
          → r.is_replay ≡ false
          → at < now + idempotency_ttl
          → session_expired s'.devices at session_id ≡ false
          → (hash_secret body == hash_secret body') ≡ true
          → idempotent hash_secret meanwhile' session_id operation (some key) body' action' at s'
            ≡ (Outcome.returned (replayed r), cleanup_expired at s')
      idempotent-replays valid h new before live same = answered _ valid (
          at_record _ (stored valid h new) before live (
            reply-same (hash_secret key) (hash_secret body) (hash_secret body') action' now at r
              (cleanup_expired at s') same))

      -- In the tables that an executed request with a valid key has left, a request with the same
      -- key and a body of another fingerprint is refused with 409 for 24 hours, while the session
      -- has not expired, and writes nothing.
      pub idempotent-conflict :
          is_key key ≡ true
          → idempotent hash_secret meanwhile session_id operation (some key) body action now s
            ≡ (Outcome.returned r, s')
          → r.is_replay ≡ false
          → at < now + idempotency_ttl
          → session_expired s'.devices at session_id ≡ false
          → (hash_secret body == hash_secret body') ≡ false
          → idempotent hash_secret meanwhile' session_id operation (some key) body' action' at s'
            ≡ (Outcome.raised conflict, s')
      unfolding raise
      idempotent-conflict valid h new before live other = answered _ valid (
          at_record _ (stored valid h new) before live (
            reply-other (hash_secret key) (hash_secret body) (hash_secret body') action' now at r
              (cleanup_expired at s') other))
