-- ===== src/Management/Replay.antt =====
-- `_idempotency_key` and `_idempotent`. A body stands for the fingerprint of its JSON text, an object
-- for the JSON text that is stored of it. `meanwhile` is what other transactions commit before the
-- handler of an IntegrityError reads the table again. The lengths of columns are not checked.
use offline_reels.Base.{
  ℕ, ◌+◌, Bool, true, false, ◌&&◌, not, Option, none, some, String, List, [], ◌∷◌, leb, ltb, length,
  codes, ◌==◌, string_eq, nat_eq, if◌then◌else◌,
}
use offline_reels.Base.Rows.{first_where, keep_where}
use offline_reels.Action.{Action, Outcome, pure, raise, gets, modify, ◌>>=◌, ◌>>◌}
use offline_reels.Management.Tables.{
  Control, Failure, Saved, Fields, Device, cleanup_expired, begin,
}
use offline_reels.Management.RateLimits.{unless_integrity_error}

abbrev pub idempotency_ttl : ℕ
idempotency_ttl = 86400000000

is_ascii : List ℕ → Bool
is_ascii [] = true
is_ascii (c ∷ cs) = ltb c 128 && is_ascii cs

-- 8 to 128 ASCII characters
unfoldable pub is_key : String → Bool
unfolding is_ascii
is_key value =
    leb 8 (length (codes value)) && leb (length (codes value)) 128 && is_ascii (codes value)

abbrev pub conflict : Failure
conflict = Failure.management_error 409 "idempotency_conflict"

abbrev pub key_required : Failure
key_required = Failure.management_error 400 "idempotency_required"

abbrev pub unavailable : Failure
unavailable = Failure.management_error 503 "service_unavailable"

-- What is stored of a result: everything but the launch token.
abbrev pub persisted : {V : Type 0} → Fields V → Fields V
persisted result = keep_where (λ f. not (f.0 == "_launch_token")) result

-- The row of the unique index uq_management_idempotency_scope.
abbrev pub is_record : {V : Type 0} → ℕ → String → String → Saved V → Bool
is_record session_id operation key_hash r =
    r.session_id == session_id && r.operation == operation && r.key_hash == key_hash

pub record Reply (V : Type 0) : Type 0 where
  pub status : ℕ
  pub result : Fields V
  pub is_replay : Bool

abbrev pub replay_of : {V : Type 0} → Saved V → Reply V
replay_of r = record { status = r.response_status; result = r.response; is_replay = true }

-- The foreign key of a record.
unfoldable pub has_session : ℕ → List Device → Bool
unfolding first_where
has_session session_id devices = elim (first_where (λ d. d.id == session_id) devices) [
  | none ↦ false
  | some device ↦ true
]

module _ {D V : Type 0} where
  -- The INSERT under the foreign key and the unique index.
  unfoldable pub add_saved : Saved V → Action (Control D V) Failure (Unit {0})
  unfolding has_session
  add_saved r s =
      if has_session r.session_id s.devices
      then elim (first_where (is_record r.session_id r.operation r.key_hash) s.saved) [
        | none ↦ (Outcome.returned tt, record s { saved = r ∷ s.saved })
        | some q ↦ (Outcome.raised Failure.integrity_error, s)
      ]
      else (Outcome.raised Failure.integrity_error, s)

  module _ (hash_secret : String → String) (session_id : ℕ)
      (operation key_hash fingerprint : String) where
    unfoldable pub first_time :
        Action (Control D V) Failure (ℕ × Fields V) → ℕ → Action (Control D V) Failure (Reply V)
    unfolding add_saved
    first_time action now = do
      response ← action
      add_saved (record {
        session_id = session_id;
        operation = operation;
        key_hash = key_hash;
        request_fingerprint = fingerprint;
        response_status = response.0;
        response = persisted response.1;
        expires_at = now + idempotency_ttl;
      })
      pure (record { status = response.0; result = response.1; is_replay = false })

    unfoldable pub reply :
        Action (Control D V) Failure (ℕ × Fields V)
        → ℕ
        → Option (Saved V)
        → Action (Control D V) Failure (Reply V)
    unfolding first_time
    reply action now none = first_time action now
    reply action now (some r) =
        if r.request_fingerprint == fingerprint then pure (replay_of r) else raise conflict

    unfoldable pub saved_reply :
        Action (Control D V) Failure (ℕ × Fields V) → ℕ → Action (Control D V) Failure (Reply V)
    unfolding begin modify gets cleanup_expired reply
    saved_reply action now = begin do
      modify (cleanup_expired now)
      existing ← gets (λ s. first_where (is_record session_id operation key_hash) s.saved)
      reply action now existing

    unfoldable pub looked : Option (Saved V) → Action (Control D V) Failure (Reply V)
    looked none = raise unavailable
    looked (some r) =
        if r.request_fingerprint == fingerprint then pure (replay_of r) else raise unavailable

    -- The handler of IntegrityError.
    unfoldable pub second_look :
        (Control D V → Control D V) → Action (Control D V) Failure (Reply V)
    unfolding modify gets looked
    second_look meanwhile = do
      modify meanwhile
      existing ← gets (λ s. first_where (is_record session_id operation key_hash) s.saved)
      looked existing

  unfoldable pub idempotent :
      (String → String)
      → (Control D V → Control D V)
      → ℕ
      → String
      → Option String
      → String
      → Action (Control D V) Failure (ℕ × Fields V)
      → ℕ
      → Action (Control D V) Failure (Reply V)
  unfolding saved_reply second_look is_key unless_integrity_error
  idempotent hash_secret meanwhile session_id operation none body action now = raise key_required
  idempotent hash_secret meanwhile session_id operation (some key) body action now =
      if is_key key
      then unless_integrity_error
          (saved_reply hash_secret session_id operation (hash_secret key) (hash_secret body) action
            now)
          (second_look hash_secret session_id operation (hash_secret key) (hash_secret body)
            meanwhile)
      else raise key_required
