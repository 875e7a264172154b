-- ===== src/Examples/Devices.antt =====
-- A paired device, its requests, and the theorems at them.
use offline_reels.Base.{
  ℕ, ◌+◌, ◌≡◌, ◌≤◌, refl, false, none, some, String, [], ◌∷◌, arith, ◌-◌, List,
}
use offline_reels.Action.{Action, Outcome, pure, raise, ◌>>=◌}
use offline_reels.Management.Tables.{
  Control, Device, Failure, Fields, cleanup_expired, session_expired,
}
use offline_reels.Management.Access.{Settings, find_session, revoke_locked, session_expired_error}
use offline_reels.Management.Pairing.{exchange, Drawn, pairing_unavailable}
use offline_reels.Management.Replay.{idempotent, Reply, conflict}
use offline_reels.Management.Windows.{
  admitted, admitted-bounded, IsCounting, counted_on, enforce_rate_limit-retried,
}
use offline_reels.Base.Rows.{first_where, put_where, keep_where}
use offline_reels.Management.Secrets.{exchange-once, exchange-find_session}
use offline_reels.Management.Revocation.{revoke_locked-find_session}
use offline_reels.Management.Idempotency.{replayed, idempotent-conflict, idempotent-replays}
use offline_reels.Management.RateLimits.{enforce_rate_limit}

abbrev plain : String → String
plain text = text

-- The rest of the database is a number of executed requests.
abbrev Plane : Type 0
Plane = Control ℕ String

abbrev unpaired : Plane
unpaired = record {
  challenges =
      record {
        id = 1;
        account_id = 9;
        secret_hash = "pair me";
        expires_at = 50;
        consumed_at = none;
      }
      ∷ [];
  devices = [];
  saved = [];
  windows = [];
  rest = 0;
}

abbrev phone_drawn : Drawn
phone_drawn = record { id = 3; device_id = 4; token = "token"; csrf = "csrf" }

abbrev other_drawn : Drawn
other_drawn = record { id = 5; device_id = 6; token = "other"; csrf = "other csrf" }

abbrev phone : Device
phone = record {
  id = 3;
  account_id = 9;
  device_id = 4;
  session_token_hash = "token";
  csrf_token_hash = "csrf";
  expires_at = 1010;
  revoked_at = none;
}

abbrev paired : Plane
paired = record unpaired {
  challenges =
      record {
        id = 1;
        account_id = 9;
        secret_hash = "pair me";
        expires_at = 50;
        consumed_at = some 10;
      }
      ∷ [];
  devices = phone ∷ [];
}

exchanged : exchange plain "pair me" phone_drawn 1000 10 unpaired ≡ (Outcome.returned phone, paired)
unfolding exchange ◌>>=◌ pure raise first_where put_where
exchanged = refl

exchange-once_example :
    exchange plain "pair me" other_drawn 1000 20 paired
    ≡ (Outcome.raised pairing_unavailable, paired)
exchange-once_example =
    exchange-once plain "pair me" phone_drawn other_drawn 1000 1000 10 20 unpaired paired phone
      exchanged

abbrev settings : Settings
settings = record { origin = "https://reels"; expected_host = "reels"; session_ttl = 1000 }

exchange-find_session_example :
    find_session plain plain settings "token" 500 501 paired
    ≡ (Outcome.returned phone, cleanup_expired 500 paired)
exchange-find_session_example =
    exchange-find_session plain "pair me" plain settings phone_drawn 1000 10 500 501 unpaired paired
      phone exchanged (omega arith) (omega arith)

revoke_locked-find_session_example :
    find_session plain plain settings "token" 500 501 (revoke_locked 3 400 paired).1
    ≡ (Outcome.raised session_expired_error, (revoke_locked 3 400 paired).1)
unfolding first_where
revoke_locked-find_session_example =
    revoke_locked-find_session plain plain settings "token" 400 500 501 phone paired refl refl
      (omega arith)

-- An action that counts how often it is executed.
abbrev counting : Action Plane Failure (ℕ × Fields String)
counting s = (Outcome.returned (200, ("revoked", "true") ∷ []), record s { rest = s.rest + 1 })

abbrev first_reply : Reply String
first_reply = record { status = 200; result = ("revoked", "true") ∷ []; is_replay = false }

abbrev request : ℕ → String → Plane → Outcome Failure (Reply String) × Plane
request now body = idempotent plain (λ s. s) 3 "revoke" (some "key of 8+") body counting now

abbrev answered_once : Plane
answered_once = (request 100 "body" paired).1

executed : request 100 "body" paired ≡ (Outcome.returned first_reply, answered_once)
unfolding idempotent ◌>>=◌ pure raise first_where keep_where
executed = refl

idempotent-replays_example :
    idempotent plain
      (λ s. s)
      3
      "revoke"
      (some "key of 8+")
      "body"
      (raise Failure.other_error)
      200
      answered_once
    ≡ (Outcome.returned (replayed first_reply), cleanup_expired 200 answered_once)
unfolding idempotent ◌>>=◌ pure raise first_where keep_where session_expired cleanup_expired
idempotent-replays_example =
    idempotent-replays plain 3 "revoke" "key of 8+" "body" (λ s. s) counting 100 200 first_reply
      paired answered_once "body" (λ s. s) (raise Failure.other_error) refl executed refl
      (omega arith) refl refl

idempotent-conflict_example :
    idempotent plain (λ s. s) 3 "revoke" (some "key of 8+") "another" counting 200 answered_once
    ≡ (Outcome.raised conflict, answered_once)
unfolding idempotent ◌>>=◌ pure raise first_where keep_where session_expired cleanup_expired
idempotent-conflict_example =
    idempotent-conflict plain 3 "revoke" "key of 8+" "body" (λ s. s) counting 100 200 first_reply
      paired answered_once "another" (λ s. s) counting refl executed refl (omega arith) refl refl

abbrev nearly_full : Plane
nearly_full = record paired {
  windows = record { scope_hash = "pairing"; window_started_at = 0; request_count = 9 } ∷ [];
}

counting_nine : IsCounting plain "pairing" 10 0 9 nearly_full
unfolding first_where
counting_nine = record {
  window = record { scope_hash = "pairing"; window_started_at = 0; request_count = 9 };
  found = refl;
  started = refl;
  counted = refl;
}

-- Three requests, and what the clock reads in the attempts of each.
abbrev three_clocks : List (ℕ → ℕ)
three_clocks = (λ k. 1 + k) ∷ (λ k. 2 + k) ∷ (λ k. 3 + k) ∷ []

admitted-bounded_example : admitted plain "pairing" 10 (λ k s. s) three_clocks nearly_full ≤ 10 - 9
admitted-bounded_example =
    admitted-bounded plain "pairing" 10 (λ k s. s) three_clocks nearly_full 0 9 counting_nine
      (omega arith, (omega arith, (omega arith, tt)))

-- Another request of the scope comes first.
abbrev one_before : ℕ → Plane → Plane
one_before k s = record s {
  windows = record { scope_hash = "pairing"; window_started_at = 5; request_count = 1 } ∷ s.windows;
}

enforce_rate_limit-retried_example :
    enforce_rate_limit plain one_before "pairing" 10 (λ k. 5 + k) paired ≡ (
      Outcome.returned tt,
      counted_on plain "pairing" 10
          (record { scope_hash = "pairing"; window_started_at = 5; request_count = 1 })
          (one_before 0 paired),
    )
unfolding first_where
enforce_rate_limit-retried_example =
    enforce_rate_limit-retried plain "pairing" 10 one_before (λ k. 5 + k) paired
      (record { scope_hash = "pairing"; window_started_at = 5; request_count = 1 }) refl refl
      (omega arith) (omega arith)
