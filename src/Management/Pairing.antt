-- ===== src/Management/Pairing.antt =====
-- `exchange_pairing`, with the clock and the new secrets as arguments, and what it gives.
use offline_reels.Base.{
  ℕ, ◌+◌, Bool, true, false, ◌||◌, Option, none, some, String, ◌∷◌, ◌==◌, string_eq, nat_eq,
  if◌then◌else◌,
}
use offline_reels.Base.Rows.{first_where, put_where}
use offline_reels.Action.{Action, Outcome, pure, raise, gets, ◌>>=◌, ◌>>◌}
use offline_reels.Management.Tables.{Control, Device, Challenge, Failure, is_expired, begin}
use offline_reels.Management.Access.{Request, Settings, require_origin}
use offline_reels.Management.RateLimits.{enforce_rate_limit}

abbrev pub pairing_unavailable : Failure
pairing_unavailable = Failure.management_error 401 "pairing_unavailable"

abbrev pub is_consumed : Challenge → Bool
is_consumed c = elim c.consumed_at [ none ↦ false | some at ↦ true ]

abbrev pub has_secret : String → Challenge → Bool
has_secret secret_hash c = c.secret_hash == secret_hash

-- What is drawn for a new session.
pub record Drawn : Type 0 where
  pub id : ℕ
  pub device_id : ℕ
  pub token : String
  pub csrf : String

abbrev pub new_device : (String → String) → Drawn → Challenge → ℕ → Device
new_device hash_secret drawn challenge expires_at = record {
  id = drawn.id;
  account_id = challenge.account_id;
  device_id = drawn.device_id;
  session_token_hash = hash_secret drawn.token;
  csrf_token_hash = hash_secret drawn.csrf;
  expires_at = expires_at;
  revoked_at = none;
}

module _ {D V : Type 0} (hash_secret : String → String) where
  -- The INSERT under the primary key and the unique token hash.
  unfoldable pub add_device : Device → Action (Control D V) Failure (Unit {0})
  add_device d s =
      elim (first_where (λ q. q.id == d.id || q.session_token_hash == d.session_token_hash)
        s.devices) [
          | none ↦ (Outcome.returned tt, record s { devices = d ∷ s.devices })
          | some q ↦ (Outcome.raised Failure.integrity_error, s)
        ]

  unfoldable pub consume : Challenge → ℕ → Action (Control D V) Failure (Unit {0})
  consume c now s = (
    Outcome.returned tt,
    record s {
      challenges = put_where (λ q. q.id == c.id) (record c { consumed_at = some now }) s.challenges;
    },
  )

  unfoldable pub redeem : Drawn → ℕ → ℕ → Option Challenge → Action (Control D V) Failure Device
  unfolding consume add_device
  redeem drawn session_ttl now none = raise pairing_unavailable
  redeem drawn session_ttl now (some c) =
      if is_consumed c || is_expired c.expires_at now then raise pairing_unavailable else do
        consume c now
        add_device (new_device hash_secret drawn c (now + session_ttl))
        pure (new_device hash_secret drawn c (now + session_ttl))

  -- The block that exchanges a challenge for a session.
  unfoldable pub exchange : String → Drawn → ℕ → ℕ → Action (Control D V) Failure Device
  unfolding begin gets redeem
  exchange pairing_secret drawn session_ttl now = begin do
    challenge ← gets (λ s. first_where (has_secret (hash_secret pairing_secret)) s.challenges)
    redeem drawn session_ttl now challenge

  unfoldable pub exchange_pairing :
      (String → String)
      → Settings
      → (ℕ → Control D V → Control D V)
      → Request
      → String
      → Drawn
      → (ℕ → ℕ)
      → ℕ
      → Action (Control D V) Failure Device
  unfolding require_origin enforce_rate_limit exchange
  exchange_pairing lower settings meanwhile request pairing_secret drawn clock now = do
    require_origin hash_secret lower settings request
    enforce_rate_limit hash_secret meanwhile "pairing" 10 clock
    exchange pairing_secret drawn settings.session_ttl now
