-- ===== src/Management/Access.antt =====
-- `_get_current_session`, `require_mutation`, `current_session` and `_revoke_locked`. SHA-256 and
-- str.lower are parameters, as are the readings of the clock and the new secrets.
use offline_reels.Base.{
  ℕ, Bool, true, false, ◌||◌, not, Option, none, some, String, ◌==◌, string_eq, nat_eq,
  if◌then◌else◌,
}
use offline_reels.Base.Rows.{first_where, put_where}
use offline_reels.Action.{Action, pure, raise, gets, modify, ◌>>=◌, ◌>>◌}
use offline_reels.Management.Tables.{Control, Device, Failure, cleanup_expired, is_expired, begin}
use offline_reels.Management.RateLimits.{enforce_rate_limit}

-- What the checks read of a request.
pub record Request : Type 0 where
  pub host : Option String
  pub origin : Option String
  pub session_cookie : Option String
  pub csrf : Option String

-- management_session_ttl_minutes in microseconds, the origin without its last slash, and the host
-- with the port where it is not the scheme's own.
pub record Settings : Type 0 where
  pub origin : String
  pub expected_host : String
  pub session_ttl : ℕ

abbrev pub forbidden_origin : Failure
forbidden_origin = Failure.management_error 403 "forbidden_origin"

abbrev pub unauthorized : Failure
unauthorized = Failure.management_error 401 "unauthorized"

abbrev pub session_expired_error : Failure
session_expired_error = Failure.management_error 401 "session_expired"

abbrev pub csrf_invalid : Failure
csrf_invalid = Failure.management_error 403 "csrf_invalid"

abbrev or_empty : Option String → String
or_empty none = ""
or_empty (some text) = text

abbrev pub is_revoked : Device → Bool
is_revoked d = elim d.revoked_at [ none ↦ false | some at ↦ true ]

abbrev pub has_token : String → Device → Bool
has_token token_hash d = d.session_token_hash == token_hash

module _ {D V : Type 0} (hash_secret lower : String → String) (settings : Settings) where
  unfoldable pub require_host : Request → Action (Control D V) Failure (Unit {0})
  require_host request =
      if lower (or_empty request.host) == lower settings.expected_host
      then pure tt
      else raise forbidden_origin

  unfoldable pub require_origin : Request → Action (Control D V) Failure (Unit {0})
  unfolding require_host
  require_origin request = do
    require_host request
    elim request.origin [
      | none ↦ raise forbidden_origin
      | some origin ↦ if origin == settings.origin then pure tt else raise forbidden_origin
    ]

  unfoldable pub opened : ℕ → Option Device → Action (Control D V) Failure Device
  opened later none = raise session_expired_error
  opened later (some d) =
      if is_revoked d || is_expired d.expires_at later then raise session_expired_error else pure d

  -- The block that reads the session of a token; `now` is the clock of the cleanup and `later` that
  -- of the test.
  unfoldable pub find_session : String → ℕ → ℕ → Action (Control D V) Failure Device
  unfolding begin modify gets cleanup_expired opened
  find_session token now later = begin do
    modify (cleanup_expired now)
    item ← gets (λ s. first_where (has_token (hash_secret token)) s.devices)
    opened later item

  unfoldable pub get_current_session : Request → ℕ → ℕ → Action (Control D V) Failure Device
  unfolding require_host find_session
  get_current_session request now later = do
    require_host request
    elim request.session_cookie [
      | none ↦ raise unauthorized
      | some token ↦ if token == "" then raise unauthorized else find_session token now later
    ]

  -- `_require_origin`, the limit of 60 a minute, and the test of the CSRF token, for a session that
  -- `get_current_session` has returned. `scope` is `mutation:` and the session's id.
  unfoldable pub require_mutation :
      (ℕ → Control D V → Control D V)
      → Request
      → String
      → Device
      → (ℕ → ℕ)
      → Action (Control D V) Failure Device
  unfolding require_origin enforce_rate_limit
  require_mutation meanwhile request scope session clock = do
    require_origin request
    enforce_rate_limit hash_secret meanwhile scope 60 clock
    elim request.csrf [
      | none ↦ raise csrf_invalid
      | some csrf ↦
          if csrf == "" || not (hash_secret csrf == session.csrf_token_hash)
          then raise csrf_invalid
          else pure session
    ]

  -- The CSRF token of a session is replaced by a new one.
  unfoldable pub current_session : Device → String → ℕ → Action (Control D V) Failure (Unit {0})
  unfolding begin gets modify
  current_session session csrf now = begin do
    item ← gets (λ s. first_where (λ d. d.id == session.id) s.devices)
    elim item [
      | none ↦ raise session_expired_error
      | some d ↦
          if is_revoked d || is_expired d.expires_at now
          then raise session_expired_error
          else modify (λ s. record s {
            devices =
                put_where (λ q. q.id == d.id) (record d { csrf_token_hash = hash_secret csrf })
                  s.devices;
          })
    ]

unfoldable pub revoke_found :
    {D V : Type 0} → ℕ → Option Device → Action (Control D V) Failure (Unit {0})
revoke_found now none = pure tt
revoke_found now (some d) =
    if is_revoked d
    then pure tt
    else modify (λ s. record s {
      devices = put_where (λ q. q.id == d.id) (record d { revoked_at = some now }) s.devices;
    })

-- `_revoke_locked`, inside the block of `_idempotent`.
unfoldable pub revoke_locked : {D V : Type 0} → ℕ → ℕ → Action (Control D V) Failure (Unit {0})
unfolding gets revoke_found
revoke_locked session_id now = do
  item ← gets (λ s. first_where (λ d. d.id == session_id) s.devices)
  revoke_found now item
