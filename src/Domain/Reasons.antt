-- ===== src/Domain/Reasons.antt =====
-- The reason codes of apps/api/app/instagram/contracts.py and the pattern that admits a stored one.
use offline_reels.Base.{
  ℕ, ◌≤◌, ◌≡◌, refl, Bool, true, false, ◌&&◌, ◌||◌, Option, none, some, List, [], ◌∷◌, String, ◌=ℕ◌,
  leb, length, arith, codes,
}

pub data ReasonCode : Type 0 where
  auth_required checkpoint_required temporarily_limited download_failed : ReasonCode
  validation_failed normalization_failed storage_failed cancelled_by_user : ReasonCode
  login_expired login_cancelled source_missing source_hash_mismatch : ReasonCode
  source_size_mismatch invalid_media ffprobe_failed full_decode_failed : ReasonCode
  incompatible_output minio_transient_failure final_object_conflict postgres_commit_failure :
      ReasonCode
  worker_cancelled stale_lease_recovered retry_exhausted : ReasonCode

-- The `value` of a member.
unfoldable pub reason_value : ReasonCode → String
reason_value auth_required = "AUTH_REQUIRED"
reason_value checkpoint_required = "CHECKPOINT_REQUIRED"
reason_value temporarily_limited = "TEMPORARILY_LIMITED"
reason_value download_failed = "DOWNLOAD_FAILED"
reason_value validation_failed = "VALIDATION_FAILED"
reason_value normalization_failed = "NORMALIZATION_FAILED"
reason_value storage_failed = "STORAGE_FAILED"
reason_value cancelled_by_user = "CANCELLED_BY_USER"
reason_value login_expired = "LOGIN_EXPIRED"
reason_value login_cancelled = "LOGIN_CANCELLED"
reason_value source_missing = "SOURCE_MISSING"
reason_value source_hash_mismatch = "SOURCE_HASH_MISMATCH"
reason_value source_size_mismatch = "SOURCE_SIZE_MISMATCH"
reason_value invalid_media = "INVALID_MEDIA"
reason_value ffprobe_failed = "FFPROBE_FAILED"
reason_value full_decode_failed = "FULL_DECODE_FAILED"
reason_value incompatible_output = "INCOMPATIBLE_OUTPUT"
reason_value minio_transient_failure = "MINIO_TRANSIENT_FAILURE"
reason_value final_object_conflict = "FINAL_OBJECT_CONFLICT"
reason_value postgres_commit_failure = "POSTGRES_COMMIT_FAILURE"
reason_value worker_cancelled = "WORKER_CANCELLED"
reason_value stale_lease_recovered = "STALE_LEASE_RECOVERED"
reason_value retry_exhausted = "RETRY_EXHAUSTED"

abbrev pub reason_code_max_length : ℕ
reason_code_max_length = 64

-- [A-Z]
upper : ℕ → Bool
upper c = leb b'A' c && leb c b'Z'

-- [A-Z0-9_]
code_char : ℕ → Bool
unfolding upper
code_char c = upper c || (leb b'0' c && leb c b'9') || c =ℕ b'_'

all_code_chars : List ℕ → Bool
unfolding code_char
all_code_chars [] = true
all_code_chars (c ∷ cs) = code_char c && all_code_chars cs

-- REASON_CODE_PATTERN.fullmatch, `^[A-Z][A-Z0-9_]{0,63}$`
matches_pattern : List ℕ → Bool
unfolding all_code_chars
matches_pattern [] = false
matches_pattern (c ∷ cs) = upper c && (leb (length cs) 63 && all_code_chars cs)

unfoldable pub is_valid_reason_code : Option String → Bool
unfolding matches_pattern
is_valid_reason_code none = true
is_valid_reason_code (some value) = matches_pattern (codes value)

matches_pattern-length :
    (cs : List ℕ) → matches_pattern cs ≡ true → length cs ≤ reason_code_max_length
unfolding matches_pattern
matches_pattern-length [] h = omega arith
matches_pattern-length (c ∷ cs) h = ground arith

-- A value that the check admits fits the 64 characters of its column.
pub is_valid_reason_code-length :
    (value : String)
    → is_valid_reason_code (some value) ≡ true
    → length (codes value) ≤ reason_code_max_length
unfolding is_valid_reason_code
is_valid_reason_code-length value h = matches_pattern-length (codes value) h

-- Every member of `ReasonCode` is admitted by `is_valid_reason_code`.
pub reason_value-valid : (r : ReasonCode) → is_valid_reason_code (some (reason_value r)) ≡ true
unfolding is_valid_reason_code reason_value
reason_value-valid auth_required = refl
reason_value-valid checkpoint_required = refl
reason_value-valid temporarily_limited = refl
reason_value-valid download_failed = refl
reason_value-valid validation_failed = refl
reason_value-valid normalization_failed = refl
reason_value-valid storage_failed = refl
reason_value-valid cancelled_by_user = refl
reason_value-valid login_expired = refl
reason_value-valid login_cancelled = refl
reason_value-valid source_missing = refl
reason_value-valid source_hash_mismatch = refl
reason_value-valid source_size_mismatch = refl
reason_value-valid invalid_media = refl
reason_value-valid ffprobe_failed = refl
reason_value-valid full_decode_failed = refl
reason_value-valid incompatible_output = refl
reason_value-valid minio_transient_failure = refl
reason_value-valid final_object_conflict = refl
reason_value-valid postgres_commit_failure = refl
reason_value-valid worker_cancelled = refl
reason_value-valid stale_lease_recovered = refl
reason_value-valid retry_exhausted = refl
