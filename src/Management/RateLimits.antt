-- ===== src/Management/RateLimits.antt =====
-- `_enforce_rate_limit`. `meanwhile k` is what other transactions commit in the attempt `k` between
-- the SELECT that finds no row and the INSERT; SHA-256 is a parameter.
use offline_reels.Base.{
  ℕ, ◌+◌, Bool, true, false, Option, none, some, String, List, ◌∷◌, leb, ◌==◌, string_eq,
  if◌then◌else◌,
}
use offline_reels.Base.Rows.{first_where, put_where}
use offline_reels.Action.{Action, Outcome, raise, gets, ◌>>=◌, try_except}
use offline_reels.Management.Tables.{Control, Failure, Window, minute}

abbrev pub is_scope : String → Window → Bool
is_scope scope w = w.scope_hash == scope

abbrev pub rate_limited : Failure
rate_limited = Failure.management_error 429 "rate_limited"

abbrev pub is_integrity : Failure → Bool
is_integrity Failure.integrity_error = true
is_integrity _ = false

module _ {D V : Type 0} where
  abbrev pub set_windows : List Window → Control D V → Control D V
  set_windows windows s = record s { windows = windows }

  -- The INSERT, which the primary key refuses where the row is there by then.
  unfoldable pub insert_window :
      (Control D V → Control D V) → Window → Action (Control D V) Failure (Unit {0})
  insert_window meanwhile w s =
      let s' = meanwhile s in
      elim (first_where (is_scope w.scope_hash) s'.windows) [
        | none ↦ (Outcome.returned tt, set_windows (w ∷ s'.windows) s')
        | some taken ↦ (Outcome.raised Failure.integrity_error, s')
      ]

  -- The row of the scope is locked.
  unfoldable pub count_request : ℕ → ℕ → Window → Action (Control D V) Failure (Unit {0})
  count_request limit now item s =
      if leb (item.window_started_at + minute) now
      then (
        Outcome.returned tt,
        set_windows
            (put_where (is_scope item.scope_hash)
              (record item { window_started_at = now; request_count = 1 }) s.windows)
            s,
      )
      else if leb limit item.request_count
      then (Outcome.raised rate_limited, s)
      else (
        Outcome.returned tt,
        set_windows
            (put_where (is_scope item.scope_hash)
              (record item { request_count = item.request_count + 1 }) s.windows)
            s,
      )

  unfoldable pub limited :
      (Control D V → Control D V)
      → String
      → ℕ
      → ℕ
      → Option Window
      → Action (Control D V) Failure (Unit {0})
  unfolding insert_window count_request
  limited meanwhile scope_hash limit now none =
      insert_window meanwhile
        (record { scope_hash = scope_hash; window_started_at = now; request_count = 1 })
  limited meanwhile scope_hash limit now (some item) = count_request limit now item

  unfoldable pub limit_attempt :
      (Control D V → Control D V) → String → ℕ → ℕ → Action (Control D V) Failure (Unit {0})
  unfolding gets limited
  limit_attempt meanwhile scope_hash limit now = do
    item ← gets (λ s. first_where (is_scope scope_hash) s.windows)
    limited meanwhile scope_hash limit now item

  -- except IntegrityError: <other>
  unfoldable pub unless_integrity_error :
      {A : Type 0}
      → Action (Control D V) Failure A
      → Action (Control D V) Failure A
      → Action (Control D V) Failure A
  unfolding try_except
  unless_integrity_error m other = try_except m (λ e. if is_integrity e then other else raise e)

  -- Another attempt follows an IntegrityError of the first, and the second is the last. Each reads
  -- the clock.
  unfoldable pub enforce_rate_limit :
      (String → String)
      → (ℕ → Control D V → Control D V)
      → String
      → ℕ
      → (ℕ → ℕ)
      → Action (Control D V) Failure (Unit {0})
  unfolding limit_attempt unless_integrity_error
  enforce_rate_limit hash_secret meanwhile scope limit clock =
      unless_integrity_error (limit_attempt (meanwhile 0) (hash_secret scope) limit (clock 0)) (
        unless_integrity_error (limit_attempt (meanwhile 1) (hash_secret scope) limit (clock 1))
          (raise rate_limited))
