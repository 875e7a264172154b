-- ===== src/Management/Windows.antt =====
-- How many requests of one scope pass the limiter within a window.
use offline_reels.Base.{
  ℕ, ◌+◌, ◌-◌, ◌<◌, ◌≤◌, ◌≡◌, refl, Bool, true, false, some, String, List, [], ◌∷◌, string_eq, leb,
  if◌then◌else◌, arith, Bool-cases, inl, subst, sym, leb→le, ◌∙◌, inr, ap, none,
}
use offline_reels.Base.Rows.{first_where, put_where, first_where-put_where, test-first_where}
use offline_reels.Action.{Action, Outcome, raise, gets, ◌>>=◌, try_except, handled}
use offline_reels.Management.Tables.{Control, Failure, Window, minute}
use offline_reels.Management.RateLimits.{
  enforce_rate_limit, limit_attempt, limited, count_request, is_scope, unless_integrity_error,
  set_windows, rate_limited, is_integrity, insert_window,
}

-- The first attempts of all requests lie in the window that begins at `start`; a clock is what the
-- attempts of one request read.
abbrev pub IsWithinWindow : ℕ → List (ℕ → ℕ) → Type 0
IsWithinWindow start [] = Unit {0}
IsWithinWindow start (clock ∷ clocks) = (clock 0 < start + minute) × IsWithinWindow start clocks

module _ {D V : Type 0} (hash_secret : String → String) (scope : String) (limit : ℕ) where
  abbrev passes : Outcome Failure (Unit {0}) × Control D V → ℕ
  passes (Outcome.returned u, s) = 1
  passes (Outcome.raised e, s) = 0

  -- How many of the requests with the given clocks pass, one after the other.
  unfoldable pub admitted : (ℕ → Control D V → Control D V) → List (ℕ → ℕ) → Control D V → ℕ
  unfolding enforce_rate_limit
  admitted meanwhile [] s = 0
  admitted meanwhile (clock ∷ clocks) s =
      let o = enforce_rate_limit hash_secret meanwhile scope limit clock s in
      let rest = admitted meanwhile clocks o.1 in passes o + rest

  -- The window of the scope and its count.
  pub record IsCounting (start count : ℕ) (s : Control D V) : Type 0 where
    pub window : Window
    pub found : first_where (is_scope (hash_secret scope)) s.windows ≡ some window
    pub started : window.window_started_at ≡ start
    pub counted : window.request_count ≡ count

  -- What the limiter does to a running window.
  record IsLimited (start count : ℕ) (o : Outcome Failure (Unit {0}) × Control D V) : Type 0 where
    after : IsCounting start (count + passes o) o.1
    within : passes o ≤ limit - count

  pub counted_on : Window → Control D V → Control D V
  counted_on w s =
      set_windows
        (put_where (is_scope w.scope_hash) (record w { request_count = w.request_count + 1 })
          s.windows)
        s

  count_request-full :
      (now : ℕ) (s : Control D V) (w : Window)
      → now < w.window_started_at + minute
      → limit ≤ w.request_count
      → count_request limit now w s ≡ (Outcome.raised rate_limited, s)
  unfolding count_request
  count_request-full now s w h k = ground arith

  count_request-free :
      (now : ℕ) (s : Control D V) (w : Window)
      → now < w.window_started_at + minute
      → w.request_count < limit
      → count_request limit now w s ≡ (Outcome.returned tt, counted_on w s)
  unfolding count_request counted_on
  count_request-free now s w h k = ground arith

  count_request-IsLimited :
      (now : ℕ) (s : Control D V) (start count : ℕ) (c : IsCounting start count s)
      → now < start + minute
      → IsLimited start count (count_request limit now c.window s)
  unfolding counted_on
  count_request-IsLimited now s start count c h =
      elim (Bool-cases (leb limit c.window.request_count)) [
        | inl full ↦
            subst (IsLimited start count)
              (sym (count_request-full now s c.window (early c.started) (leb→le _ _ full)))
              (record {
                after = record {
                  window = c.window;
                  found = c.found;
                  started = c.started;
                  counted = c.counted ∙ plus_zero;
                };
                within = omega arith;
              })
        | inr free ↦
            subst (IsLimited start count)
              (sym (count_request-free now s c.window (early c.started) (ground arith)))
              (record {
                after = record {
                  window = record c.window { request_count = c.window.request_count + 1 };
                  found =
                      first_where-put_where (is_scope (hash_secret scope))
                        (is_scope c.window.scope_hash) c.window
                        (record c.window { request_count = c.window.request_count + 1 }) s.windows
                        c.found
                        ((string_eq.equal_iff c.window.scope_hash c.window.scope_hash).1 refl)
                        (test-first_where (is_scope (hash_secret scope)) c.window s.windows
                          c.found);
                  started = c.started;
                  counted = ap (λ k. k + 1) c.counted;
                };
                within = let e = c.counted in ground arith;
              })
      ]
    where
      early : c.window.window_started_at ≡ start → now < c.window.window_started_at + minute
      early e = omega arith

      plus_zero : count ≡ count + 0
      plus_zero = omega arith

  -- The row of a running window is locked, and so no IntegrityError comes from it.
  unless_integrity_error-count_request :
      (now : ℕ) (w : Window) (s : Control D V)
      (other : Failure → Action (Control D V) Failure (Unit {0}))
      → ((e : Failure) → is_integrity e ≡ false → other e ≡ raise e)
      → handled (count_request limit now w s) other ≡ count_request limit now w s
  unfolding count_request raise
  unless_integrity_error-count_request now w s other h =
      at (leb (w.window_started_at + minute) now) (leb limit w.request_count) _ _
    where
      at :
          (b c : Bool) (x y : Control D V)
          → handled
              (if b
                then (Outcome.returned tt, x)
                else if c
                then (Outcome.raised rate_limited, s)
                else (Outcome.returned tt, y))
              other
            ≡ (if b
                then (Outcome.returned tt, x)
                else if c
                then (Outcome.raised rate_limited, s)
                else (Outcome.returned tt, y))
      at true c x y = refl
      at false true x y = ap (λ m. m s) (h rate_limited refl)
      at false false x y = refl

  enforce_rate_limit-IsLimited :
      (meanwhile : ℕ → Control D V → Control D V) (clock : ℕ → ℕ) (s : Control D V)
      (start count : ℕ)
      → IsCounting start count s
      → clock 0 < start + minute
      → IsLimited start count (enforce_rate_limit hash_secret meanwhile scope limit clock s)
  unfolding enforce_rate_limit limit_attempt gets ◌>>=◌ limited unless_integrity_error try_except
  enforce_rate_limit-IsLimited meanwhile clock s start count c h =
      subst (IsLimited start count)
        (sym (
          ap (λ o. handled (limited (meanwhile 0) (hash_secret scope) limit (clock 0) o s) other)
            c.found
          ∙ unless_integrity_error-count_request (clock 0) c.window s other
              (λ e i. ap (λ b. if b then second else raise e) i)))
        (count_request-IsLimited (clock 0) s start count c h)
    where
      second : Action (Control D V) Failure (Unit {0})
      second =
          unless_integrity_error (limit_attempt (meanwhile 1) (hash_secret scope) limit (clock 1))
            (raise rate_limited)

      other : Failure → Action (Control D V) Failure (Unit {0})
      other e = if is_integrity e then second else raise e

  -- Of the requests of a scope that come one after the other while its window runs, no more pass
  -- than its limit has left.
  pub admitted-bounded :
      (meanwhile : ℕ → Control D V → Control D V) (clocks : List (ℕ → ℕ)) (s : Control D V)
      (start count : ℕ)
      → IsCounting start count s
      → IsWithinWindow start clocks
      → admitted meanwhile clocks s ≤ limit - count
  unfolding admitted
  admitted-bounded meanwhile [] s start count c h = omega arith
  admitted-bounded meanwhile (clock ∷ clocks) s start count c h =
      let step = enforce_rate_limit-IsLimited meanwhile clock s start count c h.0 in
      let w = step.within in
      let rest =
        admitted-bounded meanwhile clocks
          (enforce_rate_limit hash_secret meanwhile scope limit clock s).1 start _ step.after h.1 in
      omega arith

  collided :
      (meanwhile : Control D V → Control D V) (now : ℕ) (s : Control D V) (w : Window)
      → first_where (is_scope (hash_secret scope)) s.windows ≡ none
      → first_where (is_scope (hash_secret scope)) (meanwhile s).windows ≡ some w
      → limit_attempt meanwhile (hash_secret scope) limit now s
        ≡ (Outcome.raised Failure.integrity_error, meanwhile s)
  unfolding limit_attempt gets ◌>>=◌ limited insert_window
  collided meanwhile now s w f g =
      ap (λ o. limited meanwhile (hash_secret scope) limit now o s) f
      ∙ ap
          (λ o. elim o as (λ _. Outcome Failure (Unit {0}) × Control D V) [
            | none ↦ (
              Outcome.returned tt,
              set_windows
                  (record {
                    scope_hash = hash_secret scope;
                    window_started_at = now;
                    request_count = 1;
                  }
                    ∷ (meanwhile s).windows)
                  (meanwhile s),
            )
            | some taken ↦ (Outcome.raised Failure.integrity_error, meanwhile s)
          ])
          g

  counted_next :
      (meanwhile : Control D V → Control D V) (now : ℕ) (s : Control D V) (w : Window)
      → first_where (is_scope (hash_secret scope)) s.windows ≡ some w
      → now < w.window_started_at + minute
      → w.request_count < limit
      → limit_attempt meanwhile (hash_secret scope) limit now s
        ≡ (Outcome.returned tt, counted_on w s)
  unfolding limit_attempt gets ◌>>=◌ limited
  counted_next meanwhile now s w f h k =
      ap (λ o. limited meanwhile (hash_secret scope) limit now o s) f
      ∙ count_request-free now s w h k

  -- A request that finds no row, and whose INSERT then meets the row of another, is not refused but
  -- counted on that row, if its window runs at the second attempt and has room.
  pub enforce_rate_limit-retried :
      (meanwhile : ℕ → Control D V → Control D V) (clock : ℕ → ℕ) (s : Control D V) (w : Window)
      → first_where (is_scope (hash_secret scope)) s.windows ≡ none
      → first_where (is_scope (hash_secret scope)) (meanwhile 0 s).windows ≡ some w
      → clock 1 < w.window_started_at + minute
      → w.request_count < limit
      → enforce_rate_limit hash_secret meanwhile scope limit clock s
        ≡ (Outcome.returned tt, counted_on w (meanwhile 0 s))
  unfolding enforce_rate_limit unless_integrity_error try_except
  enforce_rate_limit-retried meanwhile clock s w f g h k =
      ap (λ o. handled o (λ e. if is_integrity e then second else raise e))
        (collided (meanwhile 0) (clock 0) s w f g)
      ∙ ap (λ o. handled o (λ e. if is_integrity e then raise rate_limited else raise e))
          (counted_next (meanwhile 1) (clock 1) (meanwhile 0 s) w g h k)
    where
      second : Action (Control D V) Failure (Unit {0})
      second =
          unless_integrity_error (limit_attempt (meanwhile 1) (hash_secret scope) limit (clock 1))
            (raise rate_limited)
