-- ===== src/Management/Revocation.antt =====
-- A revoked session opens nothing.
use offline_reels.Base.{
  ℕ, ◌<◌, ◌≡◌, refl, Bool, true, some, String, List, ◌==◌, string_eq, nat_eq, arith, Bool-cases,
  inl, inr, if◌then◌else◌, ap, ◌∙◌, subst, sym,
}
use offline_reels.Base.Rows.{first_where, put_where, first_where-put_where, test-first_where}
use offline_reels.Action.{Outcome, pure, gets, modify, ◌>>=◌}
use offline_reels.Management.Tables.{Control, Device, Failure, cleanup_expired, begin, ended}
use offline_reels.Management.Access.{
  Settings, find_session, opened, is_revoked, has_token, revoke_locked, revoke_found,
  session_expired_error,
}
use offline_reels.Management.Secrets.{kept-session, opened-refuses}

-- The row of the device `d` after it has been revoked.
record IsRevoked (token_hash : String) (d : Device) (devices : List Device) : Type 0 where
  row : Device
  found : first_where (has_token token_hash) devices ≡ some row
  revoked : is_revoked row ≡ true
  expiry : row.expires_at ≡ d.expires_at

module _ {D V : Type 0} where
  revoke_found-IsRevoked :
      (token_hash : String) (now : ℕ) (d : Device) (s : Control D V)
      → first_where (has_token token_hash) s.devices ≡ some d
      → IsRevoked token_hash d (revoke_found now (some d) s).1.devices
  unfolding revoke_found pure modify
  revoke_found-IsRevoked token_hash now d s f = elim (Bool-cases (is_revoked d)) [
    | inl r ↦ record {
      row = d;
      found = ap (λ b. first_where (has_token token_hash) (after b).1.devices) r ∙ f;
      revoked = r;
      expiry = refl;
    }
    | inr r ↦ record {
      row = record d { revoked_at = some now };
      found =
          ap (λ b. first_where (has_token token_hash) (after b).1.devices) r
          ∙ first_where-put_where (has_token token_hash) (λ q. q.id == d.id) d
              (record d { revoked_at = some now }) s.devices f ((nat_eq.equal_iff d.id d.id).1 refl)
              (test-first_where (has_token token_hash) d s.devices f);
      revoked = refl;
      expiry = refl;
    }
  ]
    where
      after : Bool → Outcome Failure (Unit {0}) × Control D V
      after b =
          (if b
              then pure tt
              else modify (λ s. record s {
                devices =
                    put_where (λ q. q.id == d.id) (record d { revoked_at = some now }) s.devices;
              }))
            s

  module _ (hash_secret lower : String → String) (settings : Settings) where
    refused :
        (token : String) (at later : ℕ) (d : Device) (t : Control D V)
        → IsRevoked (hash_secret token) d t.devices
        → at < d.expires_at
        → find_session hash_secret lower settings token at later t
          ≡ (Outcome.raised session_expired_error, t)
    unfolding find_session gets ◌>>=◌ modify begin
    refused token at later d t r before =
        ap (λ o. ended t (opened hash_secret lower settings later o (cleanup_expired at t)))
          (kept-session (hash_secret token) at r.row t r.found (let e = r.expiry in omega arith))
        ∙ ap (ended t) (
            opened-refuses hash_secret token lower settings later r.row (cleanup_expired at t)
              r.revoked)

    -- In the tables that a revocation leaves, the token of the revoked session opens it no more
    -- before its expiry either: the request is refused with 401 and writes nothing. The row of the
    -- session is the one that its id and its token hash select.
    pub revoke_locked-find_session :
        (token : String) (now at later : ℕ) (d : Device) (s : Control D V)
        → first_where (λ q. q.id == d.id) s.devices ≡ some d
        → first_where (has_token (hash_secret token)) s.devices ≡ some d
        → at < d.expires_at
        → find_session hash_secret lower settings token at later (revoke_locked d.id now s).1
          ≡ (Outcome.raised session_expired_error, (revoke_locked d.id now s).1)
    unfolding revoke_locked gets ◌>>=◌
    revoke_locked-find_session token now at later d s g f before =
        refused token at later d (revoke_locked d.id now s).1
          (subst (λ o. IsRevoked (hash_secret token) d (revoke_found now o s).1.devices) (sym g)
            (revoke_found-IsRevoked (hash_secret token) now d s f))
          before
