-- ===== src/Management/Secrets.antt =====
-- What a pairing secret and a session token made, and how often.
use mathlib.Core.Path.{refl}
use offline_reels.Base.{
  ℕ, ◌+◌, ◌<◌, ◌≡◌, true, false, Option, none, some, String, List, ◌∷◌, ◌==◌, string_eq, nat_eq,
  arith, ap, ◌∙◌,
}
use offline_reels.Base.Rows.{
  first_where, put_where, first_where-put_where, test-first_where, first_where-keep_where,
  first_where-head,
}
use offline_reels.Action.{Outcome, pure, raise, gets, modify, ◌>>=◌}
use offline_reels.Management.Tables.{Control, Device, Challenge, cleanup_expired, begin, ended}
use offline_reels.Management.Access.{
  Settings, find_session, has_token, opened, is_revoked, session_expired_error,
}
use offline_reels.Management.Pairing.{
  exchange, Drawn, pairing_unavailable, is_consumed, has_secret, redeem, consume, add_device,
  new_device,
}

-- A block that returns has its writes.
pub returned-ended :
    {S E A : Type 0} (s s' : S) (a : A) (o : Outcome E A × S)
    → ended s o ≡ (Outcome.returned a, s')
    → o ≡ (Outcome.returned a, s')
returned-ended s s' a (Outcome.returned b, t) h = h
returned-ended s s' a (Outcome.raised e, t) h = absurd (ground arith)

-- A session that has not expired is found after the cleanup as before it.
pub kept-session :
    {D V : Type 0} (token_hash : String) (at : ℕ) (d : Device) (s : Control D V)
    → first_where (has_token token_hash) s.devices ≡ some d
    → at < d.expires_at
    → first_where (has_token token_hash) (cleanup_expired at s).devices ≡ some d
unfolding cleanup_expired
kept-session token_hash at d s f h =
    first_where-keep_where (has_token token_hash) _ d s.devices f (ground arith)

module _ {D V : Type 0} (hash_secret : String → String) (secret : String) where
  -- The challenge that an exchange has used.
  record IsUsed (s : Control D V) : Type 0 where
    challenge : Challenge
    found : first_where (has_secret (hash_secret secret)) s.challenges ≡ some challenge
    consumed : is_consumed challenge ≡ true

  redeem-refused :
      (drawn : Drawn) (ttl now : ℕ) (c : Challenge) (s : Control D V)
      → is_consumed c ≡ true
      → redeem hash_secret drawn ttl now (some c) s ≡ (Outcome.raised pairing_unavailable, s)
  unfolding redeem raise
  redeem-refused drawn ttl now c s h = ground arith

  IsUsed-refused :
      (drawn : Drawn) (ttl now : ℕ) (s : Control D V)
      → IsUsed s
      → exchange hash_secret secret drawn ttl now s ≡ (Outcome.raised pairing_unavailable, s)
  unfolding exchange begin gets ◌>>=◌
  IsUsed-refused drawn ttl now s u =
      ap (λ o. ended s (redeem hash_secret drawn ttl now o s)) u.found
      ∙ ap (ended s) (redeem-refused drawn ttl now u.challenge s u.consumed)

  redeem-consumed :
      (drawn : Drawn) (ttl now : ℕ) (c : Challenge) (s s' : Control D V) (d : Device)
      → redeem hash_secret drawn ttl now (some c) s ≡ (Outcome.returned d, s')
      → s'.challenges
        ≡ put_where (λ q. q.id == c.id) (record c { consumed_at = some now }) s.challenges
  unfolding redeem consume add_device ◌>>=◌ raise pure
  redeem-consumed drawn ttl now c s s' d h = ground arith

  raised_none :
      (drawn : Drawn) (ttl now : ℕ) (s s' : Control D V) (d : Device)
      → redeem hash_secret drawn ttl now none s ≡ (Outcome.returned d, s')
      → ⊥
  unfolding redeem raise
  raised_none drawn ttl now s s' d h = ground arith

  -- What the block has done where it returns.
  exchange-redeem :
      (drawn : Drawn) (ttl now : ℕ) (s s' : Control D V) (d : Device)
      → exchange hash_secret secret drawn ttl now s ≡ (Outcome.returned d, s')
      → redeem hash_secret drawn ttl now
          (first_where (has_secret (hash_secret secret)) s.challenges)
          s
        ≡ (Outcome.returned d, s')
  unfolding exchange gets ◌>>=◌ begin
  exchange-redeem drawn ttl now s s' d h =
      returned-ended s s' d
        (redeem hash_secret drawn ttl now
          (first_where (has_secret (hash_secret secret)) s.challenges) s)
        h

  exchange-IsUsed :
      (drawn : Drawn) (ttl now : ℕ) (s s' : Control D V) (d : Device)
      → exchange hash_secret secret drawn ttl now s ≡ (Outcome.returned d, s')
      → IsUsed s'
  unfolding exchange gets ◌>>=◌
  exchange-IsUsed drawn ttl now s s' d h =
      at (first_where (has_secret (hash_secret secret)) s.challenges) refl
        (exchange-redeem drawn ttl now s s' d h)
    where
      at :
          (o : Option Challenge)
          → first_where (has_secret (hash_secret secret)) s.challenges ≡ o
          → redeem hash_secret drawn ttl now o s ≡ (Outcome.returned d, s')
          → IsUsed s'
      at none f k = absurd (raised_none drawn ttl now s s' d k)
      at (some c) f k = record {
        challenge = record c { consumed_at = some now };
        found =
            ap (first_where (has_secret (hash_secret secret)))
              (redeem-consumed drawn ttl now c s s' d k)
            ∙ first_where-put_where _ _ c (record c { consumed_at = some now }) s.challenges f
                ((nat_eq.equal_iff c.id c.id).1 refl) (test-first_where _ c s.challenges f);
        consumed = refl;
      }

  -- A pairing secret is exchanged at most once: in the tables that an exchange leaves where it
  -- returns, another one with the same secret raises 401 and changes nothing, whenever it comes and
  -- whatever it draws.
  pub exchange-once :
      (drawn drawn' : Drawn) (ttl ttl' now now' : ℕ) (s s' : Control D V) (d : Device)
      → exchange hash_secret secret drawn ttl now s ≡ (Outcome.returned d, s')
      → exchange hash_secret secret drawn' ttl' now' s' ≡ (Outcome.raised pairing_unavailable, s')
  exchange-once drawn drawn' ttl ttl' now now' s s' d h =
      IsUsed-refused drawn' ttl' now' s' (exchange-IsUsed drawn ttl now s s' d h)

  -- The session that an exchange has made.
  record IsOpen (drawn : Drawn) (expires_at : ℕ) (s : Control D V) (d : Device) : Type 0 where
    others : List Device
    stands : s.devices ≡ d ∷ others
    keyed : has_token (hash_secret drawn.token) d ≡ true
    expiry : d.expires_at ≡ expires_at
    unrevoked : is_revoked d ≡ false

  redeem-IsOpen :
      (drawn : Drawn) (ttl now : ℕ) (o : Option Challenge) (s s' : Control D V) (d : Device)
      → redeem hash_secret drawn ttl now o s ≡ (Outcome.returned d, s')
      → IsOpen drawn (now + ttl) s' d
  unfolding redeem consume add_device ◌>>=◌ raise pure
  redeem-IsOpen drawn ttl now none s s' d h = absurd (ground arith)
  redeem-IsOpen drawn ttl now (some c) s s' d h =
      let same : d ≡ new_device hash_secret drawn c (now + ttl) = ground arith in
      record {
        others = s.devices;
        stands = ground arith;
        keyed =
            ap (has_token (hash_secret drawn.token)) same
            ∙ (string_eq.equal_iff (hash_secret drawn.token) (hash_secret drawn.token)).1 refl;
        expiry = ap (λ d. d.expires_at) same;
        unrevoked = ap is_revoked same;
      }

  module _ (lower : String → String) (settings : Settings) where
    opened-returns :
        (later : ℕ) (d : Device) (s : Control D V)
        → is_revoked d ≡ false
        → later < d.expires_at
        → opened hash_secret lower settings later (some d) s ≡ (Outcome.returned d, s)
    unfolding opened pure
    opened-returns later d s h k = ground arith

    pub opened-refuses :
        (later : ℕ) (d : Device) (s : Control D V)
        → is_revoked d ≡ true
        → opened hash_secret lower settings later (some d) s
          ≡ (Outcome.raised session_expired_error, s)
    unfolding opened raise
    opened-refuses later d s h = ground arith

    -- In the tables that an exchange leaves, the token that it gives out opens the session that it
    -- has made, until that expires.
    pub exchange-find_session :
        (drawn : Drawn) (ttl now at later : ℕ) (s s' : Control D V) (d : Device)
        → exchange hash_secret secret drawn ttl now s ≡ (Outcome.returned d, s')
        → at < now + ttl
        → later < now + ttl
        → find_session hash_secret lower settings drawn.token at later s'
          ≡ (Outcome.returned d, cleanup_expired at s')
    unfolding exchange find_session gets ◌>>=◌ modify begin
    exchange-find_session drawn ttl now at later s s' d h before before' =
        let made = redeem-IsOpen drawn ttl now _ s s' d (exchange-redeem drawn ttl now s s' d h) in
        ap (λ o. ended s' (opened hash_secret lower settings later o (cleanup_expired at s')))
          (kept-session (hash_secret drawn.token) at d s' (found made) (fresh made))
        ∙ ap (ended s') (opened-returns later d (cleanup_expired at s') made.unrevoked (until made))
      where
        found :
            IsOpen drawn (now + ttl) s' d
            → first_where (has_token (hash_secret drawn.token)) s'.devices ≡ some d
        found made =
            ap (first_where (has_token (hash_secret drawn.token))) made.stands
            ∙ first_where-head (has_token (hash_secret drawn.token)) d made.others made.keyed

        fresh : IsOpen drawn (now + ttl) s' d → at < d.expires_at
        fresh made = let e = made.expiry in omega arith

        until : IsOpen drawn (now + ttl) s' d → later < d.expires_at
        until made = let e = made.expiry in omega arith
