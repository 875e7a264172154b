-- ===== src/Action/Lands.antt =====
-- Where an action gets to: from a state with `P`, a returned value leaves a state with `R` of it, and
-- an exception one with `T`.
use offline_reels.Base.{◌≡◌, refl, Bool, true, false, if◌then◌else◌}
use offline_reels.Action.{
  Outcome, returned, raised, Action, pure, raise, try_except, handled, finally, after_all, ◌>>=◌,
  go_on,
}
use offline_reels.Action.Keeps.{Keeps}

abbrev pub Landed {ℓ} :
    {S E A : Type 0} → (A → S → Type ℓ) → (S → Type ℓ) → Outcome E A × S → Type ℓ
Landed R T (returned a, s) = R a s
Landed R T (raised e, s) = T s

pub record Lands {ℓ} {S E A : Type 0} (P : S → Type ℓ) (m : Action S E A) (R : A → S → Type ℓ)
    (T : S → Type ℓ) : Type ℓ where
  pub lands : (s : S) → P s → Landed R T (m s)

module _ {ℓ} {S E A : Type 0} {P T : S → Type ℓ} {R : A → S → Type ℓ} where
  pub Lands-kept :
      {m : Action S E A}
      → Keeps P m
      → ((a : A) (s : S) → P s → R a s)
      → ((s : S) → P s → T s)
      → Lands P m R T
  Lands-kept {m = m} k r t = record { lands = λ s p. on (m s) (k.keeps s p) }
    where
      on : (o : Outcome E A × S) → P o.1 → Landed R T o
      on (returned a, s) p = r a s p
      on (raised e, s) p = t s p

  pub Lands-pure : (a : A) → ((s : S) → P s → R a s) → Lands {E = E} P (pure a) R T
  unfolding pure
  Lands-pure a h = record { lands = h }

  pub Lands-raise : (e : E) → ((s : S) → P s → T s) → Lands P (raise e) R T
  unfolding raise
  Lands-raise e h = record { lands = h }

  pub Lands-test :
      (b : Bool) {m n : Action S E A}
      → (b ≡ true → Lands P m R T)
      → (b ≡ false → Lands P n R T)
      → Lands P (if b then m else n) R T
  Lands-test true hm hn = hm refl
  Lands-test false hm hn = hn refl

  -- The same from less, to more.
  pub Lands-mono :
      {P' T' : S → Type ℓ} {R' : A → S → Type ℓ} {m : Action S E A}
      → ((s : S) → P' s → P s)
      → ((a : A) (s : S) → R a s → R' a s)
      → ((s : S) → T s → T' s)
      → Lands P m R T
      → Lands P' m R' T'
  Lands-mono {P' = P'} {T' = T'} {R' = R'} {m = m} p r t h = record {
    lands = λ s q. on (m s) (h.lands s (p s q));
  }
    where
      on : (o : Outcome E A × S) → Landed R T o → Landed R' T' o
      on (returned a, s) q = r a s q
      on (raised e, s) q = t s q

  pub Lands-try_except :
      {T' : S → Type ℓ} {m : Action S E A} {h : E → Action S E A}
      → Lands P m R T
      → ((e : E) → Lands T (h e) R T')
      → Lands P (try_except m h) R T'
  unfolding try_except
  Lands-try_except {T' = T'} {m = m} {h = h} km kh = record {
    lands = λ s p. on (m s) (km.lands s p);
  }
    where
      on : (o : Outcome E A × S) → Landed R T o → Landed R T' (handled o h)
      on (returned a, s) p = p
      on (raised e, s) p = (kh e).lands s p

  pub Lands-finally :
      {m : Action S E A} {k : Action S E (Unit {0})}
      → Lands P m R T
      → ((a : A) → Keeps (R a) k)
      → Keeps T k
      → ((a : A) (s : S) → R a s → T s)
      → Lands P (finally m k) R T
  unfolding finally
  Lands-finally {m = m} {k = k} km kr kt up = record { lands = λ s p. on (m s) (km.lands s p) }
    where
      out_returned :
          (a : A) (o : Outcome E (Unit {0}) × S) → R a o.1 → Landed R T (after_all (returned a) o)
      out_returned a (returned u, s) p = p
      out_returned a (raised e, s) p = up a s p

      out_raised :
          (e : E) (o : Outcome E (Unit {0}) × S) → T o.1 → Landed R T (after_all (raised e) o)
      out_raised e (returned u, s) p = p
      out_raised e (raised e', s) p = p

      on : (o : Outcome E A × S) → Landed R T o → Landed R T (after_all o.0 (k o.1))
      on (returned a, s) p = out_returned a (k s) ((kr a).keeps s p)
      on (raised e, s) p = out_raised e (k s) (kt.keeps s p)

-- What lands where it started has kept it.
pub Keeps-Lands {ℓ} :
    {S E A : Type 0} {P : S → Type ℓ} {m : Action S E A} → Lands P m (λ _. P) P → Keeps P m
Keeps-Lands {E = E} {A = A} {P = P} {m = m} h = record { keeps = λ s p. on (m s) (h.lands s p) }
  where
    on : (o : Outcome E A × _) → Landed (λ _. P) P o → P o.1
    on (returned a, s) p = p
    on (raised e, s) p = p

module _ {ℓ} {S E A B : Type 0} {P T : S → Type ℓ} {R : A → S → Type ℓ} {R' : B → S → Type ℓ} where
  pub Lands-bind :
      {m : Action S E A} {f : A → Action S E B}
      → Lands P m R T
      → ((a : A) → Lands (R a) (f a) R' T)
      → Lands P (m >>= f) R' T
  unfolding ◌>>=◌
  Lands-bind {m = m} {f = f} km kf = record { lands = λ s p. on (m s) (km.lands s p) }
    where
      on : (o : Outcome E A × S) → Landed R T o → Landed R' T (go_on o f)
      on (returned a, s) p = (kf a).lands s p
      on (raised e, s) p = p

-- What the last action brings about in any state holds at the end, whichever way it is left.
pub finally_last {ℓ} :
    {S E A : Type 0} {P T : S → Type ℓ} (m : Action S E A) (k : Action S E (Unit {0}))
    → ((s : S) → T s)
    → Lands T k (λ _. P) P
    → (s : S) → P (finally m k s).1
unfolding finally
finally_last {S = S} {E = E} {A = A} {P = P} m k start h s =
    at (m s).0 (k (m s).1) (h.lands (m s).1 (start (m s).1))
  where
    at :
        (r : Outcome E A) (o : Outcome E (Unit {0}) × S) → Landed (λ _. P) P o → P (after_all r o).1
    at r (returned u, t) p = p
    at r (raised e, t) p = p
