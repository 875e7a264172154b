-- ===== src/Action/Keeps.antt =====
-- Properties of the state that an action keeps, whether it returns or raises:
-- one rule for each way to build an action.
use offline_reels.Base.{Bool, true, false, Option, none, some, if◌then◌else◌}
use offline_reels.Action.{
  Outcome, returned, raised, Action, pure, raise, gets, try_except, handled, finally, after_all,
  modify, ◌>>=◌, go_on,
}

pub record Keeps {ℓ} {S E A : Type 0} (P : S → Type ℓ) (m : Action S E A) : Type ℓ where
  pub keeps : (s : S) → P s → P (m s).1

module _ {ℓ} {S E A : Type 0} {P : S → Type ℓ} where
  pub Keeps-pure : (a : A) → Keeps {E = E} P (pure a)
  unfolding pure
  Keeps-pure a = record { keeps = λ s p. p }

  pub Keeps-raise : (e : E) → Keeps {A = A} P (raise e)
  unfolding raise
  Keeps-raise e = record { keeps = λ s p. p }

  pub Keeps-gets : (f : S → A) → Keeps {E = E} P (gets f)
  unfolding gets
  Keeps-gets f = record { keeps = λ s p. p }

  pub Keeps-test :
      (b : Bool) (m n : Action S E A) → Keeps P m → Keeps P n → Keeps P (if b then m else n)
  Keeps-test true m n km kn = km
  Keeps-test false m n km kn = kn

  pub Keeps-try_except :
      (m : Action S E A) (h : E → Action S E A)
      → Keeps P m
      → ((e : E) → Keeps P (h e))
      → Keeps P (try_except m h)
  unfolding try_except
  Keeps-try_except m h km kh = record { keeps = λ s p. caught (m s) (km.keeps s p) }
    where
      caught : (r : Outcome E A × S) → P r.1 → P (handled r h).1
      caught (returned a, s) p = p
      caught (raised e, s) p = (kh e).keeps s p

  pub Keeps-finally :
      (m : Action S E A) (k : Action S E (Unit {0})) → Keeps P m → Keeps P k → Keeps P (finally m k)
  unfolding finally
  Keeps-finally m k km kk = record {
    keeps = λ s p. out (m s).0 (k (m s).1) (kk.keeps (m s).1 (km.keeps s p));
  }
    where
      out : (r : Outcome E A) (t : Outcome E (Unit {0}) × S) → P t.1 → P (after_all r t).1
      out r (returned u, s) p = p
      out r (raised e, s) p = p

module _ {ℓ} {S E A B : Type 0} {P : S → Type ℓ} where
  pub Keeps-bind :
      (m : Action S E A) (f : A → Action S E B)
      → Keeps P m
      → ((a : A) → Keeps P (f a))
      → Keeps P (m >>= f)
  unfolding ◌>>=◌
  Keeps-bind m f km kf = record { keeps = λ s p. on (m s) (km.keeps s p) }
    where
      on : (t : Outcome E A × S) → P t.1 → P (go_on t f).1
      on (returned a, s) p = (kf a).keeps s p
      on (raised e, s) p = p

  pub Keeps-option :
      (o : Option A) (m : Action S E B) (f : A → Action S E B)
      → Keeps P m
      → ((a : A) → Keeps P (f a))
      → Keeps P (elim o as (λ _. Action S E B) [ none ↦ m | some a ↦ f a ])
  Keeps-option none m f km kf = km
  Keeps-option (some a) m f km kf = kf a

pub Keeps-modify {ℓ} :
    {S E : Type 0} {P : S → Type ℓ} (f : S → S)
    → ((s : S) → P s → P (f s))
    → Keeps {E = E} P (modify f)
unfolding modify
Keeps-modify f h = record { keeps = λ s p. h s p }

pub ruleset keeps_rules = (
  Keeps-pure, Keeps-raise, Keeps-gets, Keeps-test, Keeps-try_except, Keeps-finally, Keeps-bind,
  Keeps-option,
)
