-- ===== src/Action.antt =====
-- Python code that mutates what it can reach and may raise: what was written before a raise stays
-- written. `try_except` is `try: … except`, and `finally` runs on every way out.
pub mod Keeps
pub mod Lands
use offline_reels.Base.{Bool, true, false, Option, none, some}

pub data Outcome (E A : Type 0) : Type 0 where
  returned : A → Outcome E A
  raised : E → Outcome E A

abbrev pub Action : Type 0 → Type 0 → Type 0 → Type 0
Action S E A = S → Outcome E A × S

module _ {S E A : Type 0} where
  unfoldable pub pure : A → Action S E A
  pure a s = (returned a, s)

  unfoldable pub raise : E → Action S E A
  raise e s = (raised e, s)

  unfoldable pub gets : (S → A) → Action S E A
  gets f s = (returned (f s), s)

  abbrev pub handled : Outcome E A × S → (E → Action S E A) → Outcome E A × S
  handled (returned a, s) h = (returned a, s)
  handled (raised e, s) h = h e s

  unfoldable pub try_except : Action S E A → (E → Action S E A) → Action S E A
  try_except m h s = handled (m s) h

  abbrev pub after_all : Outcome E A → Outcome E (Unit {0}) × S → Outcome E A × S
  after_all r (returned u, s) = (r, s)
  after_all r (raised e, s) = (raised e, s)

  -- What `k` raises takes the place of the outcome.
  unfoldable pub finally : Action S E A → Action S E (Unit {0}) → Action S E A
  finally m k s = let (r, s') = m s in after_all r (k s')

unfoldable pub modify : {S E : Type 0} → (S → S) → Action S E (Unit {0})
modify f s = (returned tt, f s)

module _ {S E A B : Type 0} where
  abbrev pub go_on : Outcome E A × S → (A → Action S E B) → Outcome E B × S
  go_on (returned a, s) f = f a s
  go_on (raised e, s) f = (raised e, s)

infixl 5 ◌>>=◌ ◌>>◌
unfoldable pub ◌>>=◌ : {S E A B : Type 0} → Action S E A → (A → Action S E B) → Action S E B
◌>>=◌ m f s = go_on (m s) f

abbrev pub ◌>>◌ : {S E B : Type 0} → Action S E (Unit {0}) → Action S E B → Action S E B
m >> k = m >>= λ _. k
