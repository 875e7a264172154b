-- ===== src/Base/Rows.antt =====
-- Tables whose rows are found by a test: SELECT … LIMIT 1, the UPDATE of the row found, and DELETE.
use mathlib.Core.Path.{◌≡◌}
use mathlib.Core.Bool.{Bool, true}
use mathlib.Core.Option.{Option, none, some}
use mathlib.Core.List.{List, [], ◌∷◌}
use native.Mathlib.Omega.{arith}
use offline_reels.Base.Tests.{if◌then◌else◌}

module _ {ℓ} {A : Type ℓ} where
  unfoldable pub first_where : (A → Bool) → List A → Option A
  first_where p [] = none
  first_where p (x ∷ xs) = if p x then some x else first_where p xs

  -- The first row that passes the test becomes `r`.
  unfoldable pub put_where : (A → Bool) → A → List A → List A
  put_where p r [] = []
  put_where p r (x ∷ xs) = if p x then r ∷ xs else x ∷ put_where p r xs

  unfoldable pub keep_where : (A → Bool) → List A → List A
  keep_where p [] = []
  keep_where p (x ∷ xs) = let rest = keep_where p xs in if p x then x ∷ rest else rest

  -- The row that was found and is written is found again.
  pub first_where-put_where :
      (p q : A → Bool) (r r' : A) (xs : List A)
      → first_where p xs ≡ some r
      → q r ≡ true
      → p r' ≡ true
      → first_where p (put_where q r' xs) ≡ some r'
  unfolding first_where put_where
  first_where-put_where p q r r' [] f h k = ground arith
  first_where-put_where p q r r' (x ∷ xs) f h k = ground (arith, first_where-put_where p q r r' xs)

  pub test-first_where :
      (p : A → Bool) (r : A) (xs : List A) → first_where p xs ≡ some r → p r ≡ true
  unfolding first_where
  test-first_where p r [] f = ground arith
  test-first_where p r (x ∷ xs) f = ground (arith, test-first_where p r xs)

  -- A row that is kept and found first among all is found first among those that are kept.
  pub first_where-keep_where :
      (p q : A → Bool) (r : A) (xs : List A)
      → first_where p xs ≡ some r
      → q r ≡ true
      → first_where p (keep_where q xs) ≡ some r
  unfolding first_where keep_where
  first_where-keep_where p q r [] f h = ground arith
  first_where-keep_where p q r (x ∷ xs) f h = ground (arith, first_where-keep_where p q r xs)

  pub first_where-head :
      (p : A → Bool) (r : A) (xs : List A) → p r ≡ true → first_where p (r ∷ xs) ≡ some r
  unfolding first_where
  first_where-head p r xs h = ground arith
