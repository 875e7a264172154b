-- ===== src/Base/Table.antt =====
-- A database table as the list of its rows, read and written through the primary key.
use Prim.Native.Nat.{ℕ, ◌+◌}
use mathlib.Core.Path.{◌≡◌, subst}
use mathlib.Core.Logic.{inl, inr}
use mathlib.Core.Bool.{Bool, true, false}
use mathlib.Core.Option
use mathlib.Core.Option.{Option, none, some}
use mathlib.Core.List.{List, [], ◌∷◌}
use native.Mathlib.Omega.{arith}
use offline_reels.Base.Tests.{◌=ℕ◌, if◌then◌else◌, Bool-cases}
use offline_reels.Base.Lists.{count_if}

module _ {ℓ} {A : Type ℓ} (key : A → ℕ) where
  -- session.get(Row, k)
  unfoldable pub find : ℕ → List A → Option A
  find k [] = none
  find k (x ∷ xs) = if key x =ℕ k then some x else find k xs

  -- What the unit of work writes: the row with the primary key of `r` becomes `r`.
  unfoldable pub put : A → List A → List A
  put r [] = []
  put r (x ∷ xs) = if key x =ℕ key r then r ∷ xs else x ∷ put r xs

  -- The primary key identifies a row.
  abbrev pub IsKeyed : List A → Type ℓ
  IsKeyed [] = Unit
  IsKeyed (x ∷ xs) = (find (key x) xs ≡ none) × IsKeyed xs

  pub find-put :
      (r : A) (j : ℕ) (xs : List A)
      → find j (put r xs) ≡ (if key r =ℕ j then Option.map (λ _. r) (find j xs) else find j xs)
  unfolding find put
  find-put r j [] = ground arith
  find-put r j (x ∷ xs) = ground (arith, find-put r j xs)

  pub key-find : (k : ℕ) (xs : List A) (x : A) → find k xs ≡ some x → key x ≡ k
  unfolding find
  key-find k [] x h = ground arith
  key-find k (y ∷ ys) x h = ground (arith, key-find k ys x)

  pub IsKeyed-put : (r : A) (xs : List A) → IsKeyed xs → IsKeyed (put r xs)
  unfolding find put
  IsKeyed-put r [] h = tt
  IsKeyed-put r (x ∷ xs) h = ground (arith, find-put r (key x) xs, IsKeyed-put r xs h.1)

  -- One row changes, and so a count changes by that row.
  pub count_if-put :
      (p : A → Bool) (r : A) (xs : List A) (x : A)
      → find (key r) xs ≡ some x
      → count_if p (put r xs) + (if p x then 1 else 0) ≡ count_if p xs + (if p r then 1 else 0)
  unfolding find put count_if
  count_if-put p r [] y h = ground arith
  count_if-put p r (x ∷ xs) y h = ground (arith, count_if-put p r xs y)

  -- What holds of the written row and of every old row holds of every row.
  pub find-put_all {κ} :
      (P : A → Type κ) (r : A) (xs : List A)
      → P r
      → ((k : ℕ) (x : A) → find k xs ≡ some x → P x)
      → (k : ℕ) (x : A) → find k (put r xs) ≡ some x
      → P x
  find-put_all P r xs new old k x h = elim (Bool-cases (key r =ℕ k)) [
    | inl e ↦ subst P (written e) new
    | inr e ↦ old k x (kept e)
  ]
    where
      written : (key r =ℕ k) ≡ true → r ≡ x
      written e = ground (arith, find-put r k xs)

      kept : (key r =ℕ k) ≡ false → find k xs ≡ some x
      kept e = ground (arith, find-put r k xs)

  pub find-put-none : (r : A) (k : ℕ) (xs : List A) → find k xs ≡ none → find k (put r xs) ≡ none
  find-put-none r k xs h = ground (arith, find-put r k xs)

  pub find-cons_all {κ} :
      (P : A → Type κ) (r : A) (xs : List A)
      → P r
      → ((k : ℕ) (x : A) → find k xs ≡ some x → P x)
      → (k : ℕ) (x : A) → find k (r ∷ xs) ≡ some x
      → P x
  unfolding find
  find-cons_all P r xs new old k x h = elim (Bool-cases (key r =ℕ k)) [
    | inl e ↦ subst P (first e) new
    | inr e ↦ old k x (rest e)
  ]
    where
      first : (key r =ℕ k) ≡ true → r ≡ x
      first e = ground arith

      rest : (key r =ℕ k) ≡ false → find k xs ≡ some x
      rest e = ground arith
