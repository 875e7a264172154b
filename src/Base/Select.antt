-- ===== src/Base/Select.antt =====
-- `SELECT … WHERE p ORDER BY created_at, id LIMIT 1` over a table.
use Prim.Native.Nat.{ℕ}
use mathlib.Core.Path.{◌≡◌}
use mathlib.Core.Logic.{inl, inr}
use mathlib.Core.Bool.{Bool, true, false, ◌&&◌, ◌||◌}
use mathlib.Core.Option.{Option, none, some}
use mathlib.Core.List.{List, [], ◌∷◌}
use native.Mathlib.Omega.{arith}
use offline_reels.Base.Tests.{◌=ℕ◌, ltb, if◌then◌else◌, Option-cases}
use offline_reels.Base.Table.{find, IsKeyed}

module _ {A : Type 0} (created_at key : A → ℕ) where
  -- ORDER BY created_at, id
  abbrev pub before : A → A → Bool
  before x y =
      ltb (created_at x) (created_at y) || created_at x =ℕ created_at y && ltb (key x) (key y)

  abbrev pub earlier : A → Option A → Option A
  earlier x none = some x
  earlier x (some y) = if before y x then some y else some x

  unfoldable pub select_first : (A → Bool) → List A → Option A
  select_first p [] = none
  select_first p (x ∷ xs) = let rest = select_first p xs in if p x then earlier x rest else rest

  -- The chosen row is the row with its key, and it passes the test.
  pub select_first-find :
      (p : A → Bool) (xs : List A) (x : A)
      → IsKeyed key xs
      → select_first p xs ≡ some x
      → (find key (key x) xs ≡ some x) × (p x ≡ true)
  unfolding select_first find
  select_first-find p [] x k h = ground arith
  select_first-find p (y ∷ ys) x k h = ground (arith, k.0, select_first-find p ys x k.1)

  -- Nothing is chosen only if no row passes the test.
  pub select_first-none :
      (p : A → Bool) (xs : List A) (k : ℕ) (y : A)
      → select_first p xs ≡ none
      → find key k xs ≡ some y
      → p y ≡ false
  unfolding select_first find
  select_first-none p [] k y h f = ground arith
  select_first-none p (w ∷ ws) k y h f = ground (arith, select_first-none p ws k y)

  -- No row that passes the test comes before the chosen one.
  pub select_first-earliest :
      (p : A → Bool) (xs : List A) (x : A) (k : ℕ) (y : A)
      → select_first p xs ≡ some x
      → find key k xs ≡ some y
      → p y ≡ true
      → before y x ≡ false
  unfolding select_first find
  select_first-earliest p [] x k y h f t = ground arith
  select_first-earliest p (w ∷ ws) x k y h f t = elim (Option-cases (select_first p ws)) [
    | inl e ↦ ground (arith, select_first-none p ws k y e)
    | inr (z, e) ↦ ground (arith, select_first-earliest p ws z k y e)
  ]
