-- ===== src/Base/Text.antt =====
-- Texts as lists of code points.
use Prim.Native.Nat.{ℕ}
use Prim.Native.Char.{code}
use Prim.Native.String.{String, ◌++◌}
use mathlib.Core.Bool.{Bool, true, false}
use mathlib.Core.Option.{Option, none, some}
use mathlib.Core.List.{List, [], ◌∷◌}
use offline_reels.Base.Tests.{leb, ◌=ℕ◌, if◌then◌else◌}
use offline_reels.Base.Lists.{length}

-- The code points of a text.
abbrev pub codes : String → List ℕ
codes String.[] = []
codes (String.◌∷◌ c s) = code c ∷ codes s

unfoldable pub followed_by : String → String → String
followed_by s t = s ++ t

-- Has the text at most the given number of characters?
unfoldable pub fits : ℕ → String → Bool
fits n s = leb (length (codes s)) n

has_nonspace : List ℕ → Bool
has_nonspace [] = false
has_nonspace (c ∷ cs) = if c =ℕ 32 then has_nonspace cs else true

-- length(trim(s)) > 0
unfoldable pub nonblank : String → Bool
unfolding has_nonspace
nonblank s = has_nonspace (codes s)

-- A NULL passes every check.
unfoldable pub optional : {A : Type 0} → (A → Bool) → Option A → Bool
optional p none = true
optional p (some a) = p a
