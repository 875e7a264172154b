-- ===== src/Media/PythonInt.antt =====
-- `str.strip()` and `int(text)` on texts of the characters up to U+00FF, which is what an HTTP
-- header is decoded to, given as code points. No text with a minus sign is read here.
use offline_reels.Base.{
  ℕ, ◌+◌, ◌-◌, ◌*◌, Bool, true, false, ◌&&◌, ◌||◌, not, Option, none, some, List, [], ◌∷◌, leb,
  ◌=ℕ◌, if◌then◌else◌,
}

-- str.isspace
unfoldable pub is_space : ℕ → Bool
is_space c = leb 9 c && leb c 13 || leb 28 c && leb c 32 || c =ℕ 133 || c =ℕ 160

unfoldable pub lstrip : List ℕ → List ℕ
unfolding is_space
lstrip [] = []
lstrip (c ∷ cs) = elim (is_space c) [ true ↦ lstrip cs | false ↦ c ∷ cs ]

abbrev keep_before : ℕ → List ℕ → List ℕ
keep_before c [] = if is_space c then [] else c ∷ []
keep_before c (d ∷ ds) = c ∷ d ∷ ds

unfoldable pub rstrip : List ℕ → List ℕ
unfolding is_space
rstrip [] = []
rstrip (c ∷ cs) = keep_before c (rstrip cs)

unfoldable pub strip : List ℕ → List ℕ
unfolding lstrip rstrip
strip cs = rstrip (lstrip cs)

unfoldable pub is_digit : ℕ → Bool
is_digit c = leb 48 c && leb c 57

-- sys.get_int_max_str_digits()
abbrev pub max_str_digits : ℕ
max_str_digits = 4300

-- The value and the number of the digits read so far, and whether a digit must follow.
unfoldable pub read_digits : ℕ → ℕ → Bool → List ℕ → Option ℕ
unfolding is_digit
read_digits value count must [] =
    if must || not (leb count max_str_digits) then none else some value
read_digits value count must (c ∷ cs) = elim (is_digit c) [
  | true ↦ read_digits (value * 10 + (c - 48)) (count + 1) false cs
  | false ↦ elim (c =ℕ 95 && not must) [ true ↦ read_digits value count true cs | false ↦ none ]
]

abbrev signless : List ℕ → List ℕ
signless [] = []
signless (c ∷ cs) = if c =ℕ 43 then cs else c ∷ cs

-- `int(text)`, or nothing where it raises ValueError.
unfoldable pub int_of : List ℕ → Option ℕ
unfolding strip read_digits
int_of cs = read_digits 0 0 true (signless (strip cs))
