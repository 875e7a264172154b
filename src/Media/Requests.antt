-- ===== src/Media/Requests.antt =====
-- The requests that players send, `bytes=first-last` with plain decimal numbers.
use offline_reels.Base.{
  refl, ℕ, ◌+◌, ◌-◌, ◌*◌, ◌≤◌, ◌<◌, ◌≡◌, some, List, [], ◌∷◌, ◌++◌, arith, Bool, true, false, ◌&&◌,
  length, ◌=ℕ◌, not, codes, count_if, contains, nat_eq, if◌then◌else◌, suc, ltb, zero, leb,
}
use offline_reels.Media.PythonInt.{
  is_digit, is_space, read_digits, int_of, strip, lstrip, rstrip, max_str_digits,
}
use offline_reels.Media.Ranges.{
  partial, parse_single_range, before_dash, after_dash, after_prefix, RangeResult, range_of,
  is_single, bytes_prefix, end_of, specified, not_satisfiable,
}

-- The number that a text of digits spells after the digits of `value`.
unfoldable pub number_after : ℕ → List ℕ → ℕ
number_after value [] = value
number_after value (c ∷ cs) = number_after (value * 10 + (c - 48)) cs

unfoldable pub all_digits : List ℕ → Bool
all_digits [] = true
all_digits (c ∷ cs) = is_digit c && all_digits cs

unfoldable all_nonspace : List ℕ → Bool
all_nonspace [] = true
all_nonspace (c ∷ cs) = not (is_space c) && all_nonspace cs

digit-nonspace : (c : ℕ) → is_digit c ≡ true → is_space c ≡ false
unfolding is_digit is_space
digit-nonspace c h = ground arith

read_digits-digits :
    (ds : List ℕ) (value count : ℕ)
    → all_digits ds ≡ true
    → count + length ds ≤ 4300
    → read_digits value count false ds ≡ some (number_after value ds)
unfolding read_digits all_digits number_after
read_digits-digits [] value count h k = ground arith
read_digits-digits (c ∷ cs) value count h k =
    ground (arith, read_digits-digits cs (value * 10 + (c - 48)) (count + 1))

rstrip-nonspace : (cs : List ℕ) → all_nonspace cs ≡ true → rstrip cs ≡ cs
unfolding rstrip all_nonspace
rstrip-nonspace [] h = refl
rstrip-nonspace (c ∷ []) h = ground arith
rstrip-nonspace (c ∷ d ∷ ds) h = ground (arith, rstrip-nonspace (d ∷ ds))

lstrip-nonspace : (cs : List ℕ) → all_nonspace cs ≡ true → lstrip cs ≡ cs
unfolding lstrip all_nonspace
lstrip-nonspace [] h = refl
lstrip-nonspace (c ∷ cs) h = ground arith

strip-nonspace : (cs : List ℕ) → all_nonspace cs ≡ true → strip cs ≡ cs
unfolding strip
strip-nonspace cs h = ground (arith, lstrip-nonspace cs h, rstrip-nonspace cs h)

all_digits-nonspace : (ds : List ℕ) → all_digits ds ≡ true → all_nonspace ds ≡ true
unfolding all_digits all_nonspace
all_digits-nonspace [] h = refl
all_digits-nonspace (c ∷ cs) h = ground (arith, digit-nonspace c, all_digits-nonspace cs)

int_of-digits :
    (c : ℕ) (cs : List ℕ)
    → all_digits (c ∷ cs) ≡ true
    → length (c ∷ cs) ≤ 4300
    → int_of (c ∷ cs) ≡ some (number_after 0 (c ∷ cs))
unfolding int_of read_digits all_digits number_after is_digit
int_of-digits c cs h k = ground (
  arith,
  strip-nonspace (c ∷ cs) (all_digits-nonspace (c ∷ cs) h),
  read_digits-digits cs (c - 48) 1,
)

-- The text of a request for the bytes from one number to another.
abbrev pub request : List ℕ → List ℕ → List ℕ
request first last = codes "bytes=" ++ first ++ 45 ∷ last

module _ (last : List ℕ) (plain : all_digits last ≡ true) where
  before_dash-digits :
      (first : List ℕ) → all_digits first ≡ true → before_dash (first ++ 45 ∷ last) ≡ first
  unfolding before_dash all_digits is_digit
  before_dash-digits [] h = refl
  before_dash-digits (c ∷ cs) h = ground (arith, before_dash-digits cs)

  after_dash-digits :
      (first : List ℕ) → all_digits first ≡ true → after_dash (first ++ 45 ∷ last) ≡ last
  unfolding after_dash all_digits is_digit
  after_dash-digits [] h = refl
  after_dash-digits (c ∷ cs) h = ground (arith, after_dash-digits cs)

  nonspace-request :
      (first : List ℕ) → all_digits first ≡ true → all_nonspace (first ++ 45 ∷ last) ≡ true
  unfolding all_nonspace all_digits is_space
  nonspace-request [] h = ground (arith, all_digits-nonspace last plain)
  nonspace-request (c ∷ cs) h = ground (arith, digit-nonspace c, nonspace-request cs)

no_dash : (ds : List ℕ) → all_digits ds ≡ true → count_if (λ c. c =ℕ 45) ds ≡ 0
unfolding all_digits is_digit count_if
no_dash [] h = refl
no_dash (c ∷ cs) h = ground (arith, no_dash cs)

no_comma : (ds : List ℕ) → all_digits ds ≡ true → contains 44 ds ≡ false
unfolding all_digits is_digit
no_comma [] h = refl
no_comma (c ∷ cs) h = ground (arith, no_comma cs)

one_dash :
    (first last : List ℕ)
    → all_digits first ≡ true
    → all_digits last ≡ true
    → count_if (λ c. c =ℕ 45) (first ++ 45 ∷ last) ≡ 1
unfolding all_digits is_digit count_if
one_dash [] last h k = ground (arith, no_dash last k)
one_dash (c ∷ cs) last h k = ground (arith, one_dash cs last)

still_no_comma :
    (first last : List ℕ)
    → all_digits first ≡ true
    → all_digits last ≡ true
    → contains 44 (first ++ 45 ∷ last) ≡ false
unfolding all_digits is_digit
still_no_comma [] last h k = ground (arith, no_comma last k)
still_no_comma (c ∷ cs) last h k = ground (arith, still_no_comma cs last)

prefix-request : (rest : List ℕ) → after_prefix bytes_prefix (codes "bytes=" ++ rest) ≡ some rest
unfolding after_prefix
prefix-request rest = refl

-- The range that a request names, cut at the end of the object.
abbrev pub named_range : ℕ → ℕ → ℕ → RangeResult
named_range first last total =
    if ltb first total && leb first last
    then partial (record { start = first; end = if ltb last total then last else total - 1 })
    else not_satisfiable

range_of-digits :
    (c : ℕ) (cs : List ℕ) (d : ℕ) (ds : List ℕ) (total first last : ℕ)
    → int_of (c ∷ cs) ≡ some first
    → int_of (d ∷ ds) ≡ some last
    → 0 < total
    → range_of (c ∷ cs) (d ∷ ds) total ≡ named_range first last total
unfolding range_of end_of
range_of-digits c cs d ds total first last h k pos = ground arith

is_single-request :
    (first last : List ℕ)
    → all_digits first ≡ true
    → all_digits last ≡ true
    → is_single (first ++ 45 ∷ last) ≡ true
unfolding is_single
is_single-request [] last h k = ground (arith, one_dash [] last h k, still_no_comma [] last h k)
is_single-request (c ∷ cs) last h k =
    ground (arith, one_dash (c ∷ cs) last h k, still_no_comma (c ∷ cs) last h k)

module _ (c : ℕ) (cs : List ℕ) (d : ℕ) (ds : List ℕ) (first_plain : all_digits (c ∷ cs) ≡ true)
    (last_plain : all_digits (d ∷ ds) ≡ true) (first_short : length (c ∷ cs) ≤ max_str_digits)
    (last_short : length (d ∷ ds) ≤ max_str_digits) where
  specified-digits :
      (total : ℕ)
      → 0 < total
      → specified ((c ∷ cs) ++ 45 ∷ d ∷ ds) total
        ≡ named_range (number_after 0 (c ∷ cs)) (number_after 0 (d ∷ ds)) total
  unfolding specified
  specified-digits total pos = ground (
    arith,
    is_single-request (c ∷ cs) (d ∷ ds) first_plain last_plain,
    before_dash-digits (d ∷ ds) last_plain (c ∷ cs) first_plain,
    after_dash-digits (d ∷ ds) last_plain (c ∷ cs) first_plain,
    strip-nonspace (c ∷ cs) (all_digits-nonspace (c ∷ cs) first_plain),
    strip-nonspace (d ∷ ds) (all_digits-nonspace (d ∷ ds) last_plain),
    range_of-digits c cs d ds total (number_after 0 (c ∷ cs)) (number_after 0 (d ∷ ds))
        (int_of-digits c cs first_plain first_short) (int_of-digits d ds last_plain last_short) pos,
  )

  -- A request `bytes=first-last` of two plain numbers of at most 4300 digits is answered with the
  -- bytes from the first number to the last, cut at the end of the object, and is refused exactly
  -- if the first number is not below the size or exceeds the last.
  pub parse_single_range-request :
      (total : ℕ)
      → parse_single_range (some (request (c ∷ cs) (d ∷ ds))) total
        ≡ named_range (number_after 0 (c ∷ cs)) (number_after 0 (d ∷ ds)) total
  unfolding parse_single_range
  parse_single_range-request zero = ground arith
  parse_single_range-request (suc n) = ground (
    arith,
    prefix-request ((c ∷ cs) ++ 45 ∷ d ∷ ds),
    strip-nonspace ((c ∷ cs) ++ 45 ∷ d ∷ ds)
        (nonspace-request (d ∷ ds) last_plain (c ∷ cs) first_plain),
    specified-digits (suc n) (omega arith),
  )
