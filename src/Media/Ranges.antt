-- ===== src/Media/Ranges.antt =====
-- apps/api/app/media/ranges.py, and the span that `stream_video` of apps/api/app/api/videos.py asks
-- of the object store. A header is given as its code points.
use offline_reels.Base.{
  ℕ, ◌+◌, ◌-◌, Bool, Option, none, some, List, [], ◌∷◌, ◌=ℕ◌, codes, if◌then◌else◌, true, count_if,
  leb, ltb, false, not, ◌||◌, contains, ◌&&◌, nat_eq,
}
use mathlib.Core.Option
use offline_reels.Media.PythonInt.{int_of, strip}

pub record ByteRange : Type 0 where
  pub start : ℕ
  pub end : ℕ

abbrev pub range_length : ByteRange → ℕ
range_length r = r.end - r.start + 1

-- What `parse_single_range` returns, or RangeNotSatisfiable.
pub data RangeResult : Type 0 where
  whole : RangeResult
  partial : ByteRange → RangeResult
  not_satisfiable : RangeResult

abbrev pub bytes_prefix : List ℕ
bytes_prefix = codes "bytes="

-- value.startswith(prefix) and value.removeprefix(prefix)
unfoldable pub after_prefix : List ℕ → List ℕ → Option (List ℕ)
after_prefix [] value = some value
after_prefix (p ∷ ps) [] = none
after_prefix (p ∷ ps) (c ∷ cs) = let rest = after_prefix ps cs in if p =ℕ c then rest else none

-- The texts before and after the first dash.
unfoldable pub before_dash : List ℕ → List ℕ
before_dash [] = []
before_dash (c ∷ cs) = let rest = before_dash cs in if c =ℕ 45 then [] else c ∷ rest

unfoldable pub after_dash : List ℕ → List ℕ
after_dash [] = []
after_dash (c ∷ cs) = let rest = after_dash cs in if c =ℕ 45 then cs else rest

-- `total_size - 1` or the smaller of it and the number.
unfoldable pub end_of : List ℕ → ℕ → Option ℕ
end_of [] total = some (total - 1)
end_of (c ∷ cs) total =
    Option.map (λ n. if leb n (total - 1) then n else total - 1) (int_of (c ∷ cs))

abbrev pub suffix_range : Option ℕ → ℕ → RangeResult
suffix_range none total = not_satisfiable
suffix_range (some n) total =
    if n =ℕ 0 then not_satisfiable else partial (record { start = total - n; end = total - 1 })

abbrev pub closed_range : ℕ → Option ℕ → RangeResult
closed_range start none = not_satisfiable
closed_range start (some end) =
    if ltb end start then not_satisfiable else partial (record { start = start; end = end })

abbrev pub range_from : Option ℕ → List ℕ → ℕ → RangeResult
range_from none last total = not_satisfiable
range_from (some start) last total =
    if leb total start then not_satisfiable else closed_range start (end_of last total)

unfoldable pub range_of : List ℕ → List ℕ → ℕ → RangeResult
unfolding end_of
range_of [] last total = suffix_range (int_of last) total
range_of (c ∷ cs) last total = range_from (int_of (c ∷ cs)) last total

abbrev is_empty : List ℕ → Bool
is_empty [] = true
is_empty (c ∷ cs) = false

unfoldable pub is_single : List ℕ → Bool
unfolding count_if
is_single specifier =
    not (is_empty specifier || contains 44 specifier) && count_if (λ c. c =ℕ 45) specifier =ℕ 1

unfoldable pub specified : List ℕ → ℕ → RangeResult
unfolding before_dash after_dash range_of is_single
specified specifier total =
    if is_single specifier
    then range_of (strip (before_dash specifier)) (strip (after_dash specifier)) total
    else not_satisfiable

unfoldable pub parse_single_range : Option (List ℕ) → ℕ → RangeResult
unfolding after_prefix specified
parse_single_range none total = whole
parse_single_range (some value) total =
    if total =ℕ 0 then not_satisfiable else elim (after_prefix bytes_prefix value) [
      | none ↦ not_satisfiable
      | some rest ↦ specified (strip rest) total
    ]

-- What `stream_video` answers: the status, and the offset and the length that it asks of the store.
-- `has_object` is whether `open_stream` finds the object for them, or raises VideoObjectNotFound.
pub data StreamAnswer : Type 0 where
  complete : (offset length : ℕ) → StreamAnswer
  partial_content : (offset length : ℕ) → StreamAnswer
  range_not_satisfiable : StreamAnswer
  video_object_not_found : (offset length : ℕ) → StreamAnswer

abbrev pub answer_of : (ℕ → ℕ → Bool) → RangeResult → ℕ → StreamAnswer
answer_of has_object whole total =
    if has_object 0 total then complete 0 total else video_object_not_found 0 total
answer_of has_object (partial r) total =
    if has_object r.start (range_length r)
    then partial_content r.start (range_length r)
    else video_object_not_found r.start (range_length r)
answer_of has_object not_satisfiable total = range_not_satisfiable

unfoldable pub stream_video : (ℕ → ℕ → Bool) → Option (List ℕ) → ℕ → StreamAnswer
unfolding parse_single_range
stream_video has_object header total = answer_of has_object (parse_single_range header total) total
