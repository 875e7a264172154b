-- ===== src/Media/Span.antt =====
-- The span of a range that is served.
use offline_reels.Base.{
  refl, ℕ, ◌+◌, ◌≤◌, ◌<◌, ◌≡◌, some, none, Option, List, arith, ◌∷◌, [], suc, Option-cases, inl,
  inr, zero, Bool, if◌then◌else◌, true, false,
}
use offline_reels.Media.Ranges.{
  not_satisfiable, range_not_satisfiable, ByteRange, partial, parse_single_range, range_of, end_of,
  specified, StreamAnswer, stream_video, complete, RangeResult, partial_content, answer_of,
  after_prefix, whole, bytes_prefix, before_dash, after_dash, video_object_not_found, range_length,
}
use offline_reels.Media.PythonInt.{strip}

-- The range lies within an object of the given size.
abbrev pub IsWithin : ByteRange → ℕ → Type 0
IsWithin r total = (r.start ≤ r.end) × (r.end < total)

range_of-IsWithin :
    (first last : List ℕ) (total : ℕ) (r : ByteRange)
    → 0 < total
    → range_of first last total ≡ partial r
    → IsWithin r total
unfolding range_of end_of
range_of-IsWithin [] last total r pos h = ground arith
range_of-IsWithin (c ∷ cs) [] total r pos h = ground arith
range_of-IsWithin (c ∷ cs) (d ∷ ds) total r pos h = ground arith

-- A range that `parse_single_range` returns is not empty and lies within the object.
pub parse_single_range-IsWithin :
    (header : Option (List ℕ)) (total : ℕ) (r : ByteRange)
    → parse_single_range header total ≡ partial r
    → IsWithin r total
unfolding parse_single_range specified
parse_single_range-IsWithin none total r h = ground arith
parse_single_range-IsWithin (some value) zero r h = ground arith
parse_single_range-IsWithin (some value) (suc n) r h =
    elim (Option-cases (after_prefix bytes_prefix value)) [
      | inl e ↦ absurd (ground arith)
      | inr (rest, e) ↦
          let specifier = strip rest in
          range_of-IsWithin (strip (before_dash specifier)) (strip (after_dash specifier)) (suc n) r
            (omega arith) (ground arith)
    ]

-- The bytes that an answer asks of the store.
abbrev pub IsServed : StreamAnswer → ℕ → Type 0
IsServed (complete offset length) total = offset + length ≡ total
IsServed (partial_content offset length) total = (1 ≤ length) × (offset + length ≤ total)
IsServed range_not_satisfiable total = Unit {0}
IsServed (video_object_not_found offset length) total = offset + length ≤ total

IsServed-if :
    (b : Bool) (a n : StreamAnswer) (total : ℕ)
    → IsServed a total
    → IsServed n total
    → IsServed (if b then a else n) total
IsServed-if true a n total h k = h
IsServed-if false a n total h k = k

-- `stream_video` never asks the store for bytes beyond the object, whether the store then finds it
-- or not: a complete answer is the whole object and a partial one is at least one byte of it.
pub stream_video-IsServed :
    (has_object : ℕ → ℕ → Bool) (header : Option (List ℕ)) (total : ℕ)
    → IsServed (stream_video has_object header total) total
unfolding stream_video
stream_video-IsServed has_object header total = served (parse_single_range header total) refl
  where
    served :
        (a : RangeResult)
        → parse_single_range header total ≡ a
        → IsServed (answer_of has_object a total) total
    served whole e = IsServed-if (has_object 0 total) _ _ total (omega arith) (omega arith)
    served (partial r) e =
        let (le, lt) = parse_single_range-IsWithin header total r e in
        IsServed-if (has_object r.start (range_length r)) _ _ total
          (omega arith, omega (arith, le, lt)) (omega (arith, le, lt))
    served not_satisfiable e = tt
