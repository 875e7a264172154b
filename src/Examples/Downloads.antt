-- ===== src/Examples/Downloads.antt =====
-- Range requests for a stored video.
use offline_reels.Base.{refl, ◌≡◌, some, ◌∷◌, [], arith, codes, true}
use offline_reels.Media.Ranges.{parse_single_range, partial, stream_video}
use offline_reels.Media.Span.{
  IsWithin, IsServed, parse_single_range-IsWithin, stream_video-IsServed,
}
use offline_reels.Media.Requests.{
  all_digits, request, named_range, number_after, parse_single_range-request,
}
use offline_reels.Media.PythonInt.{strip, int_of, is_digit}

-- bytes=2-30 of an object of ten bytes.
cut : parse_single_range (some (codes "bytes=2-30")) 10 ≡ partial (record { start = 2; end = 9 })
unfolding parse_single_range strip int_of
cut = refl

-- Blanks, a plus sign and an underscore are read as Python reads them.
lenient :
    parse_single_range (some (codes "bytes= +1_0 - ")) 100
    ≡ partial (record { start = 10; end = 99 })
unfolding parse_single_range strip int_of
lenient = refl

last_three :
    parse_single_range (some (codes "bytes=-3")) 10 ≡ partial (record { start = 7; end = 9 })
unfolding parse_single_range strip int_of
last_three = refl

parse_single_range-IsWithin_example : IsWithin (record { start = 7; end = 9 }) 10
parse_single_range-IsWithin_example =
    parse_single_range-IsWithin (some (codes "bytes=-3")) 10 (record { start = 7; end = 9 })
      last_three

stream_video-IsServed_example :
    IsServed (stream_video (λ offset length. true) (some (codes "bytes=-3")) 10) 10
stream_video-IsServed_example =
    stream_video-IsServed (λ offset length. true) (some (codes "bytes=-3")) 10

parse_single_range-request_example :
    parse_single_range (some (request (codes "2") (codes "30"))) 10
    ≡ named_range (number_after 0 (codes "2")) (number_after 0 (codes "30")) 10
unfolding all_digits is_digit
parse_single_range-request_example =
    parse_single_range-request 50 [] 51 (48 ∷ []) refl refl (omega arith) (omega arith) 10
