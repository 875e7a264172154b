-- ===== src/Examples/Catalog.antt =====
-- A catalog of three videos, in pages of two.
use offline_reels.Base.{refl, ◌≡◌, none, ◌∷◌, [], List, Bool, count_if, arith, ℕ}
use offline_reels.Pipeline.Schema.{Video}
use offline_reels.Media.Feed.{follow}
use offline_reels.Media.Feed.Order.{IsOrdered}
use offline_reels.Media.Feed.Pages.{follow-IsOrdered}

abbrev video : ℕ → ℕ → Video
video id created_at = record {
  id = id;
  title = "Reel";
  object_key = "videos/a.mp4";
  byte_size = 10;
  content_sha256 = none;
  normalization_strategy = none;
  has_audio = none;
  normalized_at = none;
  created_at = created_at;
}

abbrev videos : List Video
videos = video 1 50 ∷ video 2 70 ∷ video 3 50 ∷ []

collected : follow 4 2 none videos ≡ video 2 70 ∷ video 3 50 ∷ video 1 50 ∷ []
unfolding follow
collected = refl

follow-IsOrdered_example :
    IsOrdered (follow 4 2 none videos)
    × ((p : Video → Bool) → count_if p (follow 4 2 none videos) ≡ count_if p videos)
follow-IsOrdered_example =
    follow-IsOrdered 1 4 videos ((refl, (refl, tt)), ((refl, tt), (tt, tt))) (omega arith)
