-- ===== src/Media/Feed.antt =====
-- The video feed: VideoRepository.list of apps/api/app/repositories/videos.py, VideoService.list of
-- apps/api/app/services/videos.py, and a client that follows the cursors of `list_videos` of
-- apps/api/app/api/videos.py. A cursor is taken as the client's token stands for it.
pub mod Order
pub mod Pages
use mathlib.Core.Option
use offline_reels.Base.{
  ℕ, ◌+◌, Bool, ◌&&◌, ◌||◌, Option, none, some, List, [], ◌∷◌, ◌++◌, ltb, ◌=ℕ◌, take, length, true,
  if◌then◌else◌, suc, zero,
}
use offline_reels.Pipeline.Schema.{Video}

pub record VideoCursor : Type 0 where
  pub created_at : ℕ
  pub id : ℕ

abbrev pub cursor_of : Video → VideoCursor
cursor_of v = record { created_at = v.created_at; id = v.id }

-- Is the video behind the cursor in the order of the feed?
unfoldable pub is_behind : VideoCursor → Video → Bool
is_behind c v = ltb v.created_at c.created_at || v.created_at =ℕ c.created_at && ltb v.id c.id

abbrev pub is_listed : Option VideoCursor → Video → Bool
is_listed none v = true
is_listed (some c) v = is_behind c v

unfoldable pub select_where : (Video → Bool) → List Video → List Video
select_where p [] = []
select_where p (v ∷ vs) = let rest = select_where p vs in if p v then v ∷ rest else rest

unfoldable pub insert_video_row : Video → List Video → List Video
unfolding is_behind
insert_video_row v [] = v ∷ []
insert_video_row v (w ∷ ws) =
    let rest = insert_video_row v ws in if is_behind (cursor_of v) w then v ∷ w ∷ ws else w ∷ rest

-- ORDER BY created_at DESC, id DESC
unfoldable pub newest_first : List Video → List Video
unfolding insert_video_row
newest_first [] = []
newest_first (v ∷ vs) = insert_video_row v (newest_first vs)

-- VideoRepository.list
unfoldable pub list_rows : ℕ → Option VideoCursor → List Video → List Video
unfolding newest_first select_where
list_rows limit cursor videos = take limit (newest_first (select_where (is_listed cursor) videos))

pub record VideoListPage : Type 0 where
  pub items : List Video
  pub has_next_page : Bool

abbrev page_of : ℕ → List Video → VideoListPage
page_of limit rows = record { items = take limit rows; has_next_page = ltb limit (length rows) }

-- VideoService.list
unfoldable pub list_page : ℕ → Option VideoCursor → List Video → VideoListPage
unfolding list_rows
list_page limit cursor videos = page_of limit (list_rows (suc limit) cursor videos)

unfoldable pub last_video : List Video → Option Video
last_video [] = none
last_video (v ∷ vs) = elim vs [ [] ↦ some v | w ∷ ws ↦ last_video vs ]

-- The cursor of `list_videos` for the next page.
unfoldable pub next_cursor : VideoListPage → Option VideoCursor
unfolding last_video
next_cursor page = if page.has_next_page then Option.map cursor_of (last_video page.items) else none

-- What a client collects that asks for the first page, or for the one at the cursor, and follows
-- `next_cursor` as long as there is one.
unfoldable pub follow : ℕ → ℕ → Option VideoCursor → List Video → List Video
unfolding list_page next_cursor
follow zero limit cursor videos = []
follow (suc fuel) limit cursor videos =
    let page = list_page limit cursor videos in
    page.items ++ elim (next_cursor page) [ none ↦ [] | some c ↦ follow fuel limit (some c) videos ]
