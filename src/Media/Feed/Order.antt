-- ===== src/Media/Feed/Order.antt =====
-- The order of the feed, and how the filter of a cursor cuts it.
use offline_reels.Base.{
  ◌=ℕ◌, refl, ◌≡◌, Bool, true, false, List, [], ◌∷◌, ◌++◌, arith, if◌then◌else◌, Bool-cases, inl,
  inr,
}
use offline_reels.Pipeline.Schema.{Video}
use offline_reels.Media.Feed.{is_behind, cursor_of, select_where, insert_video_row, newest_first}

abbrev Behind : Video → Video → Type 0
Behind v w = is_behind (cursor_of v) w ≡ true

-- Every entry stands behind the video.
abbrev pub AllBehind : Video → List Video → Type 0
AllBehind v [] = Unit
AllBehind v (w ∷ ws) = Behind v w × AllBehind v ws

abbrev pub IsOrdered : List Video → Type 0
IsOrdered [] = Unit
IsOrdered (v ∷ vs) = AllBehind v vs × IsOrdered vs

-- No entry has the id of the video.
abbrev pub IsApart : Video → List Video → Type 0
IsApart v [] = Unit
IsApart v (w ∷ ws) = ((w.id =ℕ v.id) ≡ false) × IsApart v ws

abbrev pub HasDistinctIds : List Video → Type 0
HasDistinctIds [] = Unit
HasDistinctIds (v ∷ vs) = IsApart v vs × HasDistinctIds vs

Behind-trans : (u v w : Video) → Behind u v → Behind v w → Behind u w
unfolding is_behind
Behind-trans u v w h k = ground arith

Behind-total :
    (v w : Video) → (w.id =ℕ v.id) ≡ false → is_behind (cursor_of v) w ≡ false → Behind w v
unfolding is_behind
Behind-total v w h k = ground arith

AllBehind-trans : (u v : Video) (ws : List Video) → Behind u v → AllBehind v ws → AllBehind u ws
AllBehind-trans u v [] h k = tt
AllBehind-trans u v (w ∷ ws) h k = (Behind-trans u v w h k.0, AllBehind-trans u v ws h k.1)

AllBehind-insert :
    (u v : Video) (ws : List Video)
    → Behind u v
    → AllBehind u ws
    → AllBehind u (insert_video_row v ws)
unfolding insert_video_row
AllBehind-insert u v [] h k = (h, tt)
AllBehind-insert u v (w ∷ ws) h k = elim (Bool-cases (is_behind (cursor_of v) w)) [
  | inl e ↦ ground arith
  | inr e ↦ ground (arith, AllBehind-insert u v ws h k.1)
]

IsApart-insert :
    (u v : Video) (ws : List Video)
    → (v.id =ℕ u.id) ≡ false
    → IsApart u ws
    → IsApart u (insert_video_row v ws)
unfolding insert_video_row
IsApart-insert u v [] h k = (h, tt)
IsApart-insert u v (w ∷ ws) h k = elim (Bool-cases (is_behind (cursor_of v) w)) [
  | inl e ↦ ground arith
  | inr e ↦ ground (arith, IsApart-insert u v ws h k.1)
]

insert-IsOrdered :
    (v : Video) (ws : List Video) → IsApart v ws → IsOrdered ws → IsOrdered (insert_video_row v ws)
unfolding insert_video_row
insert-IsOrdered v [] h k = (tt, tt)
insert-IsOrdered v (w ∷ ws) h k = elim (Bool-cases (is_behind (cursor_of v) w)) [
  | inl e ↦ ground (arith, AllBehind-trans v w ws e k.0)
  | inr e ↦
      ground
        (arith, AllBehind-insert w v ws (Behind-total v w h.0 e) k.0, insert-IsOrdered v ws h.1 k.1)
]

newest_first-IsApart : (u : Video) (vs : List Video) → IsApart u vs → IsApart u (newest_first vs)
unfolding newest_first
newest_first-IsApart u [] h = tt
newest_first-IsApart u (v ∷ vs) h =
    IsApart-insert u v (newest_first vs) h.0 (newest_first-IsApart u vs h.1)

pub newest_first-IsOrdered : (vs : List Video) → HasDistinctIds vs → IsOrdered (newest_first vs)
unfolding newest_first
newest_first-IsOrdered [] h = tt
newest_first-IsOrdered (v ∷ vs) h =
    insert-IsOrdered v (newest_first vs) (newest_first-IsApart v vs h.0)
      (newest_first-IsOrdered vs h.1)

module _ (p : Video → Bool) where
  AllBehind-select :
      (u : Video) (vs : List Video) → AllBehind u vs → AllBehind u (select_where p vs)
  unfolding select_where
  AllBehind-select u [] h = tt
  AllBehind-select u (v ∷ vs) h = ground (arith, AllBehind-select u vs h.1)

  -- A video before every entry is inserted at the front.
  insert-front : (v : Video) (ws : List Video) → AllBehind v ws → insert_video_row v ws ≡ v ∷ ws
  unfolding insert_video_row
  insert-front v [] h = refl
  insert-front v (w ∷ ws) h = ground arith

  select-insert :
      (v : Video) (ws : List Video)
      → IsApart v ws
      → IsOrdered ws
      → select_where p (insert_video_row v ws)
        ≡ (if p v then insert_video_row v (select_where p ws) else select_where p ws)
  unfolding select_where insert_video_row
  select-insert v [] h k = ground arith
  select-insert v (w ∷ ws) h k = elim (Bool-cases (is_behind (cursor_of v) w)) [
    | inl e ↦ ground (
      arith,
      insert-front v (select_where p ws) (AllBehind-select v ws (AllBehind-trans v w ws e k.0)),
    )
    | inr e ↦ ground (arith, select-insert v ws h.1 k.1)
  ]

  pub newest_first-select :
      (vs : List Video)
      → HasDistinctIds vs
      → newest_first (select_where p vs) ≡ select_where p (newest_first vs)
  unfolding newest_first select_where
  newest_first-select [] h = refl
  newest_first-select (v ∷ vs) h = ground (
    arith,
    newest_first-select vs h.1,
    select-insert v (newest_first vs) (newest_first-IsApart v vs h.0)
        (newest_first-IsOrdered vs h.1),
  )

behind_none :
    (v : Video) (ws : List Video) → AllBehind v ws → select_where (is_behind (cursor_of v)) ws ≡ ws
unfolding select_where
behind_none v [] h = refl
behind_none v (w ∷ ws) h = ground (arith, behind_none v ws h.1)

Behind-asym : (v w : Video) → Behind v w → is_behind (cursor_of w) v ≡ false
unfolding is_behind
Behind-asym v w h = ground arith

behind_irrefl : (v : Video) → is_behind (cursor_of v) v ≡ false
unfolding is_behind
behind_irrefl v = ground arith

-- What stands behind the last of the first entries is the rest.
pub select-rest :
    (vs : List Video) (c : Video) (ws : List Video)
    → IsOrdered (vs ++ c ∷ ws)
    → select_where (is_behind (cursor_of c)) (vs ++ c ∷ ws) ≡ ws
unfolding select_where
select-rest [] c ws h = ground (arith, behind_irrefl c, behind_none c ws h.0)
select-rest (v ∷ vs) c ws h =
    ground (arith, Behind-asym v c (before_last v vs c ws h.0), select-rest vs c ws h.1)
  where
    before_last :
        (v : Video) (vs : List Video) (c : Video) (ws : List Video)
        → AllBehind v (vs ++ c ∷ ws)
        → Behind v c
    before_last v [] c ws h = h.0
    before_last v (w ∷ vs) c ws h = before_last v vs c ws h.1
