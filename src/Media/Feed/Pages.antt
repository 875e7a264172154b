-- ===== src/Media/Feed/Pages.antt =====
-- The pages that a client collects.
use offline_reels.Base.{
  refl, ◌≡◌, ℕ, suc, zero, ◌≤◌, ◌<◌, Bool, true, false, List, [], ◌∷◌, ◌++◌, arith, some, none,
  Option, Bool-cases, inl, inr, take, length, ap, ltb, ◌∙◌, subst, sym, count_if,
}
use mathlib.Core.List.{append-nil, append_assoc}
use offline_reels.Pipeline.Schema.{Video}
use offline_reels.Media.Feed.{
  cursor_of, select_where, newest_first, VideoCursor, is_listed, list_page, follow, last_video,
  next_cursor, is_behind, list_rows, insert_video_row,
}
use offline_reels.Media.Feed.Order.{
  IsOrdered, HasDistinctIds, newest_first-IsOrdered, newest_first-select, select-rest,
}

-- A list that is longer than a page, cut after the page.
record Cut (n : ℕ) (rows : List Video) : Type 0 where
  first : List Video
  last : Video
  rest : List Video
  whole : rows ≡ first ++ last ∷ rest
  page : take (suc n) rows ≡ first ++ last ∷ []
  end : last_video (take (suc n) rows) ≡ some last
  shorter : length rest < length rows

cut : (n : ℕ) (rows : List Video) → suc n < length rows → Cut n rows
unfolding last_video
cut n [] h = absurd (ground arith)
cut n (v ∷ []) h = absurd (ground arith)
cut zero (v ∷ w ∷ ws) h = record {
  first = [];
  last = v;
  rest = w ∷ ws;
  whole = refl;
  page = refl;
  end = refl;
  shorter = ground arith;
}
cut (suc n) (v ∷ w ∷ ws) h =
    let c = cut n (w ∷ ws) (ground arith) in
    record {
      first = v ∷ c.first;
      last = c.last;
      rest = c.rest;
      whole = ap (λ r. v ∷ r) c.whole;
      page = ap (λ r. v ∷ r) c.page;
      end = c.end;
      shorter = ground (arith, c.shorter);
    }

take_all : (n : ℕ) (rows : List Video) → length rows ≤ n → take n rows ≡ rows
take_all zero [] h = refl
take_all (suc n) [] h = refl
take_all zero (v ∷ vs) h = absurd (ground arith)
take_all (suc n) (v ∷ vs) h = ground (arith, take_all n vs)

take-take : (n : ℕ) (rows : List Video) → take n (take (suc n) rows) ≡ take n rows
take-take zero rows = refl
take-take (suc n) [] = refl
take-take (suc n) (v ∷ vs) = ap (λ r. v ∷ r) (take-take n vs)

-- One row too many was asked for, and tells whether there are more.
more_than : (n : ℕ) (rows : List Video) → ltb n (length (take (suc n) rows)) ≡ ltb n (length rows)
more_than zero [] = refl
more_than zero (v ∷ vs) = ground arith
more_than (suc n) [] = refl
more_than (suc n) (v ∷ vs) = ground (arith, more_than n vs)

module _ (n : ℕ) (videos : List Video) (distinct : HasDistinctIds videos) where
  selected : Option VideoCursor → List Video
  unfolding select_where
  selected cursor = select_where (is_listed cursor) (newest_first videos)

  list_rows-selected :
      (cursor : Option VideoCursor)
      → list_rows (suc (suc n)) cursor videos ≡ take (suc (suc n)) (selected cursor)
  unfolding list_rows selected
  list_rows-selected cursor =
      ap (take (suc (suc n))) (newest_first-select (is_listed cursor) videos distinct)

  page_items :
      (cursor : Option VideoCursor)
      → (list_page (suc n) cursor videos).items ≡ take (suc n) (selected cursor)
  unfolding list_page
  page_items cursor =
      ap (take (suc n)) (list_rows-selected cursor) ∙ take-take (suc n) (selected cursor)

  page_more :
      (cursor : Option VideoCursor)
      → (list_page (suc n) cursor videos).has_next_page ≡ ltb (suc n) (length (selected cursor))
  unfolding list_page
  page_more cursor =
      ap (λ r. ltb (suc n) (length r)) (list_rows-selected cursor)
      ∙ more_than (suc n) (selected cursor)

  next-none :
      (cursor : Option VideoCursor)
      → ltb (suc n) (length (selected cursor)) ≡ false
      → next_cursor (list_page (suc n) cursor videos) ≡ none
  unfolding next_cursor
  next-none cursor h = ground (arith, page_more cursor)

  next-some :
      (cursor : Option VideoCursor) (v : Video)
      → ltb (suc n) (length (selected cursor)) ≡ true
      → last_video (take (suc n) (selected cursor)) ≡ some v
      → next_cursor (list_page (suc n) cursor videos) ≡ some (cursor_of v)
  unfolding next_cursor
  next-some cursor v h k = ground (arith, page_more cursor, page_items cursor)

  follow-next :
      (fuel : ℕ) (cursor next : Option VideoCursor)
      → next_cursor (list_page (suc n) cursor videos) ≡ next
      → follow (suc fuel) (suc n) cursor videos
        ≡ take (suc n) (selected cursor)
          ++ elim next [ none ↦ [] | some c ↦ follow fuel (suc n) (some c) videos ]
  unfolding follow
  follow-next fuel cursor next h = λ i. page_items cursor i ++ elim (h i) as (λ _. List Video) [
    | none ↦ []
    | some c ↦ follow fuel (suc n) (some c) videos
  ]

  selected-rest :
      (done : List Video) (c : Video) (rest : List Video)
      → newest_first videos ≡ done ++ c ∷ rest
      → selected (some (cursor_of c)) ≡ rest
  unfolding selected
  selected-rest done c rest h =
      ap (select_where (is_behind (cursor_of c))) h
      ∙ select-rest done c rest (subst IsOrdered h (newest_first-IsOrdered videos distinct))

  follow-rest :
      (fuel : ℕ) (cursor : Option VideoCursor) (done rest : List Video)
      → newest_first videos ≡ done ++ rest
      → selected cursor ≡ rest
      → length rest < fuel
      → follow fuel (suc n) cursor videos ≡ rest
  follow-rest zero cursor done rest h k f = absurd (ground arith)
  follow-rest (suc fuel) cursor done rest h k f = elim (Bool-cases (ltb (suc n) (length rest))) [
    | inr e ↦
        follow-next fuel cursor none (next-none cursor (ap (λ r. ltb (suc n) (length r)) k ∙ e))
        ∙ append-nil (take (suc n) (selected cursor))
        ∙ ap (take (suc n)) k
        ∙ take_all (suc n) rest (ground (arith, e))
    | inl e ↦
        let c = cut n rest (ground (arith, e)) in
        let ordered : newest_first videos ≡ (done ++ c.first) ++ c.last ∷ c.rest =
          h ∙ ap (λ r. done ++ r) c.whole ∙ sym (append_assoc done c.first (c.last ∷ c.rest)) in
        follow-next fuel cursor (some (cursor_of c.last)) (
          next-some cursor c.last (ap (λ r. ltb (suc n) (length r)) k ∙ e)
            (ap (λ r. last_video (take (suc n) r)) k ∙ c.end))
        ∙ ap (λ r. take (suc n) r ++ follow fuel (suc n) (some (cursor_of c.last)) videos) k
        ∙ ap (λ r. r ++ follow fuel (suc n) (some (cursor_of c.last)) videos) c.page
        ∙ append_assoc c.first (c.last ∷ []) (follow fuel (suc n) (some (cursor_of c.last)) videos)
        ∙ ap (λ r. c.first ++ c.last ∷ r)
            (follow-rest fuel (some (cursor_of c.last)) ((done ++ c.first) ++ c.last ∷ []) c.rest
              (ordered ∙ sym (append_assoc (done ++ c.first) (c.last ∷ []) c.rest))
              (selected-rest (done ++ c.first) c.last c.rest ordered)
              (ground (arith, c.shorter, f)))
        ∙ sym c.whole
  ]

select-all : (videos : List Video) → select_where (is_listed none) videos ≡ videos
unfolding select_where
select-all [] = refl
select-all (v ∷ vs) = ap (λ r. v ∷ r) (select-all vs)

count-insert :
    (p : Video → Bool) (v : Video) (ws : List Video)
    → count_if p (insert_video_row v ws) ≡ count_if p (v ∷ ws)
unfolding insert_video_row count_if
count-insert p v [] = refl
count-insert p v (w ∷ ws) = ground (arith, count-insert p v ws)

count-newest_first :
    (p : Video → Bool) (vs : List Video) → count_if p (newest_first vs) ≡ count_if p vs
unfolding newest_first count_if
count-newest_first p [] = refl
count-newest_first p (v ∷ vs) =
    ground (arith, count-newest_first p vs, count-insert p v (newest_first vs))

length-count : (vs : List Video) → length vs ≡ count_if (λ _. true) vs
unfolding count_if
length-count [] = refl
length-count (v ∷ vs) = ground (arith, length-count vs)

collected-newest_first :
    (n fuel : ℕ) (videos : List Video)
    → HasDistinctIds videos
    → length videos < fuel
    → follow fuel (suc n) none videos ≡ newest_first videos
unfolding selected select_where
collected-newest_first n fuel videos distinct h =
    follow-rest n videos distinct fuel none [] (newest_first videos) refl
      (select-all (newest_first videos))
      (omega (
        arith,
        h,
        length-count videos,
        length-count (newest_first videos),
        count-newest_first (λ _. true) videos,
      ))

-- Whatever the size of a page, a client that follows the cursors of the feed for more pages than
-- there are videos collects every video exactly once, newest first: the collected list is strictly
-- ordered by date and id, and any test holds as often in it as in the table. No two videos have
-- the same id, and none is added or removed meanwhile.
pub follow-IsOrdered :
    (n fuel : ℕ) (videos : List Video)
    → HasDistinctIds videos
    → length videos < fuel
    → IsOrdered (follow fuel (suc n) none videos)
      × ((p : Video → Bool) → count_if p (follow fuel (suc n) none videos) ≡ count_if p videos)
follow-IsOrdered n fuel videos distinct h = (
  subst IsOrdered (sym same) (newest_first-IsOrdered videos distinct),
  λ p. ap (count_if p) same ∙ count-newest_first p videos,
)
  where
    same : follow fuel (suc n) none videos ≡ newest_first videos
    same = collected-newest_first n fuel videos distinct h
