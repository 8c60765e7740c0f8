-- ===== src/Notice/Listing/OneCursor.antt =====
-- One cursor for two lists: what it does to the likes that a user has seen already.
use gozero_x.Common.{
  ℕ, zero, suc, ◌≡◌, ◌≢◌, refl, sym, ◌∙◌, true, false, Bool, ◌&&◌, ◌||◌, Option, List, [], ◌∷◌,
  arith, ◌==◌, leb, take, select,
}
use gozero_x.Common.Int.{ℤ}
use gozero_x.Content.Batch.{any, UserBrief}
use gozero_x.Notice.Tables.{NoticeLike, NoticeComment}
use gozero_x.Notice.Consumer.{Notices}
use gozero_x.Notice.Listing.{
  PageAnswers, GetNoticesReq, own_like, own_comment, find_likes, find_comments, shown_uids,
  user_map, like_info, comment_info, get_notices,
}
use gozero_x.Paging.{clamp_limit}
use gozero_x.Paging.Laws.{clamp_limit-bounds}
use gozero_x.Paging.Query.Any.{any-take, any-map, any-insert_row, any-order_by}
use gozero_x.Paging.Query.{desc, insert_row, order_by, from_cursor, beyond, is_zero}

module _ {A : Type 0} (time : A → ℕ) where
  -- Whether a row is not older than a time.
  abbrev recent : ℕ → A → Bool
  recent a x = leb a (time x)

  -- Whether the first row is not older than a time.
  abbrev first_recent : ℕ → List A → Bool
  first_recent a [] = false
  first_recent a (x ∷ xs) = recent a x

  insert_row-first :
      (a : ℕ) (x : A) (ys : List A)
      → (any (recent a) ys ≡ true → first_recent a ys ≡ true)
      → any (recent a) (insert_row desc time x ys) ≡ true
      → first_recent a (insert_row desc time x ys) ≡ true
  unfolding insert_row
  insert_row-first a x [] first h = ground (arith, h)
  insert_row-first a x (y ∷ ys) first h =
      ground (arith, h, first, any-insert_row desc time (recent a) x ys)

  order_by-first :
      (a : ℕ) (xs : List A)
      → any (recent a) (order_by desc time xs) ≡ true
      → first_recent a (order_by desc time xs) ≡ true
  unfolding order_by
  order_by-first a [] h = h
  order_by-first a (x ∷ xs) h = insert_row-first a x (order_by desc time xs) (order_by-first a xs) h

  take-first :
      (a limit : ℕ) (xs : List A)
      → limit ≢ 0
      → first_recent a xs ≡ true
      → any (recent a) (take limit xs) ≡ true
  take-first a zero xs some_limit h = absurd (some_limit refl)
  take-first a (suc n) [] some_limit h = h
  take-first a (suc n) (x ∷ xs) some_limit h = ground (arith, h)

  module _ (test : A → Bool) (cursor : ℤ) where
    -- A row that a query finds tells how far its cursor reaches.
    abbrev reaches : ℕ → Bool
    reaches a = is_zero cursor || beyond desc cursor a

    any-beyond :
        (a : ℕ) (xs : List A)
        → any (recent a) (select (λ x. test x && beyond desc cursor (time x)) xs) ≡ true
        → beyond desc cursor a ≡ true
    any-beyond a [] h = ground (arith, h)
    any-beyond a (x ∷ xs) h = ground (arith, h, any-beyond a xs)

    any-reaches :
        (a limit : ℕ) (xs : List A)
        → any (recent a) (take limit (order_by desc time (from_cursor desc time test cursor xs)))
          ≡ true
        → reaches a ≡ true
    unfolding from_cursor
    any-reaches a limit xs h =
        let found =
          sym (any-order_by desc time (recent a) (from_cursor desc time test cursor xs))
          ∙ any-take (recent a) limit (order_by desc time (from_cursor desc time test cursor xs))
              h in
        ground (arith, found, any-beyond a xs)

    any-test :
        (a : ℕ) (xs : List A)
        → any (λ x. test x && time x == a) xs ≡ true
        → any (recent a) (select test xs) ≡ true
    any-test a [] h = h
    any-test a (x ∷ xs) h = ground (arith, h, any-test a xs)

    any-after :
        (a : ℕ) (xs : List A)
        → beyond desc cursor a ≡ true
        → any (λ x. test x && time x == a) xs ≡ true
        → any (recent a) (select (λ x. test x && beyond desc cursor (time x)) xs) ≡ true
    any-after a [] b h = h
    any-after a (x ∷ xs) b h = ground (arith, b, h, any-after a xs b)

    finds :
        (a limit : ℕ) (xs : List A)
        → limit ≢ 0
        → reaches a ≡ true
        → any (λ x. test x && time x == a) xs ≡ true
        → any (recent a) (take limit (order_by desc time (from_cursor desc time test cursor xs)))
          ≡ true
    unfolding from_cursor
    finds a limit xs some_limit reached h =
        take-first a limit (order_by desc time (from_cursor desc time test cursor xs)) some_limit (
          order_by-first a (from_cursor desc time test cursor xs) (
            any-order_by desc time (recent a) (from_cursor desc time test cursor xs)
            ∙ ground (
              arith,
              reached,
              any-test a xs h,
              λ (b : beyond desc cursor a ≡ true). any-after a xs b h,
            )))

module _ (brief : List ℕ → Option (List UserBrief)) (order : List ℕ → List ℕ) (a : PageAnswers)
    (req : GetNoticesReq) (s : Notices) (time : ℕ) (likes_ok : a.likes_ok ≡ true)
    (comments_ok : a.comments_ok ≡ true) where
  abbrev found_likes : List NoticeLike
  found_likes = find_likes req.uid req.cursor (clamp_limit req.limit) s.likes

  abbrev found_comments : List NoticeComment
  found_comments = find_comments req.uid req.cursor (clamp_limit req.limit) s.comments

  abbrev user : ℕ → Option UserBrief
  user = user_map brief order (shown_uids found_likes found_comments)

  like_notices-any :
      any (λ r. leb time r.updated_at) (get_notices brief order a req s).like_notices
      ≡ any (λ r. leb time r.updated_at) found_likes
  unfolding get_notices like_info
  like_notices-any =
      rw (likes_ok, comments_ok) (any-map (λ r. leb time r.updated_at) (like_info user) found_likes)

  comment_notices-any :
      any (λ k. leb time k.created_at) (get_notices brief order a req s).comment_notices
      ≡ any (λ k. leb time k.created_at) found_comments
  unfolding get_notices comment_info
  comment_notices-any =
      rw (likes_ok, comments_ok)
        (any-map (λ k. leb time k.created_at) (comment_info user) found_comments)

-- Where a page shows a comment notice that is not older than a like notice of the user, it shows a
-- like notice that is not older than that one: a user who has seen the likes down to that one
-- and asks for comments that are as new sees likes again, whatever the cursor is.
pub get_notices-repeats :
    (brief : List ℕ → Option (List UserBrief)) (order : List ℕ → List ℕ) (a : PageAnswers)
    (req : GetNoticesReq) (s : Notices) (time : ℕ)
    → a.likes_ok ≡ true
    → a.comments_ok ≡ true
    → any (λ r. own_like req.uid r && r.updated_at == time) s.likes ≡ true
    → let resp = get_notices brief order a req s in
      any (λ k. leb time k.created_at) resp.comment_notices ≡ true
      → any (λ r. leb time r.updated_at) resp.like_notices ≡ true
unfolding find_likes find_comments
get_notices-repeats brief order a req s time likes_ok comments_ok liked shown =
    like_notices-any brief order a req s time likes_ok comments_ok
    ∙ finds (λ r. r.updated_at) (own_like req.uid) req.cursor time (clamp_limit req.limit) s.likes
        (clamp_limit-bounds req.limit).0
        (any-reaches (λ k. k.created_at) (own_comment req.uid) req.cursor time
          (clamp_limit req.limit) s.comments
          (sym (comment_notices-any brief order a req s time likes_ok comments_ok) ∙ shown))
        liked
