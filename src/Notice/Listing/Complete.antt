-- ===== src/Notice/Listing/Complete.antt =====
-- What a user sees who reads the notices page by page.
use gozero_x.Common.{
  ℕ, suc, ◌≡◌, ◌≢◌, refl, true, Bool-cases, inl, inr, Option, some, List, map, length, select, All,
  take-All, select-All, ◌&&◌,
}
use gozero_x.Common.Int.{ℤ, pos}
use gozero_x.Content.Batch.{UserBrief}
use gozero_x.Notice.Tables.{NoticeLike, NoticeComment}
use gozero_x.Notice.Consumer.{Notices}
use gozero_x.Notice.Handlers.{ReadAnswers, get_unread_count}
use gozero_x.Notice.Listing.{
  PageAnswers, GetNoticesReq, GetNoticesResp, own_like, own_comment, find_likes, find_comments,
  like_info, comment_info, get_notices,
}
use gozero_x.Notice.Listing.Names.{IsOrder, known, like_infos-known, comment_infos-known}
use gozero_x.Paging.{clamp_limit}
use gozero_x.Paging.Laws.{clamp_limit-bounds}
use gozero_x.Paging.Reading.{read}
use gozero_x.Paging.Query.Read.{read-query}
use gozero_x.Paging.Query.{desc, order_by, from_cursor, beyond, is_zero}
use gozero_x.Paging.Query.Ordered.{Different, order_by-All}

abbrev like_time : NoticeLike → ℕ
like_time r = r.updated_at

abbrev comment_time : NoticeComment → ℕ
comment_time r = r.created_at

-- The notices of a user, the newest first.
abbrev pub all_likes : ℕ → Notices → List NoticeLike
all_likes uid s = order_by desc like_time (select (own_like uid) s.likes)

abbrev pub all_comments : ℕ → Notices → List NoticeComment
all_comments uid s = order_by desc comment_time (select (own_comment uid) s.comments)

abbrev pub works : PageAnswers
works = record {
  likes_ok = true;
  comments_ok = true;
  likes_counted = true;
  comments_counted = true;
}

find_comments-All :
    (P : NoticeComment → Type 0) (uid : ℕ) (cursor : ℤ) (limit : ℕ) (rows : List NoticeComment)
    → All P rows
    → All P (find_comments uid cursor limit rows)
unfolding find_comments from_cursor
find_comments-All P uid cursor limit rows h = take-All P limit _ (
    order_by-All desc comment_time P _ (elim (Bool-cases (is_zero cursor)) [
      | inl first ↦ rw (first) (select-All P (own_comment uid) rows h)
      | inr later ↦
          rw (later)
            (select-All P (λ r. own_comment uid r && beyond desc cursor r.created_at) rows h)
    ]))

like_info-time :
    (user : ℕ → Option UserBrief) (r : NoticeLike) → (like_info user r).updated_at ≡ r.updated_at
unfolding like_info
like_info-time user r = refl

comment_info-time :
    (user : ℕ → Option UserBrief) (r : NoticeComment)
    → (comment_info user r).created_at ≡ r.created_at
unfolding comment_info
comment_info-time user r = refl

-- The page from a cursor on, where the statements succeed and BatchGetUserBrief gives the users.
abbrev pub page : (ℕ → UserBrief) → (List ℕ → List ℕ) → GetNoticesReq → Notices → ℤ → GetNoticesResp
page look order req s cursor =
    get_notices (λ ns. some (map look ns)) order works (record req { cursor = cursor }) s

module _ (look : ℕ → UserBrief) (own : (n : ℕ) → (look n).uid ≡ n) (order : List ℕ → List ℕ)
    (is_order : IsOrder order) (req : GetNoticesReq) (s : Notices)
    (named : All (λ r. r.commenter_uid ≢ 0) s.comments) where
  page-likes :
      (cursor : ℤ)
      → (page look order req s cursor).like_notices
        ≡ map (like_info (known look)) (find_likes req.uid cursor (clamp_limit req.limit) s.likes)
  unfolding get_notices
  page-likes cursor = like_infos-known look own order is_order _ _ (
      find_comments-All (λ r. r.commenter_uid ≢ 0) req.uid cursor (clamp_limit req.limit) s.comments
        named)

  page-comments :
      (cursor : ℤ)
      → (page look order req s cursor).comment_notices
        ≡ map
            (comment_info (known look))
            (find_comments req.uid cursor (clamp_limit req.limit) s.comments)
  unfolding get_notices
  page-comments cursor = comment_infos-known look own order is_order _ _ (
      find_comments-All (λ r. r.commenter_uid ≢ 0) req.uid cursor (clamp_limit req.limit) s.comments
        named)

  page-unread :
      (cursor : ℤ) (b : ReadAnswers)
      → b.likes_ok ≡ true
      → b.comments_ok ≡ true
      → (page look order req s cursor).unread_count ≡ (get_unread_count b req.uid s).total_unread
  unfolding get_notices get_unread_count
  page-unread cursor b l c = rw (l, c) refl

  -- Where no two notices of the user of one kind have the same time, and none the time 0, where every
  -- commenter has an id, and where BatchGetUserBrief finds every user: reading the pages in a row
  -- by the times of their last likes shows every like notice of the user, once, the last updated
  -- first, and by the times of their last comments every comment notice, once, the newest first, with
  -- the names of the users, in whatever order Go visits them; one page more than there are notices is
  -- enough. And every page tells the unread count that GetUnreadCount tells.
  pub read_notices_complete :
      Different like_time (select (own_like req.uid) s.likes)
      → All (λ r. r.updated_at ≢ 0) (select (own_like req.uid) s.likes)
      → Different comment_time (select (own_comment req.uid) s.comments)
      → All (λ r. r.created_at ≢ 0) (select (own_comment req.uid) s.comments)
      → (b : ReadAnswers) → b.likes_ok ≡ true
      → b.comments_ok ≡ true
      → (read
            (λ r. r.updated_at)
            (λ c. (page look order req s c).like_notices)
            (suc (length (all_likes req.uid s)))
            (pos 0)
          ≡ map (like_info (known look)) (all_likes req.uid s))
        × (read
              (λ r. r.created_at)
              (λ c. (page look order req s c).comment_notices)
              (suc (length (all_comments req.uid s)))
              (pos 0)
            ≡ map (comment_info (known look)) (all_comments req.uid s))
        × ((cursor : ℤ)
            → (page look order req s cursor).unread_count
              ≡ (get_unread_count b req.uid s).total_unread)
  unfolding find_likes find_comments
  read_notices_complete like_times like_some comment_times comment_some b likes_ok comments_ok = (
    read-query desc like_time (own_like req.uid) s.likes (λ r. r.updated_at)
        (like_info (known look)) (λ c. (page look order req s c).like_notices)
        (clamp_limit req.limit) (like_info-time (known look)) (clamp_limit-bounds req.limit).0
        (λ n. page-likes (pos n)) like_times like_some,
    read-query desc comment_time (own_comment req.uid) s.comments (λ r. r.created_at)
        (comment_info (known look)) (λ c. (page look order req s c).comment_notices)
        (clamp_limit req.limit) (comment_info-time (known look)) (clamp_limit-bounds req.limit).0
        (λ n. page-comments (pos n)) comment_times comment_some,
    λ cursor. page-unread cursor b likes_ok comments_ok,
  )
