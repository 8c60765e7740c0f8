-- ===== src/Notice/Read.antt =====
-- Marking notices as read, and what a like that is taken back does to a notice that has been read.
use gozero_x.Common.{
  ℕ, ◌≡◌, ◌≢◌, refl, ap, ◌∙◌, true, false, Bool, Bool-cases, Option, none, some, inl, inr, List, [],
  ◌∷◌, map, ◌==◌, arith, ◌&&◌,
}
use gozero_x.Common.Int.{ℤ, pos, ◌+ℤ◌}
use gozero_x.Notice.Tables.{
  find_by_uid_and_target, same_target, aggregated, update_aggregation, NoticeLike, NoticeComment,
  mark_likes, mark_comments, count_unread_likes, count_unread_comments,
}
use gozero_x.Json.{Message}
use gozero_x.Notice.Cancel.{notice_of}
use gozero_x.Notice.Consumer.{
  Notices, Answers, one_less, handle_cancel_like, cancel_with, cancelled,
}
use gozero_x.Notice.Handlers.{
  ReadAnswers, MarkReadReq, mark_read, mark_read_comments, get_unread_count, GetUnreadCountResp,
}

mark_likes-own :
    (now uid : ℕ) (rs : List NoticeLike) → count_unread_likes uid (mark_likes now uid rs) ≡ pos 0
unfolding count_unread_likes mark_likes
mark_likes-own now uid [] = refl
mark_likes-own now uid (r ∷ rs) = ground (arith, mark_likes-own now uid rs)

mark_likes-other :
    (now uid v : ℕ) (rs : List NoticeLike)
    → v ≢ uid
    → count_unread_likes v (mark_likes now uid rs) ≡ count_unread_likes v rs
unfolding count_unread_likes mark_likes
mark_likes-other now uid v [] other = refl
mark_likes-other now uid v (r ∷ rs) other = ground (arith, mark_likes-other now uid v rs other)

mark_comments-own :
    (now uid : ℕ) (rs : List NoticeComment)
    → count_unread_comments uid (mark_comments now uid rs) ≡ 0
unfolding count_unread_comments mark_comments
mark_comments-own now uid [] = refl
mark_comments-own now uid (r ∷ rs) = ground (arith, mark_comments-own now uid rs)

mark_comments-other :
    (now uid v : ℕ) (rs : List NoticeComment)
    → v ≢ uid
    → count_unread_comments v (mark_comments now uid rs) ≡ count_unread_comments v rs
unfolding count_unread_comments mark_comments
mark_comments-other now uid v [] other = refl
mark_comments-other now uid v (r ∷ rs) other =
    ground (arith, mark_comments-other now uid v rs other)

-- What a user who has read everything is told.
abbrev pub nothing_unread : GetUnreadCountResp
nothing_unread = record {
  code = 0;
  msg = "success";
  like_unread = pos 0;
  comment_unread = pos 0;
  total_unread = pos 0;
}

-- A user who marks all notices as read, with statements that succeed, has no unread notice of either
-- kind after that.
pub mark_read-own :
    (a b : ReadAnswers) (req : MarkReadReq) (s : Notices)
    → req.notice_type ≡ 0
    → a.likes_ok ≡ true
    → a.comments_ok ≡ true
    → b.likes_ok ≡ true
    → b.comments_ok ≡ true
    → get_unread_count b req.uid (mark_read a req s).1 ≡ nothing_unread
unfolding get_unread_count mark_read mark_read_comments ◌+ℤ◌
mark_read-own a b req s all a_likes a_comments b_likes b_comments = ground (
  arith,
  mark_likes-own a.likes_now req.uid s.likes,
  mark_comments-own a.comments_now req.uid s.comments,
)

-- Whatever kind a user marks as read, and whatever fails, another user is told the same as before.
pub mark_read-other :
    (a b : ReadAnswers) (req : MarkReadReq) (s : Notices) (v : ℕ)
    → v ≢ req.uid
    → get_unread_count b v (mark_read a req s).1 ≡ get_unread_count b v s
unfolding get_unread_count mark_read mark_read_comments
mark_read-other a b req s v other = ground (
  arith,
  mark_likes-other a.likes_now req.uid v s.likes other,
  mark_comments-other a.comments_now req.uid v s.comments other,
)

-- The row that a like leaves behind that is taken back.
abbrev pub taken_back : ℕ → NoticeLike → NoticeLike
taken_back now r = record r {
  total_count = one_less r.total_count;
  recent_count = one_less r.recent_count;
  is_read = 0;
  updated_at = now;
}

abbrev on_found : (NoticeLike → NoticeLike) → Option NoticeLike → Option NoticeLike
on_found f none = none
on_found f (some r) = some (f r)

module _ (now n u1 u2 : ℕ) (total recent : ℤ) (u t i : ℕ) where
  aggregated-target :
      (x : NoticeLike)
      → (same_target u t i (aggregated now n u1 u2 total recent x)
          && (aggregated now n u1 u2 total recent x).status == 0)
        ≡ (same_target u t i x && x.status == 0)
  aggregated-target x = ground arith

  find-aggregated :
      (rs : List NoticeLike)
      → find_by_uid_and_target u t i (map (aggregated now n u1 u2 total recent) rs)
        ≡ on_found (aggregated now n u1 u2 total recent) (find_by_uid_and_target u t i rs)
  unfolding find_by_uid_and_target
  find-aggregated [] = refl
  find-aggregated (x ∷ xs) =
      rw (aggregated-target x) (elim (Bool-cases (same_target u t i x && x.status == 0)) [
        | inl here ↦ rw (here) refl
        | inr there ↦ rw (there) (find-aggregated xs)
      ])

aggregated_self :
    (now : ℕ) (r : NoticeLike)
    → aggregated now r.snow_nid r.recent_uid1 r.recent_uid2
        (one_less r.total_count)
        (one_less r.recent_count)
        r
      ≡ taken_back now r
aggregated_self now r = ground arith

cancel_with-reopens :
    (a : Answers) (m : Message) (s : Notices) (r : NoticeLike) (ok : Bool)
    → ok ≡ true
    → notice_of m s.likes ≡ some r
    → notice_of m (cancel_with a m s ok).1.likes ≡ some (taken_back a.now r)
unfolding cancel_with cancelled update_aggregation
cancel_with-reopens a m s r false ok e = ground arith
cancel_with-reopens a m s r true ok e = rw (e) (
    find-aggregated a.now r.snow_nid r.recent_uid1 r.recent_uid2 (one_less r.total_count)
      (one_less r.recent_count) _ _ _ s.likes
    ∙ ap (on_found _) e
    ∙ ap some (aggregated_self a.now r))

-- A like that is taken back makes the notice unread, also where the owner has read it, and leaves
-- both names of the last users who liked in place, also that of the user who takes the like back. The
-- notice is there and the database can be reached.
pub handle_cancel_like-reopens :
    (a : Answers) (m : Message) (s : Notices) (r : NoticeLike)
    → a.db_ok ≡ true
    → notice_of m s.likes ≡ some r
    → notice_of m (handle_cancel_like a m s).1.likes ≡ some (taken_back a.now r)
unfolding handle_cancel_like
handle_cancel_like-reopens a m s r ok e = cancel_with-reopens a m s r a.db_ok ok e
