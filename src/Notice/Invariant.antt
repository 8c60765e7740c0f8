-- ===== src/Notice/Invariant.antt =====
-- Every operation of the notice service keeps the table of like notices valid.
use gozero_x.Common.{
  ◌⊎◌, sym, Bool, inl, inr, ℕ, ◌≡◌, refl, true, false, Option, none, some, List, arith,
}
use mathlib.Core.Path.{subst}
use gozero_x.Json.{Message}
use gozero_x.Notice.Tables.{
  NoticeLike, NoticeComment, insert_comment, mark_like, mark_likes, aggregated, update_aggregation,
  upsert,
}
use gozero_x.Notice.Rows.{
  IsValid, Leaves, Found, map-IsValid, mark_like-Keeps, aggregated-Keeps, upsert-Leaves, find-Found,
  one_less-pos, one_less-mono,
}
use gozero_x.Notice.Consumer.{
  Action, liking, cancelling, commenting, unknown, action_of, dispatch, attempt, retry,
  set_comments, like_with, cancel_with, comment_with, comment_row, Notices, Answers, like_row,
  one_less, set_likes, cancelled, handle_like, handle_cancel_like, handle_comment, consume,
}
use gozero_x.Notice.Handlers.{ReadAnswers, MarkReadReq, mark_read, mark_read_comments}

set_likes-IsValid :
    (s : Notices) (o : Option (List NoticeLike))
    → IsValid s.likes
    → Leaves o
    → IsValid (set_likes s o).1.likes
unfolding set_likes
set_likes-IsValid s none h leaves = h
set_likes-IsValid s (some rs) h leaves = leaves

cancelled-IsValid :
    (a : Answers) (o : Option NoticeLike) (s : Notices)
    → IsValid s.likes
    → Found o
    → IsValid (cancelled a o s).1.likes
unfolding cancelled update_aggregation
cancelled-IsValid a none s h found = h
cancelled-IsValid a (some r) s h found =
    map-IsValid
      (aggregated a.now r.snow_nid r.recent_uid1 r.recent_uid2 (one_less r.total_count)
        (one_less r.recent_count))
      (aggregated-Keeps a.now r.snow_nid r.recent_uid1 r.recent_uid2 (one_less r.total_count)
        (one_less r.recent_count) (one_less-pos r.recent_count)
        (one_less-mono r.recent_count r.total_count found.1))
      s.likes h

like_with-IsValid :
    (a : Answers) (m : Message) (s : Notices) (o : Option ℕ) (ok : Bool)
    → IsValid s.likes
    → IsValid (like_with a m s o ok).1.likes
unfolding like_with
like_with-IsValid a m s none ok h = h
like_with-IsValid a m s (some snow_nid) false h = h
like_with-IsValid a m s (some snow_nid) true h =
    set_likes-IsValid s (upsert a.now (like_row m snow_nid) s.likes) h (
      upsert-Leaves a.now (like_row m snow_nid) s.likes
        (ground arith, ground arith, ground arith, refl) h)

cancel_with-IsValid :
    (a : Answers) (m : Message) (s : Notices) (ok : Bool)
    → IsValid s.likes
    → IsValid (cancel_with a m s ok).1.likes
unfolding cancel_with
cancel_with-IsValid a m s false h = h
cancel_with-IsValid a m s true h = cancelled-IsValid a _ s h (find-Found _ _ _ s.likes h)

set_comments-likes :
    (s : Notices) (o : Option (List NoticeComment)) → (set_comments s o).1.likes ≡ s.likes
unfolding set_comments
set_comments-likes s none = refl
set_comments-likes s (some rs) = refl

retry-likes :
    (a : Answers) (m : Message) (s : Notices) (o : Option ℕ) → (retry a m s o).1.likes ≡ s.likes
unfolding retry
retry-likes a m s none = refl
retry-likes a m s (some n) = set_comments-likes s _

attempt-likes :
    (a : Answers) (m : Message) (s : Notices) (o : Option (List NoticeComment))
    → (attempt a m s o).1.likes ≡ s.likes
unfolding attempt
attempt-likes a m s none = retry-likes a m s a.retry_id
attempt-likes a m s (some rs) = set_comments-likes s (some rs)

comment_with-likes :
    (a : Answers) (m : Message) (s : Notices) (o : Option ℕ) (ok : Bool)
    → (comment_with a m s o ok).1.likes ≡ s.likes
unfolding comment_with
comment_with-likes a m s none ok = refl
comment_with-likes a m s (some n) false = refl
comment_with-likes a m s (some n) true =
    attempt-likes a m s (insert_comment a.now (comment_row m n) s.comments)

dispatch-IsValid :
    (a : Answers) (m : Message) (s : Notices) (action : Action)
    → IsValid s.likes
    → IsValid (dispatch a m s action).1.likes
unfolding dispatch handle_like handle_cancel_like handle_comment
dispatch-IsValid a m s liking h = like_with-IsValid a m s a.new_id a.db_ok h
dispatch-IsValid a m s cancelling h = cancel_with-IsValid a m s a.db_ok h
dispatch-IsValid a m s commenting h =
    subst IsValid (sym (comment_with-likes a m s a.new_id a.db_ok)) h
dispatch-IsValid a m s unknown h = h

-- Every message leaves the like notices valid: no two rows of one target or one primary key, and in
-- every row the new likes are between 0 and all the likes, and none of a row that has been read.
pub consume-IsValid :
    (a : Answers) (o : Option Message) (s : Notices)
    → IsValid s.likes
    → IsValid (consume a o s).1.likes
unfolding consume
consume-IsValid a none s h = h
consume-IsValid a (some m) s h = dispatch-IsValid a m s (action_of m) h

mark_read_comments-likes :
    (a : ReadAnswers) (req : MarkReadReq) (s : Notices)
    → (mark_read_comments a req s).1.likes ≡ s.likes
unfolding mark_read_comments
mark_read_comments-likes a req s = ground arith

mark_read-likes :
    (a : ReadAnswers) (req : MarkReadReq) (s : Notices)
    → ((mark_read a req s).1.likes ≡ s.likes)
      ⊎ ((mark_read a req s).1.likes ≡ mark_likes a.likes_now req.uid s.likes)
unfolding mark_read mark_read_comments
mark_read-likes a req s = ground arith

-- Marking notices as read leaves the like notices valid, whatever kind is marked and whatever fails.
pub mark_read-IsValid :
    (a : ReadAnswers) (req : MarkReadReq) (s : Notices)
    → IsValid s.likes
    → IsValid (mark_read a req s).1.likes
unfolding mark_likes
mark_read-IsValid a req s h = elim (mark_read-likes a req s) [
  | inl kept ↦ subst IsValid (sym kept) h
  | inr marked ↦
      subst IsValid (sym marked) (
        map-IsValid (mark_like a.likes_now req.uid) (mark_like-Keeps a.likes_now req.uid) s.likes h)
]
