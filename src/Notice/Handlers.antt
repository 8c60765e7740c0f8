-- ===== src/Notice/Handlers.antt =====
-- The handlers app/noticeService/cmd/rpc/internal/logic/getunreadcountlogic.go and markreadlogic.go.
use Prim.Native.String.{String}
use gozero_x.Common.{ℕ, Bool, ◌||◌, if◌then◌else◌, ◌==◌}
use gozero_x.Common.Int.{ℤ, pos, ◌+ℤ◌}
use gozero_x.Notice.Tables.{count_unread_likes, count_unread_comments, mark_likes, mark_comments}
use gozero_x.Notice.Consumer.{Notices}

-- Whether the statements succeed on the two tables, and the two readings of the clock.
pub record ReadAnswers : Type 0 where
  pub likes_ok : Bool
  pub comments_ok : Bool
  pub likes_now : ℕ
  pub comments_now : ℕ

pub record GetUnreadCountResp : Type 0 where
  pub code : ℕ
  pub msg : String
  pub like_unread : ℤ
  pub comment_unread : ℤ
  pub total_unread : ℤ

unfoldable pub unread_failure : GetUnreadCountResp
unread_failure = record {
  code = 130202;
  msg = "查询未读数失败";
  like_unread = pos 0;
  comment_unread = pos 0;
  total_unread = pos 0;
}

-- `GetUnreadCount`
unfoldable pub get_unread_count : ReadAnswers → ℕ → Notices → GetUnreadCountResp
unfolding unread_failure
get_unread_count a uid s =
    if a.likes_ok
    then if a.comments_ok
      then record {
        code = 0;
        msg = "success";
        like_unread = count_unread_likes uid s.likes;
        comment_unread = pos (count_unread_comments uid s.comments);
        total_unread = count_unread_likes uid s.likes +ℤ pos (count_unread_comments uid s.comments);
      }
      else unread_failure
    else unread_failure

pub record MarkReadReq : Type 0 where
  pub uid : ℕ
  pub notice_type : ℕ

pub record MarkReadResp : Type 0 where
  pub code : ℕ
  pub msg : String

-- The second part of `MarkRead`
unfoldable pub mark_read_comments : ReadAnswers → MarkReadReq → Notices → MarkReadResp × Notices
mark_read_comments a req s =
    if req.notice_type == 0 || req.notice_type == 2
    then if a.comments_ok
      then (
        record { code = 0; msg = "success" },
        record s { comments = mark_comments a.comments_now req.uid s.comments },
      )
      else (record { code = 130202; msg = "标记已读失败" }, s)
    else (record { code = 0; msg = "success" }, s)

-- `MarkRead`
unfoldable pub mark_read : ReadAnswers → MarkReadReq → Notices → MarkReadResp × Notices
mark_read a req s =
    if req.notice_type == 0 || req.notice_type == 1
    then if a.likes_ok
      then mark_read_comments a req (record s { likes = mark_likes a.likes_now req.uid s.likes })
      else (record { code = 130202; msg = "标记已读失败" }, s)
    else mark_read_comments a req s
