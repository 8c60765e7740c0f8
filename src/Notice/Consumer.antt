-- ===== src/Notice/Consumer.antt =====
-- The consumer of notices: app/noticeService/cmd/mq/internal/consumer/noticeconsumer.go.
use text.Mathlib.Text.{◌==◌ as str_eq}
use gozero_x.Common.{true, false, ℕ, Bool, ◌||◌, Option, none, some, List, if◌then◌else◌}
use gozero_x.Common.Int.{ℤ, pos, negsuc, ◌+ℤ◌, ltb_ℤ}
use gozero_x.Json.{Message, field, to_int64, to_string}
use gozero_x.Interact.Effects.{Consumed, done, failed}
use gozero_x.Notice.Tables.{
  NoticeLike, NoticeComment, find_by_uid_and_target, update_aggregation, upsert, insert_comment,
}

-- The state of the service.
pub record Notices : Type 0 where
  pub likes : List NoticeLike
  pub comments : List NoticeComment

-- What the consumer is told: the two answers of the id generator, the time of the database, and
-- whether it can be reached.
pub record Answers : Type 0 where
  pub new_id : Option ℕ
  pub retry_id : Option ℕ
  pub now : ℕ
  pub db_ok : Bool

-- The notice that `handleLike` builds.
abbrev pub like_row : Message → ℕ → NoticeLike
like_row m snow_nid = record {
  snow_nid = snow_nid;
  target_type = to_int64 (field "target_type" m);
  target_id = to_int64 (field "target_id" m);
  snow_tid = to_int64 (field "snow_tid" m);
  root_id = to_int64 (field "root_id" m);
  recent_uid1 = to_int64 (field "liker_uid" m);
  recent_uid2 = 0;
  uid = to_int64 (field "recipient_uid" m);
  total_count = pos 1;
  recent_count = pos 1;
  is_read = 0;
  created_at = 0;
  updated_at = 0;
  status = 0;
}

-- What a statement leaves: the old state if it fails.
unfoldable pub set_likes : Notices → Option (List NoticeLike) → Consumed × Notices
set_likes s none = (failed, s)
set_likes s (some likes) = (done, record s { likes = likes })

-- `handleLike`, with the id of the generator, and whether the database can be reached
unfoldable pub like_with : Answers → Message → Notices → Option ℕ → Bool → Consumed × Notices
like_with a m s none ok = (failed, s)
like_with a m s (some snow_nid) false = (failed, s)
like_with a m s (some snow_nid) true = set_likes s (upsert a.now (like_row m snow_nid) s.likes)

-- `handleLike`
unfoldable pub handle_like : Answers → Message → Notices → Consumed × Notices
handle_like a m s = like_with a m s a.new_id a.db_ok

-- One less, and 0 where that is negative.
abbrev pub one_less : ℤ → ℤ
one_less n = let m = n +ℤ negsuc 0 in if ltb_ℤ m (pos 0) then pos 0 else m

-- `handleCancelLike`, with the notice that is found
unfoldable pub cancelled : Answers → Option NoticeLike → Notices → Consumed × Notices
cancelled a none s = (done, s)
cancelled a (some r) s = (
  done,
  record s {
    likes =
        update_aggregation a.now r.snow_nid r.recent_uid1 r.recent_uid2 (one_less r.total_count)
          (one_less r.recent_count) s.likes;
  },
)

-- `handleCancelLike`, and whether the database can be reached
unfoldable pub cancel_with : Answers → Message → Notices → Bool → Consumed × Notices
cancel_with a m s false = (failed, s)
cancel_with a m s true =
    cancelled a
      (find_by_uid_and_target (to_int64 (field "recipient_uid" m))
        (to_int64 (field "target_type" m)) (to_int64 (field "target_id" m)) s.likes)
      s

-- `handleCancelLike`
unfoldable pub handle_cancel_like : Answers → Message → Notices → Consumed × Notices
handle_cancel_like a m s = cancel_with a m s a.db_ok

-- The notice that `handleComment` builds.
abbrev pub comment_row : Message → ℕ → NoticeComment
comment_row m snow_nid = record {
  snow_nid = snow_nid;
  target_type = to_int64 (field "target_type" m);
  commenter_uid = to_int64 (field "commenter_uid" m);
  uid = to_int64 (field "recipient_uid" m);
  snow_tid = to_int64 (field "snow_tid" m);
  snow_cid = to_int64 (field "snow_cid" m);
  root_id = to_int64 (field "root_id" m);
  parent_id = to_int64 (field "parent_id" m);
  content = to_string (field "content" m);
  replied_content = to_string (field "replied_content" m);
  is_read = 0;
  created_at = to_int64 (field "timestamp" m);
  updated_at = to_int64 (field "timestamp" m);
  status = 0;
}

unfoldable pub set_comments : Notices → Option (List NoticeComment) → Consumed × Notices
set_comments s none = (failed, s)
set_comments s (some comments) = (done, record s { comments = comments })

-- The second attempt, after a primary key was taken.
unfoldable pub retry : Answers → Message → Notices → Option ℕ → Consumed × Notices
retry a m s none = (failed, s)
retry a m s (some snow_nid) =
    set_comments s (insert_comment a.now (comment_row m snow_nid) s.comments)

-- The first attempt. Of a database that can be reached, a primary key that is taken is the one error.
unfoldable pub attempt :
    Answers → Message → Notices → Option (List NoticeComment) → Consumed × Notices
attempt a m s none = retry a m s a.retry_id
attempt a m s (some comments) = set_comments s (some comments)

-- `handleComment`, with the id of the generator, and whether the database can be reached
unfoldable pub comment_with : Answers → Message → Notices → Option ℕ → Bool → Consumed × Notices
comment_with a m s none ok = (failed, s)
comment_with a m s (some snow_nid) false = (failed, s)
comment_with a m s (some snow_nid) true =
    attempt a m s (insert_comment a.now (comment_row m snow_nid) s.comments)

-- `handleComment`
unfoldable pub handle_comment : Answers → Message → Notices → Consumed × Notices
handle_comment a m s = comment_with a m s a.new_id a.db_ok

-- The cases of the switch in `Consume`.
pub data Action : Type 0 where
  liking cancelling commenting unknown : Action

abbrev pub action_of : Message → Action
action_of m =
    let action = to_string (field "action" m) in
    if str_eq action "like_tweet" || str_eq action "like_comment"
    then liking
    else if str_eq action "cancel_like_tweet" || str_eq action "cancel_like_comment"
    then cancelling
    else if str_eq action "comment_tweet" || str_eq action "reply_comment"
    then commenting
    else unknown

unfoldable pub dispatch : Answers → Message → Notices → Action → Consumed × Notices
dispatch a m s liking = handle_like a m s
dispatch a m s cancelling = handle_cancel_like a m s
dispatch a m s commenting = handle_comment a m s
dispatch a m s unknown = (failed, s)

-- `Consume`, on a body that json.Unmarshal reads (`none` if it does not).
unfoldable pub consume : Answers → Option Message → Notices → Consumed × Notices
consume a none s = (failed, s)
consume a (some m) s = dispatch a m s (action_of m)
