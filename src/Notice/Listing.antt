-- ===== src/Notice/Listing.antt =====
-- The notices of a user: app/noticeService/cmd/rpc/internal/logic/getnoticeslogic.go with FindByUid of
-- app/noticeService/model/noticelikemodel.go and noticecommentmodel.go.
pub mod Names
pub mod Complete
pub mod OneCursor
use Prim.Native.String.{String}
use gozero_x.Common.{
  ℕ, Bool, not, ◌&&◌, Option, none, some, List, [], ◌∷◌, ◌++◌, map, ◌==◌, if◌then◌else◌, take,
}
use gozero_x.Common.Int.{ℤ, pos, ◌+ℤ◌}
use gozero_x.Notice.Tables.{NoticeLike, NoticeComment, count_unread_likes, count_unread_comments}
use gozero_x.Notice.Consumer.{Notices}
use gozero_x.Content.Batch.{UserBrief, unique, find_user}
use gozero_x.Paging.Query.{desc, order_by, from_cursor}
use gozero_x.Paging.{clamp_limit}

pub record GetNoticesReq : Type 0 where
  pub uid : ℕ
  pub cursor : ℤ
  pub limit : ℤ

pub record NoticeLikeInfo : Type 0 where
  pub snow_nid : ℕ
  pub target_type : ℕ
  pub target_id : ℕ
  pub snow_tid : ℕ
  pub root_id : ℕ
  pub recent_uid1 : ℕ
  pub recent_uid2 : ℕ
  pub uid : ℕ
  pub total_count : ℤ
  pub recent_count : ℤ
  pub is_read : ℕ
  pub created_at : ℕ
  pub updated_at : ℕ
  pub recent_nickname1 : String
  pub recent_avatar1 : String
  pub recent_nickname2 : String
  pub recent_avatar2 : String

pub record NoticeCommentInfo : Type 0 where
  pub snow_nid : ℕ
  pub target_type : ℕ
  pub commenter_uid : ℕ
  pub uid : ℕ
  pub snow_tid : ℕ
  pub snow_cid : ℕ
  pub root_id : ℕ
  pub parent_id : ℕ
  pub content : String
  pub replied_content : String
  pub is_read : ℕ
  pub created_at : ℕ
  pub updated_at : ℕ
  pub commenter_nickname : String
  pub commenter_avatar : String

pub record GetNoticesResp : Type 0 where
  pub code : ℕ
  pub msg : String
  pub like_notices : List NoticeLikeInfo
  pub comment_notices : List NoticeCommentInfo
  pub unread_count : ℤ

-- Whether the two queries for notices and the two for counts succeed.
pub record PageAnswers : Type 0 where
  pub likes_ok : Bool
  pub comments_ok : Bool
  pub likes_counted : Bool
  pub comments_counted : Bool

-- `FindByUid` of the likes
abbrev pub own_like : ℕ → NoticeLike → Bool
own_like uid r = r.uid == uid && r.status == 0

unfoldable pub find_likes : ℕ → ℤ → ℕ → List NoticeLike → List NoticeLike
find_likes uid cursor limit rows = take limit (
    order_by desc (λ r. r.updated_at)
      (from_cursor desc (λ r. r.updated_at) (own_like uid) cursor rows))

-- `FindByUid` of the comments
abbrev pub own_comment : ℕ → NoticeComment → Bool
own_comment uid r = r.uid == uid && r.status == 0

unfoldable pub find_comments : ℕ → ℤ → ℕ → List NoticeComment → List NoticeComment
find_comments uid cursor limit rows = take limit (
    order_by desc (λ r. r.created_at)
      (from_cursor desc (λ r. r.created_at) (own_comment uid) cursor rows))

-- `uidSet`, as the list of the uids that are put into it.
abbrev pub nonzero : ℕ → List ℕ
nonzero uid = if uid == 0 then [] else uid ∷ []

unfoldable pub like_uids : List NoticeLike → List ℕ
like_uids [] = []
like_uids (r ∷ rs) = nonzero r.recent_uid1 ++ (nonzero r.recent_uid2 ++ like_uids rs)

abbrev pub shown_uids : List NoticeLike → List NoticeComment → List ℕ
shown_uids likes comments = like_uids likes ++ map (λ r. r.commenter_uid) comments

-- The nickname and the avatar of a user who is in `userMap`.
abbrev pub name_of : Option UserBrief → String × String
name_of none = ("", "")
name_of (some u) = (u.nickname, u.avatar)

unfoldable pub like_info : (ℕ → Option UserBrief) → NoticeLike → NoticeLikeInfo
like_info user r = record {
  snow_nid = r.snow_nid;
  target_type = r.target_type;
  target_id = r.target_id;
  snow_tid = r.snow_tid;
  root_id = r.root_id;
  recent_uid1 = r.recent_uid1;
  recent_uid2 = r.recent_uid2;
  uid = r.uid;
  total_count = r.total_count;
  recent_count = r.recent_count;
  is_read = r.is_read;
  created_at = r.created_at;
  updated_at = r.updated_at;
  recent_nickname1 = (name_of (user r.recent_uid1)).0;
  recent_avatar1 = (name_of (user r.recent_uid1)).1;
  recent_nickname2 = (name_of (user r.recent_uid2)).0;
  recent_avatar2 = (name_of (user r.recent_uid2)).1;
}

unfoldable pub comment_info : (ℕ → Option UserBrief) → NoticeComment → NoticeCommentInfo
comment_info user r = record {
  snow_nid = r.snow_nid;
  target_type = r.target_type;
  commenter_uid = r.commenter_uid;
  uid = r.uid;
  snow_tid = r.snow_tid;
  snow_cid = r.snow_cid;
  root_id = r.root_id;
  parent_id = r.parent_id;
  content = r.content;
  replied_content = r.replied_content;
  is_read = r.is_read;
  created_at = r.created_at;
  updated_at = r.updated_at;
  commenter_nickname = (name_of (user r.commenter_uid)).0;
  commenter_avatar = (name_of (user r.commenter_uid)).1;
}

abbrev pub notices_failure : String → GetNoticesResp
notices_failure msg = record {
  code = 130202;
  msg = msg;
  like_notices = [];
  comment_notices = [];
  unread_count = pos 0;
}

-- `brief` is the call of BatchGetUserBrief, `none` for an error or a code that is not 0; `order` is
-- the order in which Go visits the keys of a map.
module _ (brief : List ℕ → Option (List UserBrief)) (order : List ℕ → List ℕ) where
  -- `userMap`; without uids there is no call.
  unfoldable pub user_map : List ℕ → ℕ → Option UserBrief
  user_map [] uid = none
  user_map (u ∷ us) uid = elim (brief (order (unique (u ∷ us)))) [
    | none ↦ none
    | some users ↦ find_user uid users
  ]

  -- `GetNotices`
  unfoldable pub get_notices : PageAnswers → GetNoticesReq → Notices → GetNoticesResp
  get_notices a req s =
      if not a.likes_ok
      then notices_failure "查询点赞通知失败"
      else if not a.comments_ok
      then notices_failure "查询评论通知失败"
      else let limit = clamp_limit req.limit in
        let likes = find_likes req.uid req.cursor limit s.likes in
        let comments = find_comments req.uid req.cursor limit s.comments in
        let user = user_map (shown_uids likes comments) in
        record {
          code = 0;
          msg = "success";
          like_notices = map (like_info user) likes;
          comment_notices = map (comment_info user) comments;
          unread_count =
              (if a.likes_counted then count_unread_likes req.uid s.likes else pos 0)
              +ℤ pos (if a.comments_counted then count_unread_comments req.uid s.comments else 0);
        }
