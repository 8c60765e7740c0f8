-- ===== src/Interact/CommentLikes.antt =====
-- Likes of comments and replies: app/interactService/cmd/rpc/internal/logic/likecommentlogic.go and
-- the consumer app/interactService/cmd/mq/internal/consumer/likecommentconsumer.go.
pub mod Laws
use Prim.Native.String.{String}
use text.Mathlib.Text.{◌==◌ as str_eq}
use gozero_x.Common.{
  ℕ, Bool, true, false, ◌||◌, Option, none, some, List, [], ◌∷◌, ◌++◌, ◌==◌, if◌then◌else◌,
}
use gozero_x.Common.Int.{ℤ, pos, negsuc}
use gozero_x.Json.{Message, int, str, field, to_int64, to_string}
use gozero_x.Cache.{key, nat, raw}
use gozero_x.Interact.Effects.{
  Effect, push, cache_incr, update_comment_count, update_reply_count, insert_comment_like,
  update_comment_like, upsert_like_sync, CommentLike, Consumed, done, failed, like_delta,
}

pub record LikeCommentReq : Type 0 where
  pub is_created : ℕ
  pub snow_likes_id : ℕ
  pub uid : ℕ
  pub snow_cid : ℕ
  pub snow_tid : ℕ
  pub status : ℕ
  pub is_reply : ℕ

pub record LikeCommentInfo : Type 0 where
  pub snow_likes_id : ℕ
  pub uid : ℕ
  pub snow_cid : ℕ
  pub snow_tid : ℕ
  pub status : ℕ
  pub update_time : ℕ

pub record LikeCommentResp : Type 0 where
  pub code : ℕ
  pub msg : String
  pub like : Option LikeCommentInfo

-- What the handler is told: the id that GenID makes, three readings of the clock, the author of the
-- comment as GetCommentBySnowCid finds it, and the author and the root comment of the reply as
-- GetReplyBySnowCid finds them. `none` is an error.
pub record Answers : Type 0 where
  pub new_id : Option ℕ
  pub now : ℕ
  pub notice_now : ℕ
  pub event_now : ℕ
  pub comment_author : Option ℕ
  pub reply_author : Option (ℕ × ℕ)

-- `sendLikeCommentMessage`
abbrev pub like_message : String → ℕ → LikeCommentReq → ℕ → Message
like_message action likes_id req now =
    ("action", str action)
    ∷ ("snow_likes_id", int likes_id)
    ∷ ("uid", int req.uid)
    ∷ ("snow_cid", int req.snow_cid)
    ∷ ("snow_tid", int req.snow_tid)
    ∷ ("status", int req.status)
    ∷ ("created_at", int now)
    ∷ ("updated_at", int now)
    ∷ ("is_reply", int req.is_reply)
    ∷ []

send_like_comment_message : ℕ → LikeCommentReq → ℕ → Effect
send_like_comment_message likes_id req now = push "like_comment" (nat likes_id ∷ []) (
    like_message (if req.is_created == 0 then "create_like_comment" else "update_like_comment")
      likes_id req now)

-- IncrCommentLikeCount or IncrReplyLikeCount
update_comment_like_count : ℕ → ℤ → ℕ → Effect
update_comment_like_count snow_cid delta is_reply =
    if is_reply == 0
    then cache_incr (key "comment" "info" snow_cid) "like_count" delta
    else cache_incr (key "reply" "info" snow_cid) "like_count" delta

abbrev pub like_action : ℕ → String
like_action status = if status == 0 then "cancel_like_comment" else "like_comment"

-- The recipient and the root comment of the notice.
unfoldable pub liked_author : Answers → LikeCommentReq → Option (ℕ × ℕ)
liked_author a req =
    if req.is_reply == 0
    then elim a.comment_author [ none ↦ none | some uid ↦ some (uid, 0) ]
    else a.reply_author

-- `sendLikeCommentNotification`
abbrev pub like_notice : LikeCommentReq → ℕ → ℕ → ℕ → Message
like_notice req recipient_uid root_id now =
    ("action", str (like_action req.status))
    ∷ ("target_type", int 1)
    ∷ ("target_id", int req.snow_cid)
    ∷ ("snow_tid", int req.snow_tid)
    ∷ ("root_id", int root_id)
    ∷ ("liker_uid", int req.uid)
    ∷ ("recipient_uid", int recipient_uid)
    ∷ ("timestamp", int now)
    ∷ []

send_like_comment_notification : Answers → LikeCommentReq → List Effect
send_like_comment_notification a req = elim (liked_author a req) [
  | none ↦ []
  | some (recipient_uid, root_id) ↦
      if recipient_uid == req.uid
      then []
      else push "notice" (raw "like_comment_" ∷ nat recipient_uid ∷ raw "_" ∷ nat req.snow_cid ∷ [])
          (like_notice req recipient_uid root_id a.notice_now)
        ∷ []
]

-- `sendRecommendInteraction`
send_recommend_interaction : Answers → LikeCommentReq → Effect
send_recommend_interaction a req =
    push "recommend_interaction" (nat req.uid ∷ raw "_" ∷ nat req.snow_cid ∷ []) (
      ("action", str (like_action req.status))
      ∷ ("uid", int req.uid)
      ∷ ("snow_tid", int req.snow_tid)
      ∷ ("snow_cid", int req.snow_cid)
      ∷ ("content", str "")
      ∷ ("timestamp", int a.event_now)
      ∷ [])

-- The handler once the id of the like is known.
liked : Answers → LikeCommentReq → ℕ → LikeCommentResp × List Effect
unfolding send_like_comment_message update_comment_like_count send_like_comment_notification
    send_recommend_interaction
liked a req likes_id = (
  record {
    code = 0;
    msg = "success";
    like = some (record {
      snow_likes_id = likes_id;
      uid = req.uid;
      snow_cid = req.snow_cid;
      snow_tid = req.snow_tid;
      status = req.status;
      update_time = a.now;
    });
  },
  send_like_comment_message likes_id req a.now
      ∷ update_comment_like_count req.snow_cid (like_delta req.status) req.is_reply
      ∷ (send_like_comment_notification a req ++ (send_recommend_interaction a req ∷ [])),
)

-- `LikeComment`
pub like_comment : Answers → LikeCommentReq → LikeCommentResp × List Effect
like_comment a req =
    if req.is_created == 0
    then elim a.new_id [
      | none ↦ (record { code = 120501; msg = "生成点赞ID失败"; like = none }, [])
      | some likes_id ↦ liked a req likes_id
    ]
    else liked a req req.snow_likes_id

-- The row that the consumer builds from a message.
row : Message → CommentLike
row m = record {
  snow_likes_id = to_int64 (field "snow_likes_id" m);
  uid = to_int64 (field "uid" m);
  snow_cid = to_int64 (field "snow_cid" m);
  snow_tid = to_int64 (field "snow_tid" m);
  status = to_int64 (field "status" m);
}

-- `updateCommentLikeCount` of the consumer
count_comment_like : ℕ → ℤ → ℕ → List Effect
count_comment_like snow_cid delta is_reply =
    if snow_cid == 0
    then []
    else if is_reply == 0
    then update_comment_count snow_cid 1 delta ∷ []
    else update_reply_count snow_cid 1 delta ∷ []

-- `updateUserLikeSync`
pub update_user_like_sync : Message → List Effect
update_user_like_sync m =
    let uid = to_int64 (field "uid" m) in
    let updated_at = to_int64 (field "updated_at" m) in
    if uid == 0 || updated_at == 0 then [] else upsert_like_sync uid updated_at ∷ []

-- `handleCreate`. The flag says whether the table takes the row.
handle_create : Bool → Message → Consumed × List Effect
unfolding row count_comment_like update_user_like_sync
handle_create false m = (failed, [])
handle_create true m = (
  done,
  insert_comment_like (row m)
      ∷ (count_comment_like (to_int64 (field "snow_cid" m)) (pos 1) (to_int64 (field "is_reply" m))
          ++ update_user_like_sync m),
)

-- `handleUpdate`
handle_update : Bool → Message → Consumed × List Effect
unfolding row count_comment_like update_user_like_sync
handle_update false m = (failed, [])
handle_update true m = (
  done,
  update_comment_like (row m)
      ∷ (count_comment_like (to_int64 (field "snow_cid" m))
            (like_delta (to_int64 (field "status" m))) (to_int64 (field "is_reply" m))
          ++ update_user_like_sync m),
)

-- `LikeCommentConsumer.Consume`, on a body that json.Unmarshal reads (`none` if it does not).
pub consume_like_comment : Bool → Option Message → Consumed × List Effect
unfolding handle_create handle_update
consume_like_comment row_ok none = (failed, [])
consume_like_comment row_ok (some m) =
    let action = to_string (field "action" m) in
    if str_eq action "create_like_comment"
    then handle_create row_ok m
    else if str_eq action "update_like_comment"
    then handle_update row_ok m
    else (failed, [])
