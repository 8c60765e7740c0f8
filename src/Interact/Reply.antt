-- ===== src/Interact/Reply.antt =====
-- Creating a reply: app/interactService/cmd/rpc/internal/logic/createreplylogic.go.
pub mod Counts
use Prim.Native.String.{String}
use gozero_x.Common.{
  ℕ, Bool, not, ◌&&◌, Option, none, some, List, [], ◌∷◌, ◌++◌, ◌==◌, if◌then◌else◌,
}
use gozero_x.Common.Int.{ℤ, pos}
use gozero_x.Json.{Message, int, str}
use gozero_x.Cache.{key, nat, raw}
use gozero_x.Cache.Replies.{Reply}
use gozero_x.Interact.Effects.{Effect, push, lpush, cache_incr, cache_expire, cache_add}
use gozero_x.Interact.Shared.{
  CacheAnswers, set_reply_to_cache, CommentOrReply, UserAnswer, name_of, send_recommend_interaction,
}

pub record CreateReplyReq : Type 0 where
  pub snow_tid : ℕ
  pub uid : ℕ
  pub parent_id : ℕ
  pub root_id : ℕ
  pub content : String

pub record ReplyInfo : Type 0 where
  pub snow_cid : ℕ
  pub snow_tid : ℕ
  pub uid : ℕ
  pub parent_id : ℕ
  pub root_id : ℕ
  pub content : String
  pub like_count : ℤ
  pub reply_count : ℤ
  pub create_time : ℕ
  pub nickname : String
  pub avatar : String

pub record CreateReplyResp : Type 0 where
  pub code : ℕ
  pub msg : String
  pub reply : Option ReplyInfo

-- What the handler is told. `parent` is what GetCommentOrReplyBySnowCid finds.
pub record Answers : Type 0 where
  pub new_id : Option ℕ
  pub now : ℕ
  pub retry_time : ℕ
  pub event_now : ℕ
  pub cache : CacheAnswers
  pub push_ok : Bool
  pub parent : Option CommentOrReply
  pub user : UserAnswer

abbrev pub new_reply : CreateReplyReq → ℕ → ℕ → Reply
new_reply req snow_cid now = record {
  snow_cid = snow_cid;
  cid = 0;
  snow_tid = req.snow_tid;
  uid = req.uid;
  parent_id = req.parent_id;
  root_id = req.root_id;
  content = req.content;
  like_count = pos 0;
  reply_count = pos 0;
  status = 0;
  created_at = now;
  updated_at = now;
}

-- Step 4: the cached counts and the set of replies.
count_reply : CreateReplyReq → ℕ → List Effect
count_reply req snow_cid =
    cache_incr (key "tweet" "info" req.snow_tid) "comment_count" (pos 1)
    ∷ cache_incr (key "comment" "info" req.parent_id) "reply_count" (pos 1)
    ∷ ((if not (req.root_id == 0) && not (req.root_id == req.parent_id)
          then cache_incr (key "comment" "info" req.root_id) "reply_count" (pos 1) ∷ []
          else [])
        ++ (if not (req.root_id == 0)
            then cache_add (key "comment" "replies" req.root_id) (snow_cid ∷ [])
              ∷ cache_expire (key "comment" "replies" req.root_id) 1800
              ∷ []
            else []))

-- The body of `sendCreateReplyMessage`; both counters of a new reply are 0.
abbrev pub create_message : CreateReplyReq → ℕ → ℕ → Message
create_message req snow_cid now =
    ("action", str "create_reply")
    ∷ ("snow_cid", int snow_cid)
    ∷ ("snow_tid", int req.snow_tid)
    ∷ ("uid", int req.uid)
    ∷ ("parent_id", int req.parent_id)
    ∷ ("root_id", int req.root_id)
    ∷ ("content", str req.content)
    ∷ ("status", int 0)
    ∷ ("created_at", int now)
    ∷ ("updated_at", int now)
    ∷ ("like_count", int 0)
    ∷ ("reply_count", int 0)
    ∷ []

-- `recordFailedMessage`
record_failed_message : CreateReplyReq → ℕ → ℕ → ℕ → Effect
record_failed_message req snow_cid now retry_time = lpush "failed:reply:create" (
    ("snow_cid", int snow_cid)
    ∷ ("snow_tid", int req.snow_tid)
    ∷ ("uid", int req.uid)
    ∷ ("parent_id", int req.parent_id)
    ∷ ("root_id", int req.root_id)
    ∷ ("content", str req.content)
    ∷ ("created_at", int now)
    ∷ ("retry_count", int 0)
    ∷ ("last_retry", int retry_time)
    ∷ [])

-- `sendCreateReplyMessage`, and the record of a message that could not be sent
send_create_reply : Answers → CreateReplyReq → ℕ → List Effect
unfolding record_failed_message
send_create_reply a req snow_cid =
    if a.push_ok
    then push "comment_create" (nat snow_cid ∷ []) (create_message req snow_cid a.now) ∷ []
    else record_failed_message req snow_cid a.now a.retry_time ∷ []

-- `sendReplyNotification`
send_reply_notification : Answers → CreateReplyReq → ℕ → List Effect
send_reply_notification a req snow_cid = elim a.parent [
  | none ↦ []
  | some parent ↦
      if parent.uid == req.uid
      then []
      else push "notice" (raw "reply_" ∷ nat parent.uid ∷ raw "_" ∷ nat snow_cid ∷ []) (
          ("action", str "reply_comment")
          ∷ ("target_type", int 1)
          ∷ ("commenter_uid", int req.uid)
          ∷ ("recipient_uid", int parent.uid)
          ∷ ("snow_tid", int req.snow_tid)
          ∷ ("snow_cid", int snow_cid)
          ∷ ("root_id", int req.root_id)
          ∷ ("parent_id", int req.parent_id)
          ∷ ("content", str req.content)
          ∷ ("replied_content", str parent.content)
          ∷ ("timestamp", int a.now)
          ∷ [])
        ∷ []
]

-- Steps 4 to 7, once the reply is in the cache.
created : Answers → CreateReplyReq → ℕ → List Effect
created a req snow_cid =
    count_reply req snow_cid
    ++ (send_create_reply a req snow_cid
        ++ (send_reply_notification a req snow_cid
            ++ (send_recommend_interaction "reply_comment" req.uid req.snow_tid snow_cid req.content
                  a.event_now
                ∷ [])))

respond : Answers → CreateReplyReq → ℕ → CreateReplyResp
unfolding name_of
respond a req snow_cid =
    let (nickname, avatar) = name_of a.user in
    record {
      code = 0;
      msg = "success";
      reply = some (record {
        snow_cid = snow_cid;
        snow_tid = req.snow_tid;
        uid = req.uid;
        parent_id = req.parent_id;
        root_id = req.root_id;
        content = req.content;
        like_count = pos 0;
        reply_count = pos 0;
        create_time = a.now;
        nickname = nickname;
        avatar = avatar;
      });
    }

-- `CreateReply`, from the answer of the id generator on
create_with : Answers → CreateReplyReq → Option ℕ → CreateReplyResp × List Effect
create_with a req none = (record { code = 120101; msg = "生成回复ID失败"; reply = none }, [])
create_with a req (some snow_cid) =
    let (cached, written) = set_reply_to_cache a.cache snow_cid (new_reply req snow_cid a.now) in
    if cached
    then (respond a req snow_cid, written ++ created a req snow_cid)
    else (record { code = 120103; msg = "缓存回复失败"; reply = none }, written)

-- `CreateReply`
pub create_reply : Answers → CreateReplyReq → CreateReplyResp × List Effect
create_reply a req = create_with a req a.new_id
