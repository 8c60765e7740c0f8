-- ===== src/Interact/Create.antt =====
-- Creating a root comment: app/interactService/cmd/rpc/internal/logic/createcommentlogic.go.
pub mod Counts
pub mod Adds
pub mod Rows
use Prim.Native.String.{String}
use gozero_x.Common.{ℕ, Bool, Option, none, some, List, [], ◌∷◌, ◌++◌, ◌==◌, if◌then◌else◌}
use gozero_x.Common.Int.{ℤ, pos}
use gozero_x.Json.{Message, int, str}
use gozero_x.Cache.{key, nat, raw}
use gozero_x.Cache.Comments.{Comment}
use gozero_x.Interact.Effects.{Effect, push, lpush, cache_incr, cache_add}
use gozero_x.Interact.Shared.{
  CacheAnswers, set_comment_to_cache, UserAnswer, name_of, send_recommend_interaction,
}

pub record CreateCommentReq : Type 0 where
  pub snow_tid : ℕ
  pub uid : ℕ
  pub content : String

pub record CommentInfo : Type 0 where
  pub snow_cid : ℕ
  pub snow_tid : ℕ
  pub uid : ℕ
  pub content : String
  pub like_count : ℤ
  pub reply_count : ℤ
  pub create_time : ℕ
  pub nickname : String
  pub avatar : String

pub record CreateCommentResp : Type 0 where
  pub code : ℕ
  pub msg : String
  pub comment : Option CommentInfo

-- What the handler is told. `retry_time` is in seconds; `author` is what GetTweetAuthorUid finds.
pub record Answers : Type 0 where
  pub new_id : Option ℕ
  pub now : ℕ
  pub retry_time : ℕ
  pub event_now : ℕ
  pub cache : CacheAnswers
  pub push_ok : Bool
  pub author : Option ℕ
  pub user : UserAnswer

abbrev pub new_comment : CreateCommentReq → ℕ → ℕ → Comment
new_comment req snow_cid now = record {
  snow_cid = snow_cid;
  cid = 0;
  snow_tid = req.snow_tid;
  uid = req.uid;
  content = req.content;
  like_count = pos 0;
  reply_count = pos 0;
  status = 0;
  created_at = now;
  updated_at = now;
}

-- The body of `sendCreateCommentMessage`; both counters of a new comment are 0.
abbrev pub create_message : CreateCommentReq → ℕ → ℕ → Message
create_message req snow_cid now =
    ("action", str "create_comment")
    ∷ ("snow_cid", int snow_cid)
    ∷ ("snow_tid", int req.snow_tid)
    ∷ ("uid", int req.uid)
    ∷ ("content", str req.content)
    ∷ ("status", int 0)
    ∷ ("created_at", int now)
    ∷ ("updated_at", int now)
    ∷ ("like_count", int 0)
    ∷ ("reply_count", int 0)
    ∷ []

-- `recordFailedMessage`
record_failed_message : CreateCommentReq → ℕ → ℕ → ℕ → Effect
record_failed_message req snow_cid now retry_time = lpush "failed:comment:create" (
    ("snow_cid", int snow_cid)
    ∷ ("snow_tid", int req.snow_tid)
    ∷ ("uid", int req.uid)
    ∷ ("content", str req.content)
    ∷ ("created_at", int now)
    ∷ ("retry_count", int 0)
    ∷ ("last_retry", int retry_time)
    ∷ [])

-- `sendCreateCommentMessage`, and the record of a message that could not be sent
send_create_comment : Answers → CreateCommentReq → ℕ → List Effect
unfolding record_failed_message
send_create_comment a req snow_cid =
    if a.push_ok
    then push "comment_create" (nat snow_cid ∷ []) (create_message req snow_cid a.now) ∷ []
    else record_failed_message req snow_cid a.now a.retry_time ∷ []

-- `sendTweetCommentNotification`
send_tweet_comment_notification : Answers → CreateCommentReq → ℕ → List Effect
send_tweet_comment_notification a req snow_cid = elim a.author [
  | none ↦ []
  | some recipient_uid ↦
      if recipient_uid == req.uid
      then []
      else push "notice" (raw "comment_" ∷ nat recipient_uid ∷ raw "_" ∷ nat snow_cid ∷ []) (
          ("action", str "comment_tweet")
          ∷ ("target_type", int 0)
          ∷ ("commenter_uid", int req.uid)
          ∷ ("recipient_uid", int recipient_uid)
          ∷ ("snow_tid", int req.snow_tid)
          ∷ ("snow_cid", int snow_cid)
          ∷ ("root_id", int 0)
          ∷ ("parent_id", int 0)
          ∷ ("content", str req.content)
          ∷ ("replied_content", str "")
          ∷ ("timestamp", int a.now)
          ∷ [])
        ∷ []
]

-- Step 4: the cached count of the tweet and the set of its comments.
count_comment : CreateCommentReq → ℕ → List Effect
count_comment req snow_cid =
    cache_incr (key "tweet" "info" req.snow_tid) "comment_count" (pos 1)
    ∷ cache_add (key "tweet" "top_comments" req.snow_tid) (snow_cid ∷ [])
    ∷ []

-- Steps 4 to 7, once the comment is in the cache.
pub created : Answers → CreateCommentReq → ℕ → List Effect
created a req snow_cid =
    count_comment req snow_cid
    ++ (send_create_comment a req snow_cid
        ++ (send_tweet_comment_notification a req snow_cid
            ++ (send_recommend_interaction "comment_tweet" req.uid req.snow_tid snow_cid req.content
                  a.event_now
                ∷ [])))

respond : Answers → CreateCommentReq → ℕ → CreateCommentResp
unfolding name_of
respond a req snow_cid =
    let (nickname, avatar) = name_of a.user in
    record {
      code = 0;
      msg = "success";
      comment = some (record {
        snow_cid = snow_cid;
        snow_tid = req.snow_tid;
        uid = req.uid;
        content = req.content;
        like_count = pos 0;
        reply_count = pos 0;
        create_time = a.now;
        nickname = nickname;
        avatar = avatar;
      });
    }

-- `CreateComment`, from the answer of the id generator on
create_with : Answers → CreateCommentReq → Option ℕ → CreateCommentResp × List Effect
create_with a req none = (record { code = 120101; msg = "生成评论ID失败"; comment = none }, [])
create_with a req (some snow_cid) =
    let (cached, written) =
      set_comment_to_cache a.cache snow_cid (new_comment req snow_cid a.now) in
    if cached
    then (respond a req snow_cid, written ++ created a req snow_cid)
    else (record { code = 120103; msg = "缓存评论失败"; comment = none }, written)

-- `CreateComment`
pub create_comment : Answers → CreateCommentReq → CreateCommentResp × List Effect
create_comment a req = create_with a req a.new_id
