-- ===== src/Interact/Shared.antt =====
-- What the comment handlers of app/interactService share: the two cache setters with their errors,
-- the lookup of a comment or a reply, the user's name, and the event for the recommendation service.
use Prim.Native.String.{String}
use gozero_x.Common.{ℕ, Bool, true, false, Option, none, some, List, [], ◌∷◌, ◌==◌}
use gozero_x.Common.Int.{ℤ}
use gozero_x.Json.{int, str}
use gozero_x.Cache.{nat, raw}
use gozero_x.Cache.Comments.{Comment, comment_key, comment_fields}
use gozero_x.Cache.Replies.{Reply, reply_key, reply_fields}
use gozero_x.Interact.Effects.{Effect, push, cache_set, cache_expire}

-- Whether HMSET and EXPIRE succeed.
pub record CacheAnswers : Type 0 where
  pub set_ok : Bool
  pub expire_ok : Bool

-- `SetCommentToCache`: true if it returns no error.
unfoldable pub set_comment_to_cache : CacheAnswers → ℕ → Comment → Bool × List Effect
set_comment_to_cache a snow_cid c = elim a.set_ok [
  | false ↦ (false, [])
  | true ↦ elim a.expire_ok [
    | false ↦ (false, cache_set (comment_key snow_cid) (comment_fields c) ∷ [])
    | true ↦ (
      true,
      cache_set (comment_key snow_cid) (comment_fields c)
          ∷ cache_expire (comment_key snow_cid) 3600
          ∷ [],
    )
  ]
]

-- `SetReplyToCache`
unfoldable pub set_reply_to_cache : CacheAnswers → ℕ → Reply → Bool × List Effect
set_reply_to_cache a snow_cid c = elim a.set_ok [
  | false ↦ (false, [])
  | true ↦ elim a.expire_ok [
    | false ↦ (false, cache_set (reply_key snow_cid) (reply_fields c) ∷ [])
    | true ↦ (
      true,
      cache_set (reply_key snow_cid) (reply_fields c) ∷ cache_expire (reply_key snow_cid) 3600 ∷ [],
    )
  ]
]

pub record CommentOrReply : Type 0 where
  pub snow_cid : ℕ
  pub snow_tid : ℕ
  pub uid : ℕ
  pub parent_id : ℕ
  pub root_id : ℕ
  pub content : String
  pub like_count : ℤ
  pub reply_count : ℤ
  pub status : ℕ
  pub created_at : ℕ
  pub updated_at : ℕ
  pub is_reply : Bool

-- `GetCommentOrReplyBySnowCid`, of what GetCommentBySnowCid and GetReplyBySnowCid find.
unfoldable pub get_comment_or_reply : Option Comment → Option Reply → Option CommentOrReply
get_comment_or_reply (some c) r = some (record {
  snow_cid = c.snow_cid;
  snow_tid = c.snow_tid;
  uid = c.uid;
  parent_id = 0;
  root_id = 0;
  content = c.content;
  like_count = c.like_count;
  reply_count = c.reply_count;
  status = c.status;
  created_at = c.created_at;
  updated_at = c.updated_at;
  is_reply = false;
})
get_comment_or_reply none (some r) = some (record {
  snow_cid = r.snow_cid;
  snow_tid = r.snow_tid;
  uid = r.uid;
  parent_id = r.parent_id;
  root_id = r.root_id;
  content = r.content;
  like_count = r.like_count;
  reply_count = r.reply_count;
  status = r.status;
  created_at = r.created_at;
  updated_at = r.updated_at;
  is_reply = true;
})
get_comment_or_reply none none = none

-- The answer of `UserCenterRpc.GetUserInfo`: an error, or a code and a name with an avatar if there
-- is a UserInfo.
pub data UserAnswer : Type 0 where
  rpc_error : UserAnswer
  answer : ℕ → Option (String × String) → UserAnswer

-- The nickname and the avatar in the response.
unfoldable pub name_of : UserAnswer → String × String
name_of rpc_error = ("用户", "")
name_of (answer code none) = ("", "")
name_of (answer code (some user)) = elim (code == 0) [ true ↦ user | false ↦ ("", "") ]

-- `sendRecommendInteraction` of the comment handlers, with its own reading of the clock.
unfoldable pub send_recommend_interaction : String → ℕ → ℕ → ℕ → String → ℕ → Effect
send_recommend_interaction action uid snow_tid snow_cid content now =
    push "recommend_interaction" (nat uid ∷ raw "_" ∷ nat snow_cid ∷ []) (
      ("action", str action)
      ∷ ("uid", int uid)
      ∷ ("snow_tid", int snow_tid)
      ∷ ("snow_cid", int snow_cid)
      ∷ ("content", str content)
      ∷ ("timestamp", int now)
      ∷ [])
