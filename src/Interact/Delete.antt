-- ===== src/Interact/Delete.antt =====
-- Deleting a comment or a reply: app/interactService/cmd/rpc/internal/logic/deletecommentlogic.go.
pub mod Counters
pub mod Laws
use Prim.Native.String.{String}
use gozero_x.Common.{
  ℕ, Bool, true, false, not, Option, none, some, List, [], ◌∷◌, ◌++◌, ◌==◌, if◌then◌else◌,
}
use gozero_x.Common.Int.{negsuc}
use gozero_x.Json.{int, str}
use gozero_x.Cache.{key, nat}
use gozero_x.Cache.Comments.{Comment}
use gozero_x.Cache.Replies.{Reply}
use gozero_x.Interact.Effects.{
  Effect, push, cache_incr, update_tweet_stats, update_comment, update_reply, update_comment_count,
}
use gozero_x.Interact.Shared.{CacheAnswers, set_comment_to_cache, set_reply_to_cache}

pub record DeleteCommentReq : Type 0 where
  pub snow_cid : ℕ
  pub uid : ℕ
  pub is_reply : ℕ

pub record DeleteCommentResp : Type 0 where
  pub code : ℕ
  pub msg : String
  pub success : Bool

-- What the handler is told: the comment and the reply that the lookups find, the time, and whether
-- the update of the row and the cache commands succeed.
pub record Answers : Type 0 where
  pub comment : Option Comment
  pub reply : Option Reply
  pub now : ℕ
  pub sync_now : ℕ
  pub update_ok : Bool
  pub cache : CacheAnswers

refuse : ℕ → String → DeleteCommentResp × List Effect
refuse code msg = (record { code = code; msg = msg; success = false }, [])

-- `sendStatusSyncMessage`
send_status_sync_message : ℕ → ℕ → ℕ → Effect
send_status_sync_message snow_cid status now = push "comment_status_sync" (nat snow_cid ∷ []) (
    ("action", str "sync_comment_status")
    ∷ ("snow_cid", int snow_cid)
    ∷ ("status", int status)
    ∷ ("update_time", int now)
    ∷ [])

abbrev pub deleted_comment : Comment → ℕ → Comment
deleted_comment c now = record c { status = 1; updated_at = now }

abbrev pub deleted_reply : Reply → ℕ → Reply
deleted_reply r now = record r { status = 1; updated_at = now }

-- The writes of `deleteRootComment` after the row has been updated.
comment_deleted : Answers → DeleteCommentReq → Comment → List Effect
unfolding send_status_sync_message
comment_deleted a req c =
    let (cached, written) = set_comment_to_cache a.cache req.snow_cid (deleted_comment c a.now) in
    update_comment (deleted_comment c a.now)
    ∷ (written
        ++ ((if cached then [] else send_status_sync_message req.snow_cid 1 a.sync_now ∷ [])
            ++ (cache_incr (key "tweet" "info" c.snow_tid) "comment_count" (negsuc 0)
                ∷ update_tweet_stats c.snow_tid 2 (negsuc 0)
                ∷ [])))

-- `deleteRootComment`
delete_root_comment : Answers → DeleteCommentReq → DeleteCommentResp × List Effect
unfolding refuse
delete_root_comment a req = elim a.comment [
  | none ↦ refuse 120201 "评论不存在"
  | some c ↦
      if not (c.status == 0)
      then refuse 120201 "评论不存在"
      else if not (c.uid == req.uid)
      then refuse 120202 "无权删除此评论"
      else if not a.update_ok
      then refuse 120203 "删除评论失败"
      else (record { code = 0; msg = "success"; success = true }, comment_deleted a req c)
]

-- The writes of `deleteReply` after the row has been updated.
reply_deleted : Answers → DeleteCommentReq → Reply → List Effect
reply_deleted a req r =
    update_reply (deleted_reply r a.now)
    ∷ ((set_reply_to_cache a.cache req.snow_cid (deleted_reply r a.now)).1
        ++ (cache_incr (key "tweet" "info" r.snow_tid) "comment_count" (negsuc 0)
            ∷ cache_incr (key "comment" "info" r.parent_id) "reply_count" (negsuc 0)
            ∷ update_tweet_stats r.snow_tid 2 (negsuc 0)
            ∷ update_comment_count r.parent_id 2 (negsuc 0)
            ∷ []))

-- `deleteReply`
delete_reply : Answers → DeleteCommentReq → DeleteCommentResp × List Effect
unfolding refuse
delete_reply a req = elim a.reply [
  | none ↦ refuse 120201 "回复不存在"
  | some r ↦
      if not (r.status == 0)
      then refuse 120201 "回复不存在"
      else if not (r.uid == req.uid)
      then refuse 120202 "无权删除此回复"
      else if not a.update_ok
      then refuse 120203 "删除回复失败"
      else (record { code = 0; msg = "success"; success = true }, reply_deleted a req r)
]

-- `DeleteComment`
pub delete_comment : Answers → DeleteCommentReq → DeleteCommentResp × List Effect
unfolding delete_root_comment delete_reply
delete_comment a req = if req.is_reply == 0 then delete_root_comment a req else delete_reply a req
