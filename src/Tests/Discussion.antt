-- ===== src/Tests/Discussion.antt =====
-- Comments and replies at concrete inputs.
use gozero_x.Common.{ℕ, ◌≡◌, ◌≢◌, ◌⊎◌, refl, true, false, ◌&&◌, none, some, [], ◌∷◌, ◌++◌, arith}
use gozero_x.Common.Int.{pos}
use gozero_x.Cache.{key}
use gozero_x.Cache.Replies.{Reply}
use gozero_x.Json.Exact.{float64-exact}
use gozero_x.Interact.Effects.{pushed, cache_delta, tweet_delta, comment_delta}
use gozero_x.Interact.Shared.{rpc_error}
use gozero_x.Interact.CommentConsumer.{consume_all}
use gozero_x.Interact.Create.{CreateCommentReq, Answers as CommentAnswers, create_comment}
use gozero_x.Interact.Create.Counts.{create_comment-counts}
use gozero_x.Interact.Reply.{CreateReplyReq, Answers as ReplyAnswers, create_reply}
use gozero_x.Interact.Reply.Counts.{create_reply-counts, root_share}
use gozero_x.Interact.Delete.{Answers as DeleteAnswers, DeleteCommentReq, delete_comment}
use gozero_x.Interact.Delete.Laws.{delete_comment-allowed, allowed, target, updated}
use gozero_x.Interact.Delete.Counters.{create_reply-delete_comment}

abbrev pub comment_told : CommentAnswers
comment_told = record {
  new_id = some 900;
  now = 1000;
  retry_time = 1;
  event_now = 1002;
  cache = record { set_ok = true; expire_ok = true };
  push_ok = true;
  author = some 4;
  user = rpc_error;
}

abbrev pub a_comment : CreateCommentReq
a_comment = record { snow_tid = 5; uid = 3; content = "hello" }

create_comment-counts_example :
    cache_delta (key "tweet" "info" 5) "comment_count" (create_comment comment_told a_comment).1
    ≡ tweet_delta 5 2
        (consume_all (pushed "comment_create" (create_comment comment_told a_comment).1))
create_comment-counts_example =
    create_comment-counts comment_told a_comment refl (float64-exact 5 (omega arith)) 5
      (omega arith)

abbrev reply_told : ReplyAnswers
reply_told = record {
  new_id = some 901;
  now = 1000;
  retry_time = 1;
  event_now = 1002;
  cache = record { set_ok = true; expire_ok = true };
  push_ok = true;
  parent = none;
  user = rpc_error;
}

-- A reply to the reply 12 below the root comment 11.
abbrev a_reply : CreateReplyReq
a_reply = record { snow_tid = 5; uid = 3; parent_id = 12; root_id = 11; content = "yes" }

create_reply-counts_example :
    (cache_delta (key "tweet" "info" 5) "comment_count" (create_reply reply_told a_reply).1
      ≡ tweet_delta 5 2 (consume_all (pushed "comment_create" (create_reply reply_told a_reply).1)))
    × (cache_delta (key "comment" "info" 11) "reply_count" (create_reply reply_told a_reply).1
        ≡ comment_delta 11 2
            (consume_all (pushed "comment_create" (create_reply reply_told a_reply).1)))
create_reply-counts_example =
    create_reply-counts reply_told a_reply refl (float64-exact 5 (omega arith))
      (float64-exact 12 (omega arith)) (float64-exact 11 (omega arith)) 5 11 (omega arith)
      (omega arith)

abbrev stored_reply : Reply
stored_reply = record {
  snow_cid = 901;
  cid = 7;
  snow_tid = 5;
  uid = 3;
  parent_id = 12;
  root_id = 11;
  content = "yes";
  like_count = pos 2;
  reply_count = pos 0;
  status = 0;
  created_at = 1000;
  updated_at = 1000;
}

abbrev delete_told : DeleteAnswers
delete_told = record {
  comment = none;
  reply = some stored_reply;
  now = 2000;
  sync_now = 2;
  update_ok = true;
  cache = record { set_ok = true; expire_ok = true };
}

abbrev a_deletion : DeleteCommentReq
a_deletion = record { snow_cid = 901; uid = 3; is_reply = 1 }

create_reply-delete_comment_example :
    ((tid : ℕ)
      → cache_delta
          (key "tweet" "info" tid)
          "comment_count"
          ((create_reply reply_told a_reply).1 ++ (delete_comment delete_told a_deletion).1)
        ≡ pos 0)
    × ((cid : ℕ)
        → cache_delta
            (key "comment" "info" cid)
            "reply_count"
            ((create_reply reply_told a_reply).1 ++ (delete_comment delete_told a_deletion).1)
          ≡ root_share a_reply cid)
create_reply-delete_comment_example =
    create_reply-delete_comment reply_told a_reply 901 (refl, refl, refl) delete_told a_deletion
      stored_reply (refl, refl) (omega arith, refl, refl, refl, refl)

delete_comment-allowed_example :
    ((delete_comment delete_told a_deletion).0.success
      ≡ (allowed 3 (target delete_told a_deletion) && true))
    × ((((delete_comment delete_told a_deletion).0.success ≡ true)
          × ((delete_comment delete_told a_deletion).0.code ≡ 0)
          × (updated (delete_comment delete_told a_deletion).1 ≡ (901, 3, 1) ∷ []))
        ⊎ (((delete_comment delete_told a_deletion).0.success ≡ false)
            × ((delete_comment delete_told a_deletion).0.code ≢ 0)
            × ((delete_comment delete_told a_deletion).1 ≡ [])))
delete_comment-allowed_example = delete_comment-allowed delete_told a_deletion
