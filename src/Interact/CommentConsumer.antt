-- ===== src/Interact/CommentConsumer.antt =====
-- The consumer that writes new comments and replies to the database:
-- app/interactService/cmd/mq/internal/consumer/commentconsumer.go.
use text.Mathlib.Text.{◌==◌ as str_eq}
use gozero_x.Common.{
  ℕ, Bool, true, false, not, ◌&&◌, Option, none, some, List, [], ◌∷◌, ◌++◌, ◌==◌, if◌then◌else◌,
}
use gozero_x.Common.Int.{ℤ, pos}
use gozero_x.Json.{Message, field, to_int64, to_string}
use gozero_x.Cache.Comments.{Comment}
use gozero_x.Cache.Replies.{Reply}
use gozero_x.Interact.Effects.{
  Effect, insert_comment, insert_reply, update_tweet_stats, update_comment_count, Consumed, done,
  failed,
}

-- The row of a new comment. The times are left at 0: the database sets them.
unfoldable pub comment_row : Message → Comment
comment_row m = record {
  snow_cid = to_int64 (field "snow_cid" m);
  cid = 0;
  snow_tid = to_int64 (field "snow_tid" m);
  uid = to_int64 (field "uid" m);
  content = to_string (field "content" m);
  like_count = pos (to_int64 (field "like_count" m));
  reply_count = pos (to_int64 (field "reply_count" m));
  status = to_int64 (field "status" m);
  created_at = 0;
  updated_at = 0;
}

reply_row : Message → Reply
reply_row m = record {
  snow_cid = to_int64 (field "snow_cid" m);
  cid = 0;
  snow_tid = to_int64 (field "snow_tid" m);
  uid = to_int64 (field "uid" m);
  parent_id = to_int64 (field "parent_id" m);
  root_id = to_int64 (field "root_id" m);
  content = to_string (field "content" m);
  like_count = pos (to_int64 (field "like_count" m));
  reply_count = pos (to_int64 (field "reply_count" m));
  status = to_int64 (field "status" m);
  created_at = 0;
  updated_at = 0;
}

-- `updateTweetCommentCount`; an error of the call is logged alone
update_tweet_comment_count : ℕ → ℤ → List Effect
update_tweet_comment_count snow_tid delta =
    if snow_tid == 0 then [] else update_tweet_stats snow_tid 2 delta ∷ []

-- `updateParentReplyCount`; an error of the call is logged alone
update_parent_reply_count : ℕ → ℤ → List Effect
update_parent_reply_count parent_cid delta =
    if parent_cid == 0 then [] else update_comment_count parent_cid 2 delta ∷ []

-- `handleCreateComment`. The flag says whether the table takes the row.
handle_create_comment : Bool → Message → Consumed × List Effect
unfolding comment_row update_tweet_comment_count
handle_create_comment false m = (failed, [])
handle_create_comment true m = (
  done,
  insert_comment (comment_row m)
      ∷ update_tweet_comment_count (to_int64 (field "snow_tid" m)) (pos 1),
)

-- `handleCreateReply`
handle_create_reply : Bool → Message → Consumed × List Effect
unfolding reply_row update_tweet_comment_count update_parent_reply_count
handle_create_reply false m = (failed, [])
handle_create_reply true m =
    let parent_id = to_int64 (field "parent_id" m) in
    let root_id = to_int64 (field "root_id" m) in
    (
      done,
      insert_reply (reply_row m)
          ∷ (update_tweet_comment_count (to_int64 (field "snow_tid" m)) (pos 1)
              ++ (update_parent_reply_count parent_id (pos 1)
                  ++ (if not (root_id == 0) && not (root_id == parent_id)
                      then update_parent_reply_count root_id (pos 1)
                      else []))),
    )

-- `CommentConsumer.Consume`, on a body that json.Unmarshal reads (`none` if it does not).
unfoldable pub consume_comment : Bool → Option Message → Consumed × List Effect
unfolding handle_create_comment handle_create_reply
consume_comment row_ok none = (failed, [])
consume_comment row_ok (some m) =
    let action = to_string (field "action" m) in
    if str_eq action "create_comment"
    then handle_create_comment row_ok m
    else if str_eq action "create_reply"
    then handle_create_reply row_ok m
    else (failed, [])

-- What the consumer does for messages whose rows the table takes.
unfoldable pub consume_all : List Message → List Effect
consume_all [] = []
consume_all (m ∷ ms) = (consume_comment true (some m)).1 ++ consume_all ms
