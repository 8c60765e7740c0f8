-- ===== src/Interact/Delete/Counters.antt =====
-- What is left in the counters after a reply is created and deleted again.
use gozero_x.Common.{◌++◌, ℕ, ◌≡◌, ◌≢◌, true, some, arith, ◌==◌, if◌then◌else◌}
use gozero_x.Common.Int.{ℤ, pos, negsuc, ◌+ℤ◌}
use gozero_x.Cache.{key}
use gozero_x.Cache.Replies.{Reply}
use gozero_x.Interact.Effects.{pushed, cache_delta, tweet_delta, comment_delta}
use gozero_x.Interact.Shared.{set_reply_to_cache}
use gozero_x.Interact.Reply.{CreateReplyReq, create_reply, Answers as CreateAnswers}
use gozero_x.Interact.Reply.Counts.{Creates, create_reply-adds, create_reply-counts, root_share}
use gozero_x.Interact.Effects.Sums.{cache_delta-append, tweet_delta-append, comment_delta-append}
use gozero_x.Interact.CommentConsumer.{consume_all}
use gozero_x.Json.{Survives}
use gozero_x.Interact.Delete.{
  Answers, DeleteCommentReq, reply_deleted, delete_comment, delete_reply, refuse,
}

-- One counter less, for one id.
abbrev less : ℕ → ℕ → ℤ
less id other = if id == other then negsuc 0 else pos 0

-- The reply that is there, is the user's own and can be written.
abbrev pub Deletes : Answers → DeleteCommentReq → Reply → Type 0
Deletes b del r =
    (del.is_reply ≢ 0)
    × (b.reply ≡ some r)
    × (r.status ≡ 0)
    × (r.uid ≡ del.uid)
    × (b.update_ok ≡ true)

module _ (b : Answers) (del : DeleteCommentReq) (r : Reply) where
  removed : Deletes b del r → (delete_comment b del).1 ≡ reply_deleted b del r
  unfolding delete_comment delete_reply refuse
  removed d = ground arith

  removed-tweet :
      (tid : ℕ)
      → cache_delta (key "tweet" "info" tid) "comment_count" (reply_deleted b del r)
        ≡ less r.snow_tid tid
  unfolding reply_deleted set_reply_to_cache ◌+ℤ◌
  removed-tweet tid = ground arith

  removed-reply :
      (cid : ℕ)
      → cache_delta (key "comment" "info" cid) "reply_count" (reply_deleted b del r)
        ≡ less r.parent_id cid
  unfolding reply_deleted set_reply_to_cache ◌+ℤ◌
  removed-reply tid = ground arith

  removed_rows :
      (id : ℕ)
      → (tweet_delta id 2 (reply_deleted b del r) ≡ less r.snow_tid id)
        × (comment_delta id 2 (reply_deleted b del r) ≡ less r.parent_id id)
  unfolding reply_deleted set_reply_to_cache ◌+ℤ◌
  removed_rows id = (ground arith, ground arith)

-- The reply that the handler of creation made, whatever the counters and the times are by now.
abbrev pub IsOf : Reply → CreateReplyReq → Type 0
IsOf r req = (r.snow_tid ≡ req.snow_tid) × (r.parent_id ≡ req.parent_id)

-- A reply that is created and deleted again leaves the cached comment count of every tweet as it
-- was. The cached reply count of a comment is left one too high exactly for the root comment, where
-- the reply answers another comment than the root: creation counts the reply there as well, and
-- deletion does not take it back.
pub create_reply-delete_comment :
    (a : CreateAnswers) (req : CreateReplyReq) (id : ℕ)
    → Creates a id
    → (b : Answers) (del : DeleteCommentReq) (r : Reply) → IsOf r req
    → Deletes b del r
    → ((tid : ℕ)
        → cache_delta
            (key "tweet" "info" tid)
            "comment_count"
            ((create_reply a req).1 ++ (delete_comment b del).1)
          ≡ pos 0)
      × ((cid : ℕ)
          → cache_delta
              (key "comment" "info" cid)
              "reply_count"
              ((create_reply a req).1 ++ (delete_comment b del).1)
            ≡ root_share req cid)
unfolding ◌+ℤ◌
create_reply-delete_comment a req id creates b del r is_of deletes = (
  λ tid.
      rw
        (
          cache_delta-append (key "tweet" "info" tid) "comment_count" (create_reply a req).1 _,
          removed b del r deletes,
          (create_reply-adds a req id creates).1 tid,
          removed-tweet b del r tid,
        )
        (ground arith),
  λ cid.
      rw
        (
          cache_delta-append (key "comment" "info" cid) "reply_count" (create_reply a req).1 _,
          removed b del r deletes,
          (create_reply-adds a req id creates).0 cid,
          removed-reply b del r cid,
        )
        (ground arith),
)

-- The same of the counts in the database, once the consumer has taken the message of the reply: the
-- comment counts of tweets are as before, and the reply count of the root comment is left one too
-- high under the same condition. Kafka takes the message, and the ids survive the JSON.
pub create_reply-delete_comment_rows :
    (a : CreateAnswers) (req : CreateReplyReq) (id : ℕ)
    → Creates a id
    → a.push_ok ≡ true
    → Survives req.snow_tid
    → Survives req.parent_id
    → Survives req.root_id
    → (b : Answers) (del : DeleteCommentReq) (r : Reply) → IsOf r req
    → Deletes b del r
    → (tid cid : ℕ) → tid ≢ 0
    → cid ≢ 0
    → let rows =
        consume_all (pushed "comment_create" (create_reply a req).1) ++ (delete_comment b del).1 in
      (tweet_delta tid 2 rows ≡ pos 0) × (comment_delta cid 2 rows ≡ root_share req cid)
unfolding ◌+ℤ◌
create_reply-delete_comment_rows a req id creates push_ok tweet parent root b del r is_of deletes
      tid cid some_tid some_cid =
    (
      rw
          (
            tweet_delta-append tid 2 (consume_all (pushed "comment_create" (create_reply a req).1))
                _,
            removed b del r deletes,
            ← (create_reply-counts a req push_ok tweet parent root tid cid some_tid some_cid).0,
            (create_reply-adds a req id creates).1 tid,
            (removed_rows b del r tid).0,
          )
          (ground arith),
      rw
          (
            comment_delta-append cid 2
                (consume_all (pushed "comment_create" (create_reply a req).1)) _,
            removed b del r deletes,
            ← (create_reply-counts a req push_ok tweet parent root tid cid some_tid some_cid).1,
            (create_reply-adds a req id creates).0 cid,
            (removed_rows b del r cid).1,
          )
          (ground arith),
    )
