-- ===== src/Interact/CommentLikes/Laws.antt =====
-- The cache and the database count a like alike, once the consumer has taken its message; and who
-- is told of it.
use gozero_x.Common.{
  ℕ, ◌≡◌, ◌≢◌, ◌⊎◌, inl, inr, true, false, none, some, List, [], ◌∷◌, ◌++◌, arith, ◌==◌,
  if◌then◌else◌, Bool-cases, Option-cases,
}
use gozero_x.Common.Int.{ℤ, pos, ◌+ℤ◌}
use gozero_x.Json.{Message, deliver, field, to_int64, to_string, Survives}
use Prim.Native.String.{String}
use gozero_x.Cache.{Key, key}
use gozero_x.Interact.Effects.{Effect, pushed, cache_delta, comment_delta, reply_delta}
use gozero_x.Interact.CommentLikes.{
  LikeCommentReq, Answers, like_notice, send_like_comment_notification, send_recommend_interaction,
  liked, update_comment_like_count, liked_author, like_comment, consume_like_comment,
  update_user_like_sync,
}

-- What the consumer does for messages whose rows the table takes.
pub consume_all : List Message → List Effect
consume_all [] = []
consume_all (m ∷ ms) = (consume_like_comment true (some m)).1 ++ consume_all ms

abbrev pub cache_likes : LikeCommentReq → List Effect → ℤ
cache_likes req =
    cache_delta (key (if req.is_reply == 0 then "comment" else "reply") "info" req.snow_cid)
      "like_count"

abbrev pub table_likes : LikeCommentReq → List Effect → ℤ
table_likes req es =
    if req.is_reply == 0
    then comment_delta req.snow_cid 1 (consume_all (pushed "like_comment" es))
    else reply_delta req.snow_cid 1 (consume_all (pushed "like_comment" es))

-- The notice and the event touch neither the counter nor the consumer's topic.
abbrev after_like : Answers → LikeCommentReq → List Effect
after_like a req = send_like_comment_notification a req ++ (send_recommend_interaction a req ∷ [])

after_like-pushed :
    (a : Answers) (req : LikeCommentReq) → pushed "like_comment" (after_like a req) ≡ []
unfolding send_like_comment_notification send_recommend_interaction
after_like-pushed a req = elim (Option-cases (liked_author a req)) [
  | inl e ↦ rw (e, send_like_comment_notification)
  | inr ((u, root), e) ↦
      rw (e, send_like_comment_notification)
        (elim (Bool-cases (u == req.uid)) [ inl same ↦ rw same | inr other ↦ rw other ])
]

after_like-cache :
    (a : Answers) (req : LikeCommentReq) (k : Key) (f : String)
    → cache_delta k f (after_like a req) ≡ pos 0
unfolding send_like_comment_notification send_recommend_interaction
after_like-cache a req k f = elim (Option-cases (liked_author a req)) [
  | inl e ↦ rw (e, send_like_comment_notification)
  | inr ((u, root), e) ↦
      rw (e, send_like_comment_notification)
        (elim (Bool-cases (u == req.uid)) [ inl same ↦ rw same | inr other ↦ rw other ])
]

module _ (a : Answers) (req : LikeCommentReq) (likes_id : ℕ) where
  liked-counts_new :
      (req.is_created == 0) ≡ true
      → Survives req.snow_cid
      → Survives req.is_reply
      → req.snow_cid ≢ 0
      → req.status ≢ 0
      → cache_likes req (liked a req likes_id).1 ≡ table_likes req (liked a req likes_id).1
  unfolding liked consume_all consume_like_comment update_user_like_sync update_comment_like_count
      field to_int64 to_string deliver ◌+ℤ◌
  liked-counts_new new survives reply nonzero h = elim (Bool-cases (req.is_reply == 0)) [
    | inl root ↦
        rw (new, root, after_like-pushed a req)
          (ground (arith, after_like-cache a req (key "comment" "info" req.snow_cid) "like_count"))
    | inr child ↦
        rw (new, child, after_like-pushed a req)
          (ground (arith, after_like-cache a req (key "reply" "info" req.snow_cid) "like_count"))
  ]

  liked-counts_old :
      (req.is_created == 0) ≡ false
      → Survives req.snow_cid
      → Survives req.is_reply
      → Survives req.status
      → req.snow_cid ≢ 0
      → cache_likes req (liked a req likes_id).1 ≡ table_likes req (liked a req likes_id).1
  unfolding liked consume_all consume_like_comment update_user_like_sync update_comment_like_count
      field to_int64 to_string deliver ◌+ℤ◌
  liked-counts_old old survives reply status nonzero = elim (Bool-cases (req.is_reply == 0)) [
    | inl root ↦
        rw (old, root, after_like-pushed a req)
          (ground (arith, after_like-cache a req (key "comment" "info" req.snow_cid) "like_count"))
    | inr child ↦
        rw (old, child, after_like-pushed a req)
          (ground (arith, after_like-cache a req (key "reply" "info" req.snow_cid) "like_count"))
  ]

-- The cases of the handler.
like_comment-new :
    (a : Answers) (req : LikeCommentReq) (likes_id : ℕ)
    → (req.is_created == 0) ≡ true
    → a.new_id ≡ some likes_id
    → like_comment a req ≡ liked a req likes_id
unfolding like_comment
like_comment-new a req likes_id new e = ground arith

like_comment_without_id :
    (a : Answers) (req : LikeCommentReq)
    → (req.is_created == 0) ≡ true
    → a.new_id ≡ none
    → (like_comment a req).1 ≡ []
unfolding like_comment
like_comment_without_id a req new e = ground arith

like_comment-old :
    (a : Answers) (req : LikeCommentReq)
    → (req.is_created == 0) ≡ false
    → like_comment a req ≡ liked a req req.snow_likes_id
unfolding like_comment
like_comment-old a req old = rw old

-- Where the message carries the id of the comment or reply, the status and is_reply unchanged, and
-- the id is not 0, a like of a comment or reply that is not at once a first one and a cancellation
-- moves the cached like_count and, through the message to the consumer, the like_count of the row in
-- the comment table, or in the reply table for a reply, by the same amount.
pub like_comment-counts :
    (a : Answers) (req : LikeCommentReq)
    → Survives req.snow_cid
    → req.snow_cid ≢ 0
    → Survives req.status
    → Survives req.is_reply
    → (req.is_created ≢ 0) ⊎ (req.status ≢ 0)
    → let es = (like_comment a req).1 in cache_likes req es ≡ table_likes req es
unfolding consume_all
like_comment-counts a req survives nonzero status kind h = elim (Bool-cases (req.is_created == 0)) [
  | inl new ↦ elim (Option-cases a.new_id) [
    | inl e ↦ rw (like_comment_without_id a req new e) (ground arith)
    | inr (likes_id, e) ↦
        rw (like_comment-new a req likes_id new e)
          (liked-counts_new a req likes_id new survives kind nonzero (ground arith))
  ]
  | inr old ↦
      rw (like_comment-old a req old)
        (liked-counts_old a req req.snow_likes_id old survives kind status nonzero)
]

-- The notice goes to the author of the comment or, with the root comment, of the reply. There is
-- none for the author's own like, and none if the author is not found.
pub like_comment-notices :
    (a : Answers) (req : LikeCommentReq)
    → (req.is_created ≢ 0) ⊎ (a.new_id ≢ none)
    → pushed "notice" (like_comment a req).1 ≡ elim (liked_author a req) [
      | none ↦ []
      | some (author, root_id) ↦
          if author == req.uid then [] else like_notice req author root_id a.notice_now ∷ []
    ]
unfolding like_comment liked send_like_comment_notification send_recommend_interaction
    update_comment_like_count
like_comment-notices a req h = ground arith
