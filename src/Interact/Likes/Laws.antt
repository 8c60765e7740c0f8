-- ===== src/Interact/Likes/Laws.antt =====
-- The cache and the database count a like alike, once the consumer has taken its message; and who
-- is told of it.
use gozero_x.Common.{
  ℕ, ◌≡◌, ◌≢◌, ◌⊎◌, inl, inr, true, false, none, some, List, [], ◌∷◌, ◌++◌, arith, ◌==◌,
  if◌then◌else◌, Bool-cases, Option-cases, ==_iff,
}
use gozero_x.Common.Int.{ℤ, pos, negsuc, ◌+ℤ◌}
use gozero_x.Json.{Message, deliver, field, to_int64, to_string, Survives}
use gozero_x.Cache.{key}
use gozero_x.Interact.Effects.{Effect, pushed, cache_delta, tweet_delta}
use gozero_x.Interact.Likes.{
  LikeTweetReq, Answers, like_notice, send_like_tweet_notification, send_recommend_interaction,
  liked, like_tweet, consume_like_tweet, update_user_like_sync,
}

-- What the consumer does for messages whose rows the table takes.
unfoldable pub consume_all : List Message → List Effect
consume_all [] = []
consume_all (m ∷ ms) = (consume_like_tweet true (some m)).1 ++ consume_all ms

abbrev pub cache_likes : LikeTweetReq → List Effect → ℤ
cache_likes req = cache_delta (key "tweet" "info" req.snow_tid) "like_count"

abbrev pub table_likes : LikeTweetReq → List Effect → ℤ
table_likes req es = tweet_delta req.snow_tid 1 (consume_all (pushed "like_tweet" es))

-- The notice and the event touch neither the counter nor the consumer's topic.
abbrev pub after_like : Answers → LikeTweetReq → List Effect
after_like a req = send_like_tweet_notification a req ++ (send_recommend_interaction a req ∷ [])

pub after_like-pushed :
    (a : Answers) (req : LikeTweetReq) → pushed "like_tweet" (after_like a req) ≡ []
unfolding send_like_tweet_notification send_recommend_interaction
after_like-pushed a req = elim (Option-cases a.author) [
  | inl e ↦ rw (e, send_like_tweet_notification)
  | inr (u, e) ↦
      rw (e, send_like_tweet_notification)
        (elim (Bool-cases (u == req.uid)) [ inl same ↦ rw same | inr other ↦ rw other ])
]

after_like-cache : (a : Answers) (req : LikeTweetReq) → cache_likes req (after_like a req) ≡ pos 0
unfolding send_like_tweet_notification send_recommend_interaction
after_like-cache a req = elim (Option-cases a.author) [
  | inl e ↦ rw (e, send_like_tweet_notification)
  | inr (u, e) ↦
      rw (e, send_like_tweet_notification)
        (elim (Bool-cases (u == req.uid)) [ inl same ↦ rw same | inr other ↦ rw other ])
]

module _ (a : Answers) (req : LikeTweetReq) (likes_id : ℕ) where
  liked-counts_new :
      (req.is_created == 0) ≡ true
      → Survives req.snow_tid
      → req.snow_tid ≢ 0
      → req.status ≢ 0
      → cache_likes req (liked a req likes_id).1 ≡ table_likes req (liked a req likes_id).1
  unfolding liked consume_all consume_like_tweet update_user_like_sync field to_int64 to_string
      deliver ◌+ℤ◌
  liked-counts_new new survives nonzero h =
      rw (new, after_like-pushed a req, after_like-cache a req) (ground arith)

  liked-counts_old :
      (req.is_created == 0) ≡ false
      → Survives req.snow_tid
      → Survives req.status
      → req.snow_tid ≢ 0
      → cache_likes req (liked a req likes_id).1 ≡ table_likes req (liked a req likes_id).1
  unfolding liked consume_all consume_like_tweet update_user_like_sync field to_int64 to_string
      deliver ◌+ℤ◌
  liked-counts_old old survives status nonzero =
      rw (old, after_like-pushed a req, after_like-cache a req) (ground arith)

-- The cases of the handler.
pub like_tweet-new :
    (a : Answers) (req : LikeTweetReq) (likes_id : ℕ)
    → (req.is_created == 0) ≡ true
    → a.new_id ≡ some likes_id
    → like_tweet a req ≡ liked a req likes_id
unfolding like_tweet
like_tweet-new a req likes_id new e = ground arith

like_tweet_without_id :
    (a : Answers) (req : LikeTweetReq)
    → (req.is_created == 0) ≡ true
    → a.new_id ≡ none
    → (like_tweet a req).1 ≡ []
unfolding like_tweet
like_tweet_without_id a req new e = ground arith

pub like_tweet-old :
    (a : Answers) (req : LikeTweetReq)
    → (req.is_created == 0) ≡ false
    → like_tweet a req ≡ liked a req req.snow_likes_id
unfolding like_tweet
like_tweet-old a req old = rw old

-- Where the message carries the tweet's id and the status unchanged, and the id is not 0, a like that
-- is not at once a first one and a cancellation moves the cached like_count of the tweet and, through
-- the message to the consumer, the like_count of that tweet in the database by the same amount.
pub like_tweet-counts :
    (a : Answers) (req : LikeTweetReq)
    → Survives req.snow_tid
    → req.snow_tid ≢ 0
    → Survives req.status
    → (req.is_created ≢ 0) ⊎ (req.status ≢ 0)
    → let es = (like_tweet a req).1 in cache_likes req es ≡ table_likes req es
unfolding consume_all
like_tweet-counts a req survives nonzero status h = elim (Bool-cases (req.is_created == 0)) [
  | inl new ↦ elim (Option-cases a.new_id) [
    | inl e ↦ rw (like_tweet_without_id a req new e)
    | inr (likes_id, e) ↦
        rw (like_tweet-new a req likes_id new e)
          (liked-counts_new a req likes_id new survives nonzero (ground arith))
  ]
  | inr old ↦
      rw (like_tweet-old a req old)
        (liked-counts_old a req req.snow_likes_id old survives status nonzero)
]

-- Where the id generator gives an id, and the message carries the tweet's id, which is not 0,
-- unchanged, a first like that is a cancellation (is_created and status both 0) takes one off the
-- cached count, and its message makes the consumer add one in the database.
pub like_tweet_first_cancel :
    (a : Answers) (req : LikeTweetReq) (likes_id : ℕ)
    → a.new_id ≡ some likes_id
    → req.is_created ≡ 0
    → req.status ≡ 0
    → Survives req.snow_tid
    → req.snow_tid ≢ 0
    → let es = (like_tweet a req).1 in
      (cache_likes req es ≡ negsuc 0) × (table_likes req es ≡ pos 1)
unfolding liked consume_all consume_like_tweet update_user_like_sync field to_int64 to_string
    deliver ◌+ℤ◌
like_tweet_first_cancel a req likes_id e new cancel survives nonzero =
    rw
      (
        like_tweet-new a req likes_id ((==_iff req.is_created 0).1 new) e,
        (==_iff req.is_created 0).1 new,
        after_like-pushed a req,
        after_like-cache a req,
      )
      (ground arith, ground arith)

-- Whatever is liked, the author of the tweet gets one notice, which names the action, unless the
-- author is the one who likes or the author is not found: then there is none.
pub like_tweet-notices :
    (a : Answers) (req : LikeTweetReq)
    → (req.is_created ≢ 0) ⊎ (a.new_id ≢ none)
    → pushed "notice" (like_tweet a req).1 ≡ elim a.author [
      | none ↦ []
      | some author ↦ if author == req.uid then [] else like_notice req author a.notice_now ∷ []
    ]
unfolding like_tweet liked send_like_tweet_notification send_recommend_interaction
like_tweet-notices a req h = ground arith
