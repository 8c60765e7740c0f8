-- ===== src/Interact/Create/Counts.antt =====
-- The cache and the database count a new comment alike, once the consumer has taken its message.
use Prim.Native.String.{String}
use gozero_x.Common.{
  ℕ, ◌≡◌, ◌≢◌, inl, inr, refl, sym, true, Option, none, some, List, [], ◌∷◌, ◌++◌, arith,
  Bool-cases,
}
use gozero_x.Common.Int.{ℤ, pos, ◌+ℤ◌, int_laws}
use gozero_x.Json.{deliver, field, to_int64, to_string, Survives}
use gozero_x.Cache.{Key, key}
use gozero_x.Interact.Effects.{Effect, pushed, cache_delta, tweet_delta}
use gozero_x.Interact.Effects.Sums.{cache_delta-append, pushed-append}
use gozero_x.Interact.Shared.{CacheAnswers, set_comment_to_cache, send_recommend_interaction}
use gozero_x.Interact.CommentConsumer.{consume_comment, consume_all}
use gozero_x.Interact.Create.{
  CreateCommentReq, Answers, create_message, count_comment, send_create_comment,
  send_tweet_comment_notification, created, new_comment, create_with, create_comment,
}

-- The writes of the cache, the notice and the event count nothing and send the consumer nothing.
abbrev pub IsQuiet : List Effect → Type 0
IsQuiet es =
    ((k : Key) (f : String) → cache_delta k f es ≡ pos 0) × (pushed "comment_create" es ≡ [])

pub written-IsQuiet :
    (a : CacheAnswers) (req : CreateCommentReq) (id now : ℕ)
    → IsQuiet (set_comment_to_cache a id (new_comment req id now)).1
unfolding set_comment_to_cache
written-IsQuiet a req id now = (λ k f. ground arith, ground arith)

notified-IsQuiet :
    (a : Answers) (req : CreateCommentReq) (id : ℕ)
    → IsQuiet (send_tweet_comment_notification a req id)
unfolding send_tweet_comment_notification
notified-IsQuiet a req id = (λ k f. ground arith, ground arith)

sent-cache :
    (a : Answers) (req : CreateCommentReq) (id : ℕ) (k : Key) (f : String)
    → cache_delta k f (send_create_comment a req id) ≡ pos 0
unfolding send_create_comment
sent-cache a req id k f = ground arith

counted-pushed :
    (req : CreateCommentReq) (id : ℕ) → pushed "comment_create" (count_comment req id) ≡ []
unfolding count_comment
counted-pushed req id = ground arith

-- What is left of a comment's calls for the counters, and for the consumer.
created-cache :
    (a : Answers) (req : CreateCommentReq) (id : ℕ) (k : Key) (f : String)
    → cache_delta k f (created a req id) ≡ cache_delta k f (count_comment req id)
unfolding created send_recommend_interaction
created-cache a req id k f =
    rw
      (
        cache_delta-append k f (count_comment req id) _,
        cache_delta-append k f (send_create_comment a req id) _,
        cache_delta-append k f (send_tweet_comment_notification a req id) _,
        sent-cache a req id k f,
        (notified-IsQuiet a req id).0 k f,
      )
      (omega int_laws)

pub created-pushed :
    (a : Answers) (req : CreateCommentReq) (id : ℕ)
    → a.push_ok ≡ true
    → pushed "comment_create" (created a req id) ≡ create_message req id a.now ∷ []
unfolding created send_create_comment send_recommend_interaction
created-pushed a req id ok = rw (
  pushed-append "comment_create" (count_comment req id) _,
  pushed-append "comment_create" (send_create_comment a req id) _,
  pushed-append "comment_create" (send_tweet_comment_notification a req id) _,
  counted-pushed req id,
  (notified-IsQuiet a req id).1,
  ok,
)

-- The consumer's side of the message of a comment.
consumed : CreateCommentReq → ℕ → ℕ → List Effect
consumed req id now = consume_all (create_message req id now ∷ [])

module _ (req : CreateCommentReq) (id now : ℕ) where
  tweet_counts :
      (tid : ℕ)
      → Survives req.snow_tid
      → tid ≢ 0
      → cache_delta (key "tweet" "info" tid) "comment_count" (count_comment req id)
        ≡ tweet_delta tid 2 (consumed req id now)
  unfolding count_comment consumed consume_all consume_comment field to_int64 to_string deliver ◌+ℤ◌
  tweet_counts tid survives nonzero = ground arith

module _ (a : Answers) (req : CreateCommentReq) (push_ok : a.push_ok ≡ true) where
  -- A counter of the cache that `count_comment` moves as much as the consumer moves `total`.
  module _ (k : Key) (f : String) (total : List Effect → ℤ) (empty : total [] ≡ pos 0) where
    agree_cached :
        (id : ℕ)
        → cache_delta k f (count_comment req id) ≡ total (consumed req id a.now)
        → (written : List Effect) → (cache_delta k f written ≡ pos 0)
        → (pushed "comment_create" written ≡ [])
        → cache_delta k f (written ++ created a req id)
          ≡ total (consume_all (pushed "comment_create" (written ++ created a req id)))
    unfolding consumed
    agree_cached id same written uncounted unsent =
        rw
          (
            cache_delta-append k f written _,
            pushed-append "comment_create" written _,
            uncounted,
            unsent,
            created-cache a req id k f,
            created-pushed a req id push_ok,
            same,
          )
          (omega int_laws)

    agree :
        (o : Option ℕ)
        → ((id : ℕ) → cache_delta k f (count_comment req id) ≡ total (consumed req id a.now))
        → cache_delta k f (create_with a req o).1
          ≡ total (consume_all (pushed "comment_create" (create_with a req o).1))
    unfolding create_with consume_all
    agree none same = sym empty
    agree (some id) same =
        elim (Bool-cases (set_comment_to_cache a.cache id (new_comment req id a.now)).0) [
          | inl cached ↦ rw (cached) (
              agree_cached id (same id)
                (set_comment_to_cache a.cache id (new_comment req id a.now)).1
                ((written-IsQuiet a.cache req id a.now).0 k f)
                (written-IsQuiet a.cache req id a.now).1)
          | inr not_cached ↦ rw (
            not_cached,
            (written-IsQuiet a.cache req id a.now).0 k f,
            (written-IsQuiet a.cache req id a.now).1,
            empty,
          )
        ]

  -- Where the tweet's id in the request is one that the message carries unchanged, Kafka takes the
  -- message of a comment, and the consumer writes its row, the cache and the database add the same to
  -- the comment count of every tweet, of an id that is not 0, whatever of the handler fails before.
  pub create_comment-counts :
      Survives req.snow_tid
      → (tid : ℕ) → tid ≢ 0
      → cache_delta (key "tweet" "info" tid) "comment_count" (create_comment a req).1
        ≡ tweet_delta tid 2 (consume_all (pushed "comment_create" (create_comment a req).1))
  unfolding create_comment
  create_comment-counts tweet tid nonzero =
      agree (key "tweet" "info" tid) "comment_count" (tweet_delta tid 2) refl a.new_id
        (λ id. tweet_counts req id a.now tid tweet nonzero)
