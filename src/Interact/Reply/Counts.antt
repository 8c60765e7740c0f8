-- ===== src/Interact/Reply/Counts.antt =====
-- The cache and the database count a new reply alike, once the consumer has taken its message.
use Prim.Native.String.{String}
use gozero_x.Common.{
  ℕ, ◌≡◌, ◌≢◌, inl, inr, refl, sym, true, Option, none, some, List, [], ◌∷◌, ◌++◌, arith,
  Bool-cases, ◌==◌, if◌then◌else◌, not, ◌&&◌,
}
use gozero_x.Common.Int.{ℤ, pos, ◌+ℤ◌, int_laws}
use gozero_x.Json.{deliver, field, to_int64, to_string, Survives}
use gozero_x.Cache.{Key, key}
use gozero_x.Interact.Effects.{Effect, pushed, cache_delta, tweet_delta, comment_delta}
use gozero_x.Interact.Effects.Sums.{cache_delta-append, pushed-append}
use gozero_x.Interact.Shared.{CacheAnswers, set_reply_to_cache, send_recommend_interaction}
use gozero_x.Interact.CommentConsumer.{consume_comment, consume_all}
use gozero_x.Interact.Reply.{
  CreateReplyReq, Answers, create_message, count_reply, send_create_reply, send_reply_notification,
  created, new_reply, create_with, create_reply,
}

-- The writes of the cache, the notice and the event count nothing and send the consumer nothing.
abbrev IsQuiet : List Effect → Type 0
IsQuiet es =
    ((k : Key) (f : String) → cache_delta k f es ≡ pos 0) × (pushed "comment_create" es ≡ [])

written-IsQuiet :
    (a : CacheAnswers) (req : CreateReplyReq) (id now : ℕ)
    → IsQuiet (set_reply_to_cache a id (new_reply req id now)).1
unfolding set_reply_to_cache
written-IsQuiet a req id now = (λ k f. ground arith, ground arith)

notified-IsQuiet :
    (a : Answers) (req : CreateReplyReq) (id : ℕ) → IsQuiet (send_reply_notification a req id)
unfolding send_reply_notification
notified-IsQuiet a req id = (λ k f. ground arith, ground arith)

sent-cache :
    (a : Answers) (req : CreateReplyReq) (id : ℕ) (k : Key) (f : String)
    → cache_delta k f (send_create_reply a req id) ≡ pos 0
unfolding send_create_reply
sent-cache a req id k f = ground arith

counted-pushed : (req : CreateReplyReq) (id : ℕ) → pushed "comment_create" (count_reply req id) ≡ []
unfolding count_reply
counted-pushed req id = ground arith

-- What is left of a reply's calls for the counters, and for the consumer.
created-cache :
    (a : Answers) (req : CreateReplyReq) (id : ℕ) (k : Key) (f : String)
    → cache_delta k f (created a req id) ≡ cache_delta k f (count_reply req id)
unfolding created send_recommend_interaction
created-cache a req id k f =
    rw
      (
        cache_delta-append k f (count_reply req id) _,
        cache_delta-append k f (send_create_reply a req id) _,
        cache_delta-append k f (send_reply_notification a req id) _,
        sent-cache a req id k f,
        (notified-IsQuiet a req id).0 k f,
      )
      (omega int_laws)

created-pushed :
    (a : Answers) (req : CreateReplyReq) (id : ℕ)
    → a.push_ok ≡ true
    → pushed "comment_create" (created a req id) ≡ create_message req id a.now ∷ []
unfolding created send_create_reply send_recommend_interaction
created-pushed a req id ok = rw (
  pushed-append "comment_create" (count_reply req id) _,
  pushed-append "comment_create" (send_create_reply a req id) _,
  pushed-append "comment_create" (send_reply_notification a req id) _,
  counted-pushed req id,
  (notified-IsQuiet a req id).1,
  ok,
)

-- The consumer's side of the message of a reply.
consumed : CreateReplyReq → ℕ → ℕ → List Effect
consumed req id now = consume_all (create_message req id now ∷ [])

module _ (req : CreateReplyReq) (id now : ℕ) where
  tweet_counts :
      (tid : ℕ)
      → Survives req.snow_tid
      → tid ≢ 0
      → cache_delta (key "tweet" "info" tid) "comment_count" (count_reply req id)
        ≡ tweet_delta tid 2 (consumed req id now)
  unfolding count_reply consumed consume_all consume_comment field to_int64 to_string deliver ◌+ℤ◌
  tweet_counts tid survives nonzero = ground arith

  reply_counts :
      (cid : ℕ)
      → Survives req.parent_id
      → Survives req.root_id
      → cid ≢ 0
      → cache_delta (key "comment" "info" cid) "reply_count" (count_reply req id)
        ≡ comment_delta cid 2 (consumed req id now)
  unfolding count_reply consumed consume_all consume_comment field to_int64 to_string deliver ◌+ℤ◌
  reply_counts cid parent root nonzero = ground arith

module _ (a : Answers) (req : CreateReplyReq) (push_ok : a.push_ok ≡ true) where
  -- A counter of the cache that `count_reply` moves as much as the consumer moves `total`.
  module _ (k : Key) (f : String) (total : List Effect → ℤ) (empty : total [] ≡ pos 0) where
    agree_cached :
        (id : ℕ)
        → cache_delta k f (count_reply req id) ≡ total (consumed req id a.now)
        → (written : List Effect) → (cache_delta k f written ≡ pos 0)
        → (pushed "comment_create" written ≡ [])
        → cache_delta k f (written ++ created a req id)
          ≡ total (consume_all (pushed "comment_create" (written ++ created a req id)))
    unfolding consumed
    agree_cached id same written uncounted unsent =
        rw
          (
            cache_delta-append k f written _,
            pushed-append "comment_create" written _,
            uncounted,
            unsent,
            created-cache a req id k f,
            created-pushed a req id push_ok,
            same,
          )
          (omega int_laws)

    agree :
        (o : Option ℕ)
        → ((id : ℕ) → cache_delta k f (count_reply req id) ≡ total (consumed req id a.now))
        → cache_delta k f (create_with a req o).1
          ≡ total (consume_all (pushed "comment_create" (create_with a req o).1))
    unfolding create_with consume_all
    agree none same = sym empty
    agree (some id) same =
        elim (Bool-cases (set_reply_to_cache a.cache id (new_reply req id a.now)).0) [
          | inl cached ↦ rw (cached) (
              agree_cached id (same id) (set_reply_to_cache a.cache id (new_reply req id a.now)).1
                ((written-IsQuiet a.cache req id a.now).0 k f)
                (written-IsQuiet a.cache req id a.now).1)
          | inr not_cached ↦ rw (
            not_cached,
            (written-IsQuiet a.cache req id a.now).0 k f,
            (written-IsQuiet a.cache req id a.now).1,
            empty,
          )
        ]

  -- Where the ids of the tweet, the parent and the root in the request are ones that the message
  -- carries unchanged, Kafka takes the message of a reply, and the consumer writes its row, the cache
  -- and the database add the same to the comment count of every tweet and to the reply count of every
  -- comment, of ids that are not 0, whatever of the handler fails before.
  pub create_reply-counts :
      Survives req.snow_tid
      → Survives req.parent_id
      → Survives req.root_id
      → (tid cid : ℕ) → tid ≢ 0
      → cid ≢ 0
      → (cache_delta (key "tweet" "info" tid) "comment_count" (create_reply a req).1
          ≡ tweet_delta tid 2 (consume_all (pushed "comment_create" (create_reply a req).1)))
        × (cache_delta (key "comment" "info" cid) "reply_count" (create_reply a req).1
            ≡ comment_delta cid 2 (consume_all (pushed "comment_create" (create_reply a req).1)))
  unfolding create_reply
  create_reply-counts tweet parent root tid cid some_tid some_cid = (
    agree (key "tweet" "info" tid) "comment_count" (tweet_delta tid 2) refl a.new_id
        (λ id. tweet_counts req id a.now tid tweet some_tid),
    agree (key "comment" "info" cid) "reply_count" (comment_delta cid 2) refl a.new_id
        (λ id. reply_counts req id a.now cid parent root some_cid),
  )

-- One counter more, for one id.
abbrev pub more : ℕ → ℕ → ℤ
more id other = if id == other then pos 1 else pos 0

-- What a root comment gets besides the comment that is answered.
abbrev pub root_share : CreateReplyReq → ℕ → ℤ
root_share req cid =
    if not (req.root_id == 0) && not (req.root_id == req.parent_id)
    then more req.root_id cid
    else pos 0

-- The handler gets an id and the cache takes the reply.
abbrev pub Creates : Answers → ℕ → Type 0
Creates a id = (a.new_id ≡ some id) × (a.cache.set_ok ≡ true) × (a.cache.expire_ok ≡ true)

module _ (a : Answers) (req : CreateReplyReq) (id : ℕ) (creates : Creates a id) where
  create_reply-cache :
      (k : Key) (f : String)
      → cache_delta k f (create_reply a req).1 ≡ cache_delta k f (count_reply req id)
  unfolding create_reply create_with set_reply_to_cache
  create_reply-cache k f = grind (arith, int_laws, created-cache a req id k f, cache_delta-append)

  pub create_reply-adds :
      ((cid : ℕ)
        → cache_delta (key "comment" "info" cid) "reply_count" (create_reply a req).1
          ≡ more req.parent_id cid +ℤ root_share req cid)
      × ((tid : ℕ)
          → cache_delta (key "tweet" "info" tid) "comment_count" (create_reply a req).1
            ≡ more req.snow_tid tid)
  unfolding count_reply ◌+ℤ◌
  create_reply-adds = (
    (λ cid. rw (create_reply-cache (key "comment" "info" cid) "reply_count") (ground arith)),
    (λ tid. rw (create_reply-cache (key "tweet" "info" tid) "comment_count") (ground arith)),
  )
