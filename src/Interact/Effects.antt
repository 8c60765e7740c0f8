-- ===== src/Interact/Effects.antt =====
-- What the handlers of app/interactService do to the world, one constructor for each call of Redis,
-- Kafka, another service or a table. A handler returns its response and the calls it makes, in the
-- order of the source; calls of goroutines that it starts stand where the goroutine is started.
-- What others answer is an argument of the handler.
pub mod Sums
use Prim.Native.String.{String}
use text.Mathlib.Text.{◌==◌ as str_eq}
use gozero_x.Common.{ℕ, ◌&&◌, List, [], ◌∷◌, ◌==◌, if◌then◌else◌}
use gozero_x.Common.Int.{ℤ, pos, negsuc, ◌+ℤ◌}
use gozero_x.Json.{Message}
use gozero_x.Cache.{Key, key_eq, Cell, Hash}
use gozero_x.Cache.Comments.{Comment}
use gozero_x.Cache.Replies.{Reply}

-- A row of likes_tweet or likes_comment, less the times that the database sets.
pub record TweetLike : Type 0 where
  pub snow_likes_id : ℕ
  pub uid : ℕ
  pub snow_tid : ℕ
  pub status : ℕ

pub record CommentLike : Type 0 where
  pub snow_likes_id : ℕ
  pub uid : ℕ
  pub snow_cid : ℕ
  pub snow_tid : ℕ
  pub status : ℕ

pub data Effect : Type 0 where
  -- `GetPusher(topic).PushWithKey(key, body)`; the key is the list of what `Sprintf` joins
  push : String → List Cell → Message → Effect
  -- `RedisClient.Lpush`
  lpush : String → Message → Effect
  -- `CacheManager.HIncrBy`, `HSetAll`, `Expire`, `SAdd`
  cache_incr : Key → String → ℤ → Effect
  cache_set : Key → Hash → Effect
  cache_expire : Key → ℕ → Effect
  cache_add : Key → List ℕ → Effect
  -- `ContentServiceRpc.UpdateTweetStats`: tweet, update type, delta
  update_tweet_stats : ℕ → ℕ → ℤ → Effect
  -- the tables
  insert_comment update_comment : Comment → Effect
  insert_reply update_reply : Reply → Effect
  update_comment_count update_reply_count : ℕ → ℕ → ℤ → Effect
  insert_tweet_like update_tweet_like : TweetLike → Effect
  insert_comment_like update_comment_like : CommentLike → Effect
  upsert_like_sync : ℕ → ℕ → Effect

-- The messages that were pushed to a topic, in order.
abbrev pub pushed : String → List Effect → List Message
pushed topic [] = []
pushed topic (push t k m ∷ es) = if str_eq t topic then m ∷ pushed topic es else pushed topic es
pushed topic (_ ∷ es) = pushed topic es

-- By how much a counter in the cache is moved in total.
abbrev pub cache_delta : Key → String → List Effect → ℤ
cache_delta k f [] = pos 0
cache_delta k f (cache_incr j g d ∷ es) =
    if key_eq j k && str_eq g f then d +ℤ cache_delta k f es else cache_delta k f es
cache_delta k f (_ ∷ es) = cache_delta k f es

-- The calls of SAdd, in order.
abbrev pub adds : List Effect → List (Key × List ℕ)
adds [] = []
adds (cache_add k ids ∷ es) = (k, ids) ∷ adds es
adds (_ ∷ es) = adds es

-- The rows that are inserted into the comment table, in order.
abbrev pub comment_rows : List Effect → List Comment
comment_rows [] = []
comment_rows (insert_comment c ∷ es) = c ∷ comment_rows es
comment_rows (_ ∷ es) = comment_rows es

-- By how much a count of a tweet is moved in the database: update type 1 is like_count, 2 is
-- comment_count.
abbrev pub tweet_delta : ℕ → ℕ → List Effect → ℤ
tweet_delta tid kind [] = pos 0
tweet_delta tid kind (update_tweet_stats t k d ∷ es) =
    if t == tid && k == kind then d +ℤ tweet_delta tid kind es else tweet_delta tid kind es
tweet_delta tid kind (_ ∷ es) = tweet_delta tid kind es

-- The same for the comment table: 1 is like_count, 2 is reply_count.
abbrev pub comment_delta : ℕ → ℕ → List Effect → ℤ
comment_delta cid kind [] = pos 0
comment_delta cid kind (update_comment_count c k d ∷ es) =
    if c == cid && k == kind then d +ℤ comment_delta cid kind es else comment_delta cid kind es
comment_delta cid kind (_ ∷ es) = comment_delta cid kind es

-- The same for the reply table.
abbrev pub reply_delta : ℕ → ℕ → List Effect → ℤ
reply_delta cid kind [] = pos 0
reply_delta cid kind (update_reply_count c k d ∷ es) =
    if c == cid && k == kind then d +ℤ reply_delta cid kind es else reply_delta cid kind es
reply_delta cid kind (_ ∷ es) = reply_delta cid kind es

-- What a consumer returns to Kafka.
pub data Consumed : Type 0 where
  done failed : Consumed

-- `+1` for a like and `-1` for a like that is taken back.
abbrev pub like_delta : ℕ → ℤ
like_delta status = if status == 0 then negsuc 0 else pos 1
