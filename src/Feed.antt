-- ===== src/Feed.antt =====
-- The recommendation feed: app/recommendService/cmd/rpc/internal/logic/recommendFeedLogic.go.
pub mod Build
pub mod Queue
pub mod Laws
pub mod Failures
use Prim.Native.String.{String}
use gozero_x.Common.{
  ℕ, zero, suc, ◌+◌, Bool, true, false, not, ◌&&◌, Option, none, some, List, [], ◌∷◌, ◌++◌, ltb,
  ◌==◌, if◌then◌else◌, length, take,
}
use gozero_x.Common.Int.{ℤ, pos, negsuc, ◌+ℤ◌, leb_ℤ, ltb_ℤ, wrap64}

-- content.Tweet of app/contentService
pub record Tweet : Type 0 where
  pub snow_tid : ℕ
  pub uid : ℕ
  pub content : String
  pub media_urls : List String
  pub tags : List String
  pub is_public : Bool
  pub created_at : ℕ
  pub like_count : ℤ
  pub comment_count : ℤ
  pub status : ℕ
  pub nickname : String
  pub avatar : String

pub record TweetInfo : Type 0 where
  pub snow_tid : ℕ
  pub uid : ℕ
  pub content : String
  pub media_urls : List String
  pub tags : List String
  pub like_count : ℤ
  pub comment_count : ℤ
  pub created_at : ℕ
  pub nickname : String
  pub avatar : String

pub record RecommendFeedReq : Type 0 where
  pub uid : ℕ
  pub limit : ℤ

pub record RecommendFeedResp : Type 0 where
  pub code : ℕ
  pub msg : String
  pub tweets : List TweetInfo

-- A negative bound of a slice panics.
pub data Outcome : Type 0 where
  reply : RecommendFeedResp → Outcome
  panics : Outcome

-- The calls that the handler makes, of the queue of the user in Redis and of others. An RPUSH that
-- fails is left out, and so is the LRANGE that reads the queue first, in every run.
pub data Call : Type 0 where
  del : Call
  ltrim rpush expire : ℕ → Call
  call_recall : ℕ → ℤ → Call
  batch_get_tweets : List ℕ → Call

-- A service that answers with a code and a list, or does not answer.
pub data Answer (A : Type 0) : Type 0 where
  failed : Answer A
  answers : ℤ → List A → Answer A

-- What the handler is told: the reply of LRANGE (`none` if it fails), the recall service, the content
-- service, and how many RPUSHes succeed before one fails.
pub record Answers : Type 0 where
  pub cached : Option (List ℕ)
  pub recall : Answer ℕ
  pub batch : Answer Tweet
  pub pushes : ℕ

abbrev is_zero : ℤ → Bool
is_zero (pos zero) = true
is_zero _ = false

-- `callPythonRecall` and the RPC of `batchGetTweetDetails`: a code other than 0 is an error.
abbrev pub accepted : {A : Type 0} → Answer A → Option (List A)
accepted failed = none
accepted (answers code xs) = if is_zero code then some xs else none

-- `tweetMap`: of two tweets with one id the later one stands.
unfoldable pub find_tweet : ℕ → List Tweet → Option Tweet
find_tweet tid [] = none
find_tweet tid (t ∷ ts) = elim (find_tweet tid ts) [
  | some later ↦ some later
  | none ↦ if t.snow_tid == tid then some t else none
]

abbrev pub tweet_info : Tweet → TweetInfo
tweet_info t = record {
  snow_tid = t.snow_tid;
  uid = t.uid;
  content = t.content;
  media_urls = t.media_urls;
  tags = t.tags;
  like_count = t.like_count;
  comment_count = t.comment_count;
  created_at = t.created_at;
  nickname = t.nickname;
  avatar = t.avatar;
}

-- The loop of `buildTweetInfoList`, with the number of tweets taken so far.
pub build_from : ℕ → ℤ → List Tweet → List ℕ → List TweetInfo
build_from taken limit ts [] = []
build_from taken limit ts (tid ∷ tids) =
    if leb_ℤ limit (pos taken) then [] else elim (find_tweet tid ts) [
      | none ↦ build_from taken limit ts tids
      | some t ↦ tweet_info t ∷ build_from (suc taken) limit ts tids
    ]

-- `buildTweetInfoList`
build_tweet_info_list : List ℕ → List Tweet → ℤ → List TweetInfo
build_tweet_info_list tids ts limit = build_from 0 limit ts tids

-- The loop of step 7: the ids of tweets after the first `limit` that are there.
pub extra_valid_ids : ℕ → ℤ → List Tweet → List ℕ → List ℕ
extra_valid_ids returned limit ts [] = []
extra_valid_ids returned limit ts (tid ∷ tids) = elim (find_tweet tid ts) [
  | none ↦ extra_valid_ids returned limit ts tids
  | some t ↦
      if ltb_ℤ limit (pos (suc returned))
      then tid ∷ extra_valid_ids (suc returned) limit ts tids
      else extra_valid_ids (suc returned) limit ts tids
]

-- `RPush` of the cache manager pushes one id after the other; after a failure `cacheExtraIds` sets
-- no expiry.
pub push_ids : ℕ → List ℕ → List Call
push_ids pushes [] = expire 300 ∷ []
push_ids zero (tid ∷ tids) = []
push_ids (suc pushes) (tid ∷ tids) = rpush tid ∷ push_ids pushes tids

-- `cacheExtraIds`, if there are extra ids
cache_extra_ids : ℕ → List ℕ → List Call
cache_extra_ids pushes [] = []
cache_extra_ids pushes (tid ∷ tids) = push_ids pushes (tid ∷ tids)

respond : ℕ → String → List TweetInfo → Outcome
respond code msg tweets = reply (record { code = code; msg = msg; tweets = tweets })

-- Step 3
pub consume : ℕ → Bool → List Call
consume consumed called = if ltb 0 consumed && not called then ltrim consumed ∷ [] else []

-- Steps 6 and 7, with the tweets that the content service answers (`none` if it fails).
fill : Answers → ℤ → Bool → List ℕ → Option (List Tweet) → Outcome × List Call
unfolding respond
fill a limit called tids none = (respond 990105 "服务调用失败" [], batch_get_tweets tids ∷ [])
fill a limit called tids (some ts) = (
  respond 0 "success" (build_tweet_info_list tids ts limit),
  batch_get_tweets tids
      ∷ (if called then cache_extra_ids a.pushes (extra_valid_ids 0 limit ts tids) else []),
)

-- Steps 3 to 7
pub serve : Answers → ℤ → ℕ → Bool → List ℕ → Outcome × List Call
unfolding respond consume
serve a limit consumed called [] = (respond 0 "success" [], consume consumed called)
serve a limit consumed called (tid ∷ tids) =
    let (outcome, calls) = fill a limit called (tid ∷ tids) (accepted a.batch) in
    (outcome, consume consumed called ++ calls)

-- Step 2, where the cache has enough: twice the limit, at most what there is. The product is an
-- int64.
pub fetch_count : ℤ → ℕ → ℤ
fetch_count limit len =
    let count = wrap64 (limit +ℤ limit) in if ltb_ℤ (pos len) count then pos len else count

from_cache : Answers → ℤ → List ℕ → ℤ → Outcome × List Call
from_cache a limit cached (negsuc n) = (panics, [])
from_cache a limit cached (pos n) = serve a limit n false (take n cached)

-- The ids of the cache alone, where the recall fails.
fall_back : Answers → ℤ → List ℕ → Outcome × List Call
unfolding respond
fall_back a limit [] = (respond 140201 "推荐服务暂不可用" [], [])
fall_back a limit (tid ∷ tids) = serve a limit (length (tid ∷ tids)) false (tid ∷ tids)

-- With what the recall answers: on success the old queue is deleted, and its ids come first.
merge : Answers → ℤ → List ℕ → Option (List ℕ) → Outcome × List Call
merge a limit cached none = fall_back a limit cached
merge a limit cached (some recalled) =
    let (outcome, calls) = serve a limit (length cached) true (cached ++ recalled) in
    (outcome, del ∷ calls)

-- Step 2, where the cache has not enough; five times the limit is asked for.
from_recall : Answers → ℕ → ℤ → List ℕ → Outcome × List Call
from_recall a uid limit cached =
    let twice = limit +ℤ limit in
    let (outcome, calls) = merge a limit cached (accepted a.recall) in
    (outcome, call_recall uid (wrap64 (twice +ℤ twice +ℤ limit)) ∷ calls)

-- Steps 2 to 7
pub feed_from : Answers → ℕ → ℤ → List ℕ → Outcome × List Call
feed_from a uid limit cached =
    if leb_ℤ limit (pos (length cached))
    then from_cache a limit cached (fetch_count limit (length cached))
    else from_recall a uid limit cached

-- Step 1
pub cached_ids : Answers → List ℕ
cached_ids a = elim a.cached [ none ↦ [] | some tids ↦ tids ]

-- `RecommendFeed`
pub recommend_feed : Answers → RecommendFeedReq → Outcome × List Call
recommend_feed a req = feed_from a req.uid req.limit (cached_ids a)
