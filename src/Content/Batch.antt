-- ===== src/Content/Batch.antt =====
-- Tweets in a batch: app/contentService/cmd/rpc/internal/logic/batchgettweetslogic.go.
pub mod Shown
use Prim.Native.String.{String}
use gozero_x.Common.{
  ℕ, Bool, true, false, ◌&&◌, ◌||◌, Option, none, some, List, [], ◌∷◌, map, select, ◌==◌,
  if◌then◌else◌,
}
use gozero_x.Cache.Tweets.{Tweet}
use gozero_x.Feed.{Tweet as PbTweet}

-- Whether an entry passes the test.
abbrev pub any : {A : Type 0} → (A → Bool) → List A → Bool
any p [] = false
any p (x ∷ xs) = p x || any p xs

abbrev pub has : ℕ → List ℕ → Bool
has n = any (λ m. m == n)

-- UserBrief of app/usercenter
pub record UserBrief : Type 0 where
  pub uid : ℕ
  pub nickname : String
  pub avatar : String

pub record BatchGetTweetsResp : Type 0 where
  pub code : ℕ
  pub msg : String
  pub tweets : List PbTweet

-- What the handler is told: GetTweetFromCache, where an error is a miss; the rows of the table, or
-- `none` if the query fails; and the users, or `none`.
pub record Answers : Type 0 where
  pub cache : ℕ → Option Tweet
  pub table : Option (List Tweet)
  pub users : Option (List UserBrief)

-- `tweet.IsPublic && tweet.Status == 0`, and the same in the SQL of FindBatchBySnowTids
abbrev pub visible : Tweet → Bool
visible t = t.is_public && t.status == 0

-- The keys of `tidSet`.
unfoldable pub unique : List ℕ → List ℕ
unique [] = []
unique (n ∷ ns) = let rest = unique ns in if has n ns then rest else n ∷ rest

-- `cachedTweets` after the cache has been asked.
abbrev keep : ℕ → Option Tweet → List (ℕ × Tweet) → List (ℕ × Tweet)
keep tid none m = m
keep tid (some t) m = if visible t then (tid, t) ∷ m else m

unfoldable pub cached_tweets : (ℕ → Option Tweet) → List ℕ → List (ℕ × Tweet)
cached_tweets cache [] = []
cached_tweets cache (tid ∷ tids) = keep tid (cache tid) (cached_tweets cache tids)

-- `missTids`
abbrev is_miss : Option Tweet → Bool
is_miss none = true
is_miss (some t) = false

unfoldable pub miss_tids : (ℕ → Option Tweet) → List ℕ → List ℕ
miss_tids cache = select (λ tid. is_miss (cache tid))

-- `FindBatchBySnowTids`
unfoldable pub find_batch : List ℕ → List Tweet → List Tweet
find_batch tids = select (λ t. has t.snow_tid tids && visible t)

-- `cachedTweets[k] = t`
unfoldable pub put : ℕ → Tweet → List (ℕ × Tweet) → List (ℕ × Tweet)
put k t [] = (k, t) ∷ []
put k t ((j, u) ∷ m) = let rest = put k t m in if j == k then (k, t) ∷ m else (j, u) ∷ rest

unfoldable pub merge : List Tweet → List (ℕ × Tweet) → List (ℕ × Tweet)
merge [] m = m
merge (t ∷ ts) m = merge ts (if visible t then put t.snow_tid t m else m)

-- `userMap[tweet.Uid]`: of two users with one id the later one.
unfoldable pub find_user : ℕ → List UserBrief → Option UserBrief
find_user uid [] = none
find_user uid (u ∷ us) = elim (find_user uid us) [
  | some v ↦ some v
  | none ↦ if u.uid == uid then some u else none
]

-- `BuildTweet`
unfoldable pub build_tweet : Tweet → PbTweet
build_tweet t = record {
  snow_tid = t.snow_tid;
  uid = t.uid;
  content = t.content;
  media_urls = t.media_urls;
  tags = t.tags;
  is_public = t.is_public;
  created_at = t.created_at;
  like_count = t.like_count;
  comment_count = t.comment_count;
  status = t.status;
  nickname = "";
  avatar = "";
}

abbrev named : Option UserBrief → PbTweet → PbTweet
named none t = t
named (some u) t = record t { nickname = u.nickname; avatar = u.avatar }

-- The loop of `buildTweetsFromMap`.
unfoldable pub with_user : Option (List UserBrief) → Tweet → PbTweet
with_user none t = build_tweet t
with_user (some us) t = named (find_user t.uid us) (build_tweet t)

abbrev success : List PbTweet → BatchGetTweetsResp
success ts = record { code = 0; msg = "success"; tweets = ts }

-- `order` is the order in which Go visits the entries of a map.
module _ (order : (A : Type 0) → List A → List A) where
  -- `buildRespWithUserInfo`; an empty map is answered without a call for users.
  unfoldable pub build_resp : Option (List UserBrief) → List (ℕ × Tweet) → BatchGetTweetsResp
  build_resp users [] = success []
  build_resp users (e ∷ m) = success (map (λ p. with_user users p.1) (order (ℕ × Tweet) (e ∷ m)))

  -- BatchGetTweets after the cache has been asked: the response, or `none` for an error, and the tweets
  -- that are written to the cache.
  unfoldable pub complete :
      Answers → List (ℕ × Tweet) → List ℕ → Option BatchGetTweetsResp × List Tweet
  complete a m [] = (some (build_resp a.users m), [])
  complete a m (tid ∷ tids) = elim a.table [
    | none ↦ (none, [])
    | some rows ↦
        let found = find_batch (tid ∷ tids) rows in
        (some (build_resp a.users (merge found m)), select visible found)
  ]

  -- `BatchGetTweets`
  unfoldable pub batch_get_tweets : Answers → List ℕ → Option BatchGetTweetsResp × List Tweet
  batch_get_tweets a [] = (some (success []), [])
  batch_get_tweets a (n ∷ ns) =
      let tids = order ℕ (unique (n ∷ ns)) in
      complete a (cached_tweets a.cache tids) (miss_tids a.cache tids)
