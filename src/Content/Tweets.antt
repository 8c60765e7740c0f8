-- ===== src/Content/Tweets.antt =====
-- A tweet is made and read: createtweetlogic.go and gettweetbysnowtidlogic.go of
-- app/contentService/cmd/rpc/internal/logic, with Insert of app/contentService/model.
pub mod Made
pub mod Undeleted
use Prim.Native.String.{String}
use gozero_x.Common.{
  ℕ, Bool, true, false, not, ◌||◌, Option, none, some, List, [], ◌∷◌, ◌==◌, if◌then◌else◌,
}
use gozero_x.Common.Int.{pos}
use gozero_x.Json.{int, str, texts}
use gozero_x.Cache.{Redis, nat}
use gozero_x.Cache.Tweets.{Tweet, tweet_key, tweet_fields, get_tweet_from_cache}
use gozero_x.Feed.{Tweet as PbTweet}
use gozero_x.Users.Info.{GetUserInfoResp}
use gozero_x.Content.{
  Lookup, failed, missing, found, CachedConn, Call, update_user_stats, push, Store, find_one,
}
use gozero_x.Content.Batch.{build_tweet}
use gozero_x.Content.Listing.{with_user_info}

pub record CreateTweetReq : Type 0 where
  pub uid : ℕ
  pub content : String
  pub media_urls : List String
  pub tags : List String
  pub is_public : Bool

-- CreateTweetResp and GetTweetBySnowTidResp have the same fields.
pub record TweetResp : Type 0 where
  pub code : ℕ
  pub msg : String
  pub tweet : Option PbTweet

-- What CreateTweet is told: the id of the generator, the clocks of the service and of the database,
-- whether the statement succeeds, and the answer of GetUserInfo (`none` for an error).
pub record CreateAnswers : Type 0 where
  pub new_id : Option ℕ
  pub now : ℕ
  pub db_now : ℕ
  pub insert_ok : Bool
  pub user : Option GetUserInfoResp

abbrev pub new_tweet : CreateAnswers → CreateTweetReq → ℕ → Tweet
new_tweet a req snow_tid = record {
  snow_tid = snow_tid;
  tid = 0;
  uid = req.uid;
  content = req.content;
  media_urls = req.media_urls;
  tags = req.tags;
  is_public = req.is_public;
  like_count = pos 0;
  comment_count = pos 0;
  created_at = a.now;
  status = 0;
}

-- `snow_tid` is the primary key.
unfoldable pub tid_taken : ℕ → List Tweet → Bool
tid_taken snow_tid [] = false
tid_taken snow_tid (t ∷ ts) = if t.snow_tid == snow_tid then true else tid_taken snow_tid ts

-- The goroutines of CreateTweet; `sendRecommendIndexMessage` is the second.
unfoldable pub create_calls : Tweet → List Call
create_calls t =
    update_user_stats t.uid 3 (pos 1)
    ∷ push "recommend_tweet" (nat t.snow_tid ∷ []) (
        ("action", str "index_tweet")
        ∷ ("snow_tid", int t.snow_tid)
        ∷ ("uid", int t.uid)
        ∷ ("content", str t.content)
        ∷ ("media_urls", texts t.media_urls)
        ∷ ("tags", texts t.tags)
        ∷ ("created_at", int t.created_at)
        ∷ [])
    ∷ []

abbrev pub without_tweet : ℕ → String → TweetResp
without_tweet code msg = record { code = code; msg = msg; tweet = none }

abbrev pub with_tweet : Option GetUserInfoResp → Tweet → TweetResp
with_tweet user t = record {
  code = 0;
  msg = "success";
  tweet = some (with_user_info user (build_tweet t));
}

abbrev pub or_same : {A : Type 0} → A → Option A → A
or_same a none = a
or_same a (some b) = b

module _ (c : CachedConn) (r : Redis) where
  -- The table, the cache of its rows, and the hashes of CacheManager.
  pub record Service : Type 0 where
    pub store : Store c
    pub hashes : r.State

  -- `Insert`: created_at is not among its columns, and the key of the row loses its entry.
  unfoldable pub insert : CreateAnswers → Tweet → Store c → Option (Store c)
  insert a t s =
      if tid_taken t.snow_tid s.table || not a.insert_ok
      then none
      else some (record {
        table = record t { created_at = a.db_now } ∷ s.table;
        rows = c.del t.snow_tid s.rows;
      })

  -- `SetTweetToCache`; an error is logged only.
  unfoldable pub set_tweet : ℕ → Tweet → r.State → r.State
  set_tweet snow_tid t h = or_same h (r.hmset (tweet_key snow_tid) (tweet_fields t) h)

  -- `CreateTweet` once it has an id, and after its insert.
  unfoldable pub inserted :
      CreateAnswers → Tweet → Option (Store c) → Service → TweetResp × List Call × Service
  inserted a t none s = (without_tweet 500 "发布推文失败", [], s)
  inserted a t (some store) s = (
    with_tweet a.user t,
    create_calls t,
    record { store = store; hashes = set_tweet t.snow_tid t s.hashes },
  )

  unfoldable pub create_with :
      CreateAnswers → CreateTweetReq → Option ℕ → Service → TweetResp × List Call × Service
  create_with a req none s = (without_tweet 500 "生成推文ID失败", [], s)
  create_with a req (some snow_tid) s =
      let t = new_tweet a req snow_tid in inserted a t (insert a t s.store) s

  -- `CreateTweet`
  unfoldable pub create_tweet :
      CreateAnswers → CreateTweetReq → Service → TweetResp × List Call × Service
  create_tweet a req s = create_with a req a.new_id s

  -- `user` is GetUserInfo.
  module _ (user : ℕ → Option GetUserInfoResp) where
    -- `GetTweetBySnowTid` after `FindOne`, with the goroutine that writes the hash; `none` is an error.
    unfoldable pub get_found : ℕ → Lookup → Service → Option TweetResp × Service
    get_found snow_tid missing s = (some (without_tweet 404 "推文不存在"), s)
    get_found snow_tid failed s = (none, s)
    get_found snow_tid (found t) s =
        (some (with_tweet (user t.uid) t), record s { hashes = set_tweet snow_tid t s.hashes })

    unfoldable pub get_with : Bool → ℕ → Option Tweet → Service → Option TweetResp × Service
    get_with query_ok snow_tid (some t) s = (some (with_tweet (user t.uid) t), s)
    get_with query_ok snow_tid none s =
        let (tweet, rows) = find_one c query_ok snow_tid s.store in
        get_found snow_tid tweet
          (record s { store = record { table = s.store.table; rows = rows } })

    -- `GetTweetBySnowTid`
    unfoldable pub get_tweet_by_snow_tid : Bool → ℕ → Service → Option TweetResp × Service
    get_tweet_by_snow_tid query_ok snow_tid s =
        get_with query_ok snow_tid (get_tweet_from_cache r snow_tid s.hashes) s
