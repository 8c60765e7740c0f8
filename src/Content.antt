-- ===== src/Content.antt =====
-- Tweets that are deleted and counted: app/contentService/cmd/rpc/internal/logic/deletetweetlogic.go and
-- updatetweetstatslogic.go over the SQL of app/contentService/model, with the cache of rows that
-- go-zero keeps in front of FindOne.
pub mod Laws
pub mod Batch
pub mod Listing
pub mod Tweets
use Prim.Native.String.{String}
use gozero_x.Common.{
  ℕ, Bool, true, false, not, ◌&&◌, ◌||◌, ◌≡◌, Option, none, some, List, [], ◌∷◌, map, ◌==◌,
  if◌then◌else◌,
}
use gozero_x.Common.Int.{ℤ, pos, negsuc, ◌+ℤ◌}
use gozero_x.Json.{Message, int, str}
use gozero_x.Cache.{Key, Cell, nat, raw}
use gozero_x.Cache.Tweets.{Tweet, tweet_key}

-- What a query for one row gives: an error, no row, or the row.
pub data Lookup : Type 0 where
  failed missing : Lookup
  found : Tweet → Lookup

abbrev pub cached : Option Tweet → Lookup
cached none = missing
cached (some t) = found t

-- `sqlc.CachedConn` of go-zero: `peek` is the entry of a key, which may say that there is no row;
-- `query_row` is QueryRowCtx, given what its query would give, and `del` drops an entry, as ExecCtx
-- does with its keys.
pub record CachedConn : Type 1 where
  pub State : Type 0
  pub peek : ℕ → State → Option (Option Tweet)
  pub query_row : ℕ → Lookup → State → Lookup × State
  pub del : ℕ → State → State

-- The documented behaviour: an entry answers in place of the query, a row that a query finds becomes
-- an entry, and an entry that is dropped is gone.
pub record IsLawful (c : CachedConn) : Type 0 where
  pub hit :
      (k : ℕ) (q : Lookup) (s : c.State) (e : Option Tweet)
      → c.peek k s ≡ some e
      → c.query_row k q s ≡ (cached e, s)
  pub miss : (k : ℕ) (q : Lookup) (s : c.State) → c.peek k s ≡ none → (c.query_row k q s).0 ≡ q
  pub stored :
      (k : ℕ) (t : Tweet) (s : c.State)
      → c.peek k s ≡ none
      → c.peek k (c.query_row k (found t) s).1 ≡ some (some t)
  pub deleted : (k : ℕ) (s : c.State) → c.peek k (c.del k s) ≡ none

-- `select ... from public.tweet_normal where snow_tid = $1 limit 1`; the view holds the rows with
-- status 0.
unfoldable pub find_normal : ℕ → List Tweet → Lookup
find_normal snow_tid [] = missing
find_normal snow_tid (t ∷ ts) =
    if t.snow_tid == snow_tid && t.status == 0 then found t else find_normal snow_tid ts

with_status : ℕ → ℕ → Tweet → Tweet
with_status snow_tid status t = if t.snow_tid == snow_tid then record t { status = status } else t

-- `UpdateStatus`, which goes around the cache of rows.
unfoldable pub update_status : ℕ → ℕ → List Tweet → List Tweet
unfolding with_status
update_status snow_tid status ts = map (with_status snow_tid status) ts

counted : ℕ → ℕ → ℤ → Tweet → Tweet
counted snow_tid kind delta t =
    if not (t.snow_tid == snow_tid)
    then t
    else if kind == 1
    then record t { like_count = t.like_count +ℤ delta }
    else record t { comment_count = t.comment_count +ℤ delta }

-- The statement of `UpdateCount`, for update type 1 or 2.
unfoldable pub update_count : ℕ → ℕ → ℤ → List Tweet → List Tweet
unfolding counted
update_count snow_tid kind delta ts = map (counted snow_tid kind delta) ts

-- The calls of DeleteTweet that others see.
pub data Call : Type 0 where
  del_tweet_cache : Key → Call
  -- `UserCenterRpc.UpdateUserStats`: user, update type, delta
  update_user_stats : ℕ → ℕ → ℤ → Call
  push : String → List Cell → Message → Call

-- By how much the post count of a user is moved: update type 3.
abbrev pub post_delta : ℕ → List Call → ℤ
post_delta uid [] = pos 0
post_delta uid (update_user_stats u k d ∷ cs) =
    if u == uid && k == 3 then d +ℤ post_delta uid cs else post_delta uid cs
post_delta uid (_ ∷ cs) = post_delta uid cs

pub record DeleteTweetReq : Type 0 where
  pub snow_tid : ℕ
  pub uid : ℕ

pub record UpdateTweetStatsReq : Type 0 where
  pub snow_tid : ℕ
  pub update_type : ℕ
  pub delta : ℤ

-- DeleteTweetResp and UpdateTweetStatsResp have the same fields.
pub record Resp : Type 0 where
  pub code : ℕ
  pub msg : String

-- What a handler is told: whether the query, if there is need of one, and the update succeed.
pub record Answers : Type 0 where
  pub query_ok : Bool
  pub update_ok : Bool

-- The goroutines of DeleteTweet; `sendRecommendDeleteMessage` is the last.
pub delete_calls : DeleteTweetReq → List Call
delete_calls req =
    del_tweet_cache (tweet_key req.snow_tid)
    ∷ update_user_stats req.uid 3 (negsuc 0)
    ∷ push "recommend_tweet" (raw "delete" ∷ nat req.snow_tid ∷ [])
        (("action", str "delete_tweet") ∷ ("snow_tid", int req.snow_tid) ∷ [])
    ∷ []

refuse : ℕ → String → List Tweet → Resp × List Call × List Tweet
refuse code msg table = (record { code = code; msg = msg }, [], table)

-- DeleteTweet after its lookup.
unfoldable pub delete_found :
    Answers → DeleteTweetReq → Lookup → List Tweet → Resp × List Call × List Tweet
unfolding refuse delete_calls
delete_found a req missing table = refuse 0 "推文不存在" table
delete_found a req failed table = refuse 500 "查询推文失败" table
delete_found a req (found t) table =
    if not (t.uid == req.uid)
    then refuse 403 "无权删除该推文" table
    else if t.status == 1
    then refuse 0 "推文已删除" table
    else if t.status == 2
    then refuse 403 "审核中的推文不能删除" table
    else if not a.update_ok
    then refuse 500 "删除推文失败" table
    else (record { code = 0; msg = "删除成功" }, delete_calls req, update_status req.snow_tid 1 table)

module _ (c : CachedConn) where
  -- The table and the cache of its rows.
  pub record Store : Type 0 where
    pub table : List Tweet
    pub rows : c.State

  -- `FindOne`
  unfoldable pub find_one : Bool → ℕ → Store → Lookup × c.State
  find_one query_ok snow_tid s =
      c.query_row snow_tid (if query_ok then find_normal snow_tid s.table else failed) s.rows

  -- `DeleteTweet`
  unfoldable pub delete_tweet : Answers → DeleteTweetReq → Store → Resp × List Call × Store
  delete_tweet a req s =
      let (tweet, rows) = find_one a.query_ok req.snow_tid s in
      let (resp, calls, table) = delete_found a req tweet s.table in
      (resp, calls, record { table = table; rows = rows })

  -- `UpdateTweetStats` with `UpdateCount`: a row that is updated loses its entry in the cache.
  unfoldable pub update_tweet_stats : Answers → UpdateTweetStatsReq → Store → Resp × Store
  update_tweet_stats a req s =
      if (req.update_type == 1 || req.update_type == 2) && a.update_ok
      then (
        record { code = 0; msg = "success" },
        record {
          table = update_count req.snow_tid req.update_type req.delta s.table;
          rows = c.del req.snow_tid s.rows;
        },
      )
      else (record { code = 500; msg = "更新统计失败" }, s)
