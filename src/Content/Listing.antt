-- ===== src/Content/Listing.antt =====
-- The tweets of a user, page by page: app/contentService/cmd/rpc/internal/logic/listtweetsuidlogic.go
-- with FindByUid of app/contentService/model/tweetModel.go.
pub mod Complete
use Prim.Native.String.{String}
use gozero_x.Common.{
  ℕ, Bool, true, false, ◌&&◌, ◌||◌, Option, none, some, List, [], ◌∷◌, map, ltb, ◌==◌,
  if◌then◌else◌, length, take,
}
use gozero_x.Common.Int.{ℤ, pos, negsuc}
use gozero_x.Cache.Tweets.{Tweet}
use gozero_x.Feed.{Tweet as PbTweet}
use gozero_x.Users.Info.{GetUserInfoResp}
use gozero_x.Users.Hashes.{UserInfo}
use gozero_x.Content.Batch.{build_tweet}
use gozero_x.Paging.Query.{Order, asc, desc, order_by, from_cursor}

pub record ListTweetsUidReq : Type 0 where
  pub query_uid : ℕ
  pub is_public : Bool
  pub cursor : ℤ
  pub limit : ℤ
  pub sort : ℤ

pub record ListTweetsUidResp : Type 0 where
  pub code : ℕ
  pub msg : String
  pub tweets : List PbTweet
  pub total : ℕ

-- What the handler is told: the rows of the table (`none` if a query fails), and the answer of
-- GetUserInfo (`none` for an error).
pub record Answers : Type 0 where
  pub table : Option (List Tweet)
  pub user : Option GetUserInfoResp

-- The limit of a page: 10 where the request has none, at most 100.
abbrev pub page_limit : ℤ → ℕ
page_limit (negsuc n) = 10
page_limit (pos n) = if n == 0 then 10 else if ltb 100 n then 100 else n

-- `sortOrder`
abbrev pub sort_order : ℤ → Order
sort_order (negsuc n) = desc
sort_order (pos n) = if n == 1 then asc else desc

-- The conditions on a row of `tweet_normal` without a cursor; `all` is an `isPublic` of nil.
abbrev pub listed : ℕ → Bool → Tweet → Bool
listed uid all t = t.status == 0 && (t.uid == uid && (all || t.is_public))

-- `cursor > 0` asks for the rows beyond it.
abbrev pub cursor_time : ℤ → ℕ
cursor_time (negsuc n) = 0
cursor_time (pos n) = n

-- `FindByUid`: the page, and the number of rows from the cursor on.
unfoldable pub find_by_uid : ℕ → Bool → ℤ → ℕ → Order → List Tweet → List Tweet × ℕ
find_by_uid uid all cursor limit order rows =
    let found =
      from_cursor order (λ t. t.created_at) (listed uid all) (pos (cursor_time cursor)) rows in
    (take limit (order_by order (λ t. t.created_at) found), length found)

-- The name and the avatar of a user who is found.
abbrev named_by : Option UserInfo → PbTweet → PbTweet
named_by none t = t
named_by (some u) t = record t { nickname = u.nickname; avatar = u.avatar }

abbrev pub with_user_info : Option GetUserInfoResp → PbTweet → PbTweet
with_user_info none t = t
with_user_info (some resp) t = if resp.code == 0 then named_by resp.user_info t else t

-- `ListTweetsUid`; `none` is an error.
unfoldable pub list_found :
    Option GetUserInfoResp → ListTweetsUidReq → Option (List Tweet) → Option ListTweetsUidResp
list_found user req none = none
list_found user req (some rows) =
    let (tweets, total) =
      find_by_uid req.query_uid req.is_public req.cursor (page_limit req.limit)
        (sort_order req.sort) rows in
    some (record {
      code = 0;
      msg = "success";
      tweets = map (λ t. with_user_info user (build_tweet t)) tweets;
      total = total;
    })

unfoldable pub list_tweets_uid : Answers → ListTweetsUidReq → Option ListTweetsUidResp
list_tweets_uid a req = list_found a.user req a.table
