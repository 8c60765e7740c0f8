-- ===== src/Content/Listing/Complete.antt =====
-- What a client sees who reads the tweets of a user page by page.
use gozero_x.Common.{
  ℕ, suc, ◌==◌, ◌&&◌, ◌||◌, Bool, ◌≡◌, ◌≢◌, refl, ap, ◌∙◌, min, length-take, length-map, Option,
  none, some, List, [], map, arith, length, select, All, take,
}
use gozero_x.Common.Int.{ℤ, pos, negsuc}
use gozero_x.Cache.Tweets.{Tweet}
use gozero_x.Feed.{Tweet as PbTweet}
use gozero_x.Users.Info.{GetUserInfoResp}
use gozero_x.Content.Batch.{build_tweet}
use gozero_x.Content.Listing.{
  ListTweetsUidReq, ListTweetsUidResp, cursor_time, page_limit, sort_order, listed, find_by_uid,
  with_user_info, list_found, list_tweets_uid,
}
use gozero_x.Paging.Reading.{read}
use gozero_x.Paging.Query.Read.{read-query}
use gozero_x.Paging.Query.{order_by, from_cursor}
use gozero_x.Paging.Query.Ordered.{length-order_by, Different}

-- The tweets of a response, and none of an error.
abbrev pub tweets_of : Option ListTweetsUidResp → List PbTweet
tweets_of none = []
tweets_of (some resp) = resp.tweets

abbrev pub total_of : Option ListTweetsUidResp → ℕ
total_of none = 0
total_of (some resp) = resp.total

page_limit-some : (limit : ℤ) → page_limit limit ≢ 0
page_limit-some (negsuc n) = ground arith
page_limit-some (pos n) = ground arith

named-time :
    (user : Option GetUserInfoResp) (t : Tweet)
    → (with_user_info user (build_tweet t)).created_at ≡ t.created_at
unfolding build_tweet
named-time none t = refl
named-time (some resp) t = ground arith

abbrev tweet_time : Tweet → ℕ
tweet_time t = t.created_at

-- A normal tweet of the user that the request asks for, and a public one unless it asks for all.
abbrev pub asked_for : ListTweetsUidReq → Tweet → Bool
asked_for req t = t.status == 0 && (t.uid == req.query_uid && (req.is_public || t.is_public))

module _ (rows : List Tweet) (user : Option GetUserInfoResp) (req : ListTweetsUidReq) where
  -- Every tweet that the request asks for, in the order it asks for.
  abbrev pub wanted : List Tweet
  wanted = order_by (sort_order req.sort) tweet_time (select (asked_for req) rows)

  abbrev pub answer : ℤ → Option ListTweetsUidResp
  answer cursor =
      list_tweets_uid (record { table = some rows; user = user }) (record req { cursor = cursor })

  abbrev pub seen : ℤ → List PbTweet
  seen cursor = tweets_of (answer cursor)

  seen-total :
      (cursor : ℤ) → length (seen cursor) ≡ min (page_limit req.limit) (total_of (answer cursor))
  unfolding list_tweets_uid list_found find_by_uid
  seen-total cursor =
      let found =
        from_cursor (sort_order req.sort) tweet_time (listed req.query_uid req.is_public)
          (pos (cursor_time cursor)) rows in
      let sorted = order_by (sort_order req.sort) tweet_time found in
      length-map (λ t. with_user_info user (build_tweet t)) (take (page_limit req.limit) sorted)
      ∙ length-take (page_limit req.limit) sorted
      ∙ ap (min (page_limit req.limit)) (length-order_by (sort_order req.sort) tweet_time found)

  -- Where no two tweets that the request asks for have the same time, and none has the time 0,
  -- reading the pages in a row by the times of their last tweets shows every normal tweet of the
  -- user, and of those the public ones unless all are asked for, once and in the order asked for; one
  -- page more than there are tweets is enough. A page has as many tweets as its limit says, or as its
  -- total says if that is less.
  pub read_tweets_complete :
      Different tweet_time (select (asked_for req) rows)
      → All (λ t. t.created_at ≢ 0) (select (asked_for req) rows)
      → (read (λ t. t.created_at) seen (suc (length wanted)) (pos 0)
          ≡ map (λ t. with_user_info user (build_tweet t)) wanted)
        × ((cursor : ℤ)
            → length (seen cursor) ≡ min (page_limit req.limit) (total_of (answer cursor)))
  unfolding list_tweets_uid list_found find_by_uid
  read_tweets_complete different times = (
    read-query (sort_order req.sort) tweet_time (listed req.query_uid req.is_public) rows
        (λ t. t.created_at) (λ t. with_user_info user (build_tweet t)) seen (page_limit req.limit)
        (named-time user) (page_limit-some req.limit) (λ n. refl) different times,
    seen-total,
  )
