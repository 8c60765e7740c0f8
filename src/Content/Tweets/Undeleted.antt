-- ===== src/Content/Tweets/Undeleted.antt =====
-- A tweet that has been deleted and is still shown.
use gozero_x.Common.{ℕ, ◌≡◌, refl, true, Bool, Option, none, some}
use gozero_x.Cache.{Redis}
use gozero_x.Cache.Tweets.{Tweet, get_tweet_from_cache}
use gozero_x.Users.Info.{GetUserInfoResp}
use gozero_x.Content.{
  found, missing, CachedConn, IsLawful, find_normal, DeleteTweetReq, Answers, Store, find_one,
  delete_tweet,
}
use gozero_x.Content.Laws.{
  query_row-again, find_normal-update_status, delete_tweet-own, without, asked,
}
use gozero_x.Content.Tweets.{Service, with_tweet, get_found, get_with, get_tweet_by_snow_tid}

module _ (c : CachedConn) (lawful : IsLawful c) (r : Redis)
    (user : ℕ → Option GetUserInfoResp) where
  -- GetTweetBySnowTid without a hash shows what FindOne finds.
  pub get_tweet-found :
      (query_ok : Bool) (snow_tid : ℕ) (s : Service c r) (t : Tweet)
      → get_tweet_from_cache r snow_tid s.hashes ≡ none
      → (find_one c query_ok snow_tid s.store).0 ≡ found t
      → (get_tweet_by_snow_tid c r user query_ok snow_tid s).0 ≡ some (with_tweet (user t.uid) t)
  unfolding get_tweet_by_snow_tid get_with get_found
  get_tweet-found query_ok snow_tid s t no_hash there = rw (no_hash, there) refl

  pub get_tweet-hit :
      (query_ok : Bool) (snow_tid : ℕ) (s : Service c r) (t : Tweet)
      → get_tweet_from_cache r snow_tid s.hashes ≡ some t
      → (get_tweet_by_snow_tid c r user query_ok snow_tid s).0 ≡ some (with_tweet (user t.uid) t)
  unfolding get_tweet_by_snow_tid get_with
  get_tweet-hit query_ok snow_tid s t hash = rw hash refl

  -- After a user has deleted a normal tweet, with an update that succeeds, and where its hash is gone,
  -- as DelTweetCache leaves it, GetTweetBySnowTid still shows the tweet to everyone, as normal, though
  -- the view of normal tweets does not have it any more, whether or not the query works: FindOne
  -- answers from the entry of the row, which UpdateStatus leaves in place.
  pub get_tweet_by_snow_tid-delete_tweet :
      (a : Answers) (again : Bool) (req : DeleteTweetReq) (s : Store c) (t : Tweet) (h : r.State)
      → (find_one c a.query_ok req.snow_tid s).0 ≡ found t
      → t.uid ≡ req.uid
      → t.status ≡ 0
      → a.update_ok ≡ true
      → get_tweet_from_cache r req.snow_tid h ≡ none
      → let (resp, calls, left) = delete_tweet c a req s in
        (resp.msg ≡ "删除成功")
        × ((get_tweet_by_snow_tid c r user again req.snow_tid
              (record { store = left; hashes = h })).0
            ≡ some (with_tweet (user t.uid) t))
        × (find_normal req.snow_tid left.table ≡ missing)
  unfolding find_one
  get_tweet_by_snow_tid-delete_tweet a again req s t h there owner normal ok no_hash =
      let left = without c lawful s req (find_one c a.query_ok req.snow_tid s).1 in
      rw (delete_tweet-own c lawful a req s t there owner normal ok) (
        refl,
        get_tweet-found again req.snow_tid (record { store = left; hashes = h }) t no_hash
            (query_row-again c lawful req.snow_tid (asked c lawful a req s) _ s.rows t there),
        find_normal-update_status req.snow_tid s.table,
      )
