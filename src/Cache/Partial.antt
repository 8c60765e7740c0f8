-- ===== src/Cache/Partial.antt =====
-- HINCRBY on a key that has expired makes a hash of the one counter, which the readers take for a
-- whole record: they look only whether the hash is empty.
use gozero_x.Common.{ℕ, ◌≡◌, false, Option, some, []}
use gozero_x.Common.Int.{ℤ, pos}
use gozero_x.Cache.{Hash, get, nat_cell, int_cell, text_cell, flag_cell, list_cell, Redis, IsLawful}
use gozero_x.Cache.Comments.{Comment, comment_key, parse_comment, get_comment_by_snow_cid}
use gozero_x.Cache.Tweets.{Tweet, tweet_key, parse_tweet, get_tweet_from_cache}

-- A comment with one counter, of nobody, for no tweet, in the normal state.
abbrev pub blank_comment : ℤ → Comment
blank_comment likes = record {
  snow_cid = 0;
  cid = 0;
  snow_tid = 0;
  uid = 0;
  content = "";
  like_count = likes;
  reply_count = pos 0;
  status = 0;
  created_at = 0;
  updated_at = 0;
}

-- A tweet with one counter, of nobody, not public.
abbrev pub blank_tweet : ℤ → Tweet
blank_tweet likes = record {
  snow_tid = 0;
  tid = 0;
  uid = 0;
  content = "";
  media_urls = [];
  tags = [];
  is_public = false;
  like_count = likes;
  comment_count = pos 0;
  created_at = 0;
  status = 0;
}

module _ (r : Redis) (lawful : IsLawful r) where
  -- After a like of a comment that is not in the cache, GetCommentBySnowCid answers with an empty
  -- comment of user 0, whatever the database holds.
  pub liked_comment_blank :
      (find_one : ℕ → Option Comment) (snow_cid : ℕ) (delta : ℤ) (s t : r.State) (g : Hash)
      → r.hgetall (comment_key snow_cid) s ≡ some []
      → r.hincrby (comment_key snow_cid) "like_count" delta s ≡ some t
      → r.hgetall (comment_key snow_cid) t ≡ some g
      → get_comment_by_snow_cid r find_one snow_cid t ≡ some (blank_comment delta)
  unfolding get_comment_by_snow_cid parse_comment get nat_cell int_cell text_cell
  liked_comment_blank find_one snow_cid delta s t g missing stored read = rw (
    read,
    lawful.hincrby_creates (comment_key snow_cid) "like_count" delta s t g missing stored read,
    get_comment_by_snow_cid,
  )

  -- After a like of a tweet that is not in the cache, GetTweetFromCache answers with an empty tweet
  -- that is not public: not as a miss.
  pub liked_tweet_blank :
      (snow_tid : ℕ) (delta : ℤ) (s t : r.State) (g : Hash)
      → r.hgetall (tweet_key snow_tid) s ≡ some []
      → r.hincrby (tweet_key snow_tid) "like_count" delta s ≡ some t
      → r.hgetall (tweet_key snow_tid) t ≡ some g
      → get_tweet_from_cache r snow_tid t ≡ some (blank_tweet delta)
  unfolding get_tweet_from_cache parse_tweet get nat_cell int_cell text_cell flag_cell list_cell
  liked_tweet_blank snow_tid delta s t g missing stored read = rw (
    read,
    lawful.hincrby_creates (tweet_key snow_tid) "like_count" delta s t g missing stored read,
    get_tweet_from_cache,
  )
