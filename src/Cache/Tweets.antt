-- ===== src/Cache/Tweets.antt =====
-- The hash of a tweet: SetTweetToCache and GetTweetFromCache of
-- app/contentService/cmd/rpc/internal/svc/servicecontext.go.
use Prim.Native.String.{String}
use gozero_x.Common.{ℕ, Bool, ◌≡◌, refl, Option, none, some, List, [], ◌∷◌}
use gozero_x.Common.Int.{ℤ}
use gozero_x.Cache.{
  Key, key, Cell, nat, shown, raw, flag, json_list, Hash, get, nat_cell, int_cell, text_cell,
  flag_cell, list_cell, Redis, IsLawful,
}

-- A row of the tweet table.
pub record Tweet : Type 0 where
  pub snow_tid : ℕ
  pub tid : ℕ
  pub uid : ℕ
  pub content : String
  pub media_urls : List String
  pub tags : List String
  pub is_public : Bool
  pub like_count : ℤ
  pub comment_count : ℤ
  pub created_at : ℕ
  pub status : ℕ

abbrev pub tweet_key : ℕ → Key
tweet_key = key "tweet" "info"

-- The fields that SetTweetToCache writes.
unfoldable pub tweet_fields : Tweet → Hash
tweet_fields c =
    ("snow_tid", nat c.snow_tid)
    ∷ ("uid", nat c.uid)
    ∷ ("content", raw c.content)
    ∷ ("media_urls", json_list c.media_urls)
    ∷ ("tags", json_list c.tags)
    ∷ ("is_public", flag c.is_public)
    ∷ ("created_at", nat c.created_at)
    ∷ ("status", nat c.status)
    ∷ ("like_count", shown c.like_count)
    ∷ ("comment_count", shown c.comment_count)
    ∷ []

-- The tweet that GetTweetFromCache builds from the fields that are there.
unfoldable pub parse_tweet : Hash → Tweet
parse_tweet h = record {
  snow_tid = nat_cell (get "snow_tid" h);
  tid = 0;
  uid = nat_cell (get "uid" h);
  content = text_cell (get "content" h);
  media_urls = list_cell (get "media_urls" h);
  tags = list_cell (get "tags" h);
  is_public = flag_cell (get "is_public" h);
  like_count = int_cell (get "like_count" h);
  comment_count = int_cell (get "comment_count" h);
  created_at = nat_cell (get "created_at" h);
  status = nat_cell (get "status" h);
}

-- `nil, redis.Nil` on an empty hash, `nil, err` on an error: both are a miss.
unfoldable pub hit_tweet : Option Hash → Option Tweet
hit_tweet none = none
hit_tweet (some []) = none
hit_tweet (some (f ∷ h)) = some (parse_tweet (f ∷ h))

module _ (r : Redis) where
  unfoldable pub get_tweet_from_cache : ℕ → r.State → Option Tweet
  unfolding hit_tweet
  get_tweet_from_cache snow_tid s = hit_tweet (r.hgetall (tweet_key snow_tid) s)

-- What a tweet keeps in the cache: all but its serial number.
abbrev pub cached_tweet : Tweet → Tweet
cached_tweet c = record c { tid = 0 }

-- A hash that holds the fields of a tweet is a hit, and reads as that tweet.
hit_tweet-fields :
    (g : Hash) (c : Tweet)
    → ((f : String) (v : Cell) → get f (tweet_fields c) ≡ some v → get f g ≡ some v)
    → hit_tweet (some g) ≡ some (cached_tweet c)
unfolding hit_tweet parse_tweet nat_cell int_cell text_cell flag_cell list_cell get tweet_fields
hit_tweet-fields [] c holds = cc (holds "uid" (nat c.uid) refl)
hit_tweet-fields (x ∷ g) c holds = fields
  where
    at : (f : String) (v : Cell) → get f (tweet_fields c) ≡ some v → get f (x ∷ g) ≡ some v
    at = holds

    fields : some (parse_tweet (x ∷ g)) ≡ some (cached_tweet c)
    fields = rw (
      at "snow_tid" (nat c.snow_tid) refl,
      at "uid" (nat c.uid) refl,
      at "content" (raw c.content) refl,
      at "media_urls" (json_list c.media_urls) refl,
      at "tags" (json_list c.tags) refl,
      at "is_public" (flag c.is_public) refl,
      at "created_at" (nat c.created_at) refl,
      at "status" (nat c.status) refl,
      at "like_count" (shown c.like_count) refl,
      at "comment_count" (shown c.comment_count) refl,
    )

-- A tweet that SetTweetToCache has written is read back, over whatever the key held before,
-- except for its serial number, which reads 0.
pub get_tweet_from_cache-set :
    (r : Redis) (lawful : IsLawful r) (snow_tid : ℕ) (c : Tweet) (s t : r.State) (g : Hash)
    → r.hmset (tweet_key snow_tid) (tweet_fields c) s ≡ some t
    → r.hgetall (tweet_key snow_tid) t ≡ some g
    → get_tweet_from_cache r snow_tid t ≡ some (cached_tweet c)
unfolding get_tweet_from_cache
get_tweet_from_cache-set r lawful snow_tid c s t g stored read = rw read (
    hit_tweet-fields g c
      (λ f v. lawful.hmset_sets (tweet_key snow_tid) (tweet_fields c) s t g f v stored read))
