-- ===== src/Tests/Posts.antt =====
-- Tweets that are made, read, listed and deleted, at concrete inputs.
use gozero_x.Common.{
  suc, ◌≡◌, ◌≢◌, refl, ◌⊎◌, true, false, none, some, List, [], ◌∷◌, map, arith, length, min,
}
use gozero_x.Common.Int.{ℤ, pos}
use gozero_x.Cache.Tweets.{Tweet, get_tweet_from_cache, hit_tweet}
use gozero_x.Content.{find_normal, missing, delete_tweet}
use gozero_x.Content.Batch.{build_tweet}
use gozero_x.Content.Listing.{ListTweetsUidReq, page_limit, with_user_info}
use gozero_x.Content.Listing.Complete.{seen, wanted, answer, total_of, read_tweets_complete}
use gozero_x.Content.Tweets.{
  CreateAnswers, CreateTweetReq, Service, with_tweet, tid_taken, insert, inserted, create_with,
  create_tweet, get_tweet_by_snow_tid,
}
use gozero_x.Content.Tweets.Made.{at_time, get_tweet_by_snow_tid-create_tweet}
use gozero_x.Content.Tweets.Undeleted.{get_tweet_by_snow_tid-delete_tweet}
use gozero_x.Paging.Reading.{read}
use gozero_x.Tests.Hashes.{one_key, one_key-IsLawful}
use gozero_x.Tests.Tweets.{
  list_cache, list_cache-IsLawful, a_tweet, before, all_well, a_request, finds_tweet,
}

no_hash : get_tweet_from_cache one_key 5 [] ≡ none
unfolding get_tweet_from_cache hit_tweet
no_hash = refl

get_tweet_by_snow_tid-delete_tweet_example :
    ((delete_tweet list_cache all_well a_request before).0.msg ≡ "删除成功")
    × ((get_tweet_by_snow_tid list_cache one_key
          (λ uid. none)
          true
          5
          (record { store = (delete_tweet list_cache all_well a_request before).2; hashes = [] })).0
        ≡ some (with_tweet none a_tweet))
    × (find_normal 5 (delete_tweet list_cache all_well a_request before).2.table ≡ missing)
get_tweet_by_snow_tid-delete_tweet_example =
    get_tweet_by_snow_tid-delete_tweet list_cache list_cache-IsLawful one_key (λ uid. none) all_well
      true a_request before a_tweet [] finds_tweet refl refl refl no_hash

abbrev told : CreateAnswers
told = record {
  new_id = some 6;
  now = 1700000100;
  db_now = 1700000101;
  insert_ok = true;
  user = none;
}

abbrev a_post : CreateTweetReq
a_post = record { uid = 3; content = "again"; media_urls = []; tags = "go" ∷ []; is_public = true }

abbrev at_first : Service list_cache one_key
at_first = record { store = before; hashes = [] }

made : (create_tweet list_cache one_key told a_post at_first).0.code ≡ 0
unfolding create_tweet create_with inserted insert tid_taken
made = refl

none_yet : get_tweet_from_cache one_key 6 [] ≡ none
unfolding get_tweet_from_cache hit_tweet
none_yet = refl

get_tweet_by_snow_tid-create_tweet_example :
    let (resp, calls, left) = create_tweet list_cache one_key told a_post at_first in
    let got = (get_tweet_by_snow_tid list_cache one_key (λ uid. none) true 6 left).0 in
    ((get_tweet_from_cache one_key 6 left.hashes ≢ none) × (got ≡ some resp))
    ⊎ ((get_tweet_from_cache one_key 6 left.hashes ≡ none) × (got ≡ some (at_time 1700000101 resp)))
get_tweet_by_snow_tid-create_tweet_example =
    get_tweet_by_snow_tid-create_tweet list_cache list_cache-IsLawful one_key one_key-IsLawful told
      a_post 6 at_first refl made none_yet

abbrev posts : List Tweet
posts =
    record a_tweet { created_at = 1000 }
    ∷ record a_tweet { snow_tid = 6; created_at = 1002; is_public = false }
    ∷ record a_tweet { snow_tid = 7; created_at = 1001 }
    ∷ record a_tweet { snow_tid = 8; created_at = 1003; status = 1 }
    ∷ []

abbrev a_page : ListTweetsUidReq
a_page = record { query_uid = 3; is_public = true; cursor = pos 0; limit = pos 2; sort = pos 0 }

read_tweets_complete_example :
    (read
        (λ t. t.created_at)
        (seen posts none a_page)
        (suc (length (wanted posts none a_page)))
        (pos 0)
      ≡ map (λ t. with_user_info none (build_tweet t)) (wanted posts none a_page))
    × ((cursor : ℤ)
        → length (seen posts none a_page cursor)
          ≡ min (page_limit (pos 2)) (total_of (answer posts none a_page cursor)))
read_tweets_complete_example =
    read_tweets_complete posts none a_page
      ((omega arith, (omega arith, _)), ((omega arith, _), (_, _)))
      (omega arith, (omega arith, (omega arith, _)))
