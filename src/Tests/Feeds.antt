-- ===== src/Tests/Feeds.antt =====
-- The feed at concrete inputs, with a queue that is a list.
use gozero_x.Common.{
  ℕ, ◌≡◌, ◌≢◌, ◌≤◌, ◌<◌, ◌⊎◌, refl, true, some, List, [], ◌∷◌, ◌++◌, arith, map, length, take, drop,
}
use gozero_x.Common.Int.{pos, negsuc}
use gozero_x.Feed.{Tweet, Answers, failed, answers, recommend_feed, panics}
use gozero_x.Feed.Build.{present, info_id}
use gozero_x.Feed.Queue.{Queue, IsLawful, after, shown}
use gozero_x.Feed.Laws.{recommend_feed-cached, recommend_feed-recalled}
use gozero_x.Feed.Failures.{recommend_feed-batch_fails, recommend_feed-panics}

abbrev list_queue : Queue
list_queue = record {
  State = List ℕ;
  lrange = λ s. s;
  del_key = λ s. [];
  ltrim_from = drop;
  rpush_to = λ tid s. s ++ (tid ∷ []);
}

list_queue-IsLawful : IsLawful list_queue
list_queue-IsLawful = record {
  del_empties = λ s. refl;
  ltrim_drops = λ n s. refl;
  rpush_appends = λ tid s. refl;
}

abbrev tweet : ℕ → Tweet
tweet tid = record {
  snow_tid = tid;
  uid = 3;
  content = "news";
  media_urls = [];
  tags = [];
  is_public = true;
  created_at = 1000;
  like_count = pos 0;
  comment_count = pos 0;
  status = 0;
  nickname = "ann";
  avatar = "";
}

abbrev tweets : List Tweet
tweets = tweet 21 ∷ tweet 23 ∷ tweet 24 ∷ tweet 25 ∷ []

abbrev full : List ℕ
full = 21 ∷ 22 ∷ 23 ∷ 24 ∷ 25 ∷ 26 ∷ []

abbrev told : List ℕ → Answers
told cached = record {
  cached = some cached;
  recall = answers (pos 0) (23 ∷ 24 ∷ 25 ∷ []);
  batch = answers (pos 0) tweets;
  pushes = 100;
}

recommend_feed-cached_example :
    (shown (recommend_feed (told full) (record { uid = 3; limit = pos 2 })).0
      ≡ take 2 (present tweets (21 ∷ 22 ∷ 23 ∷ 24 ∷ [])))
    × (after list_queue (recommend_feed (told full) (record { uid = 3; limit = pos 2 })).1 full
        ≡ 25 ∷ 26 ∷ [])
recommend_feed-cached_example =
    recommend_feed-cached list_queue list_queue-IsLawful (told full) 3 2 full refl tweets
      (omega arith) (omega arith) refl

recommend_feed-recalled_example :
    (map info_id (shown (recommend_feed (told (21 ∷ [])) (record { uid = 3; limit = pos 2 })).0)
        ++ after list_queue
            (recommend_feed (told (21 ∷ [])) (record { uid = 3; limit = pos 2 })).1
            (21 ∷ [])
      ≡ map info_id (present tweets (21 ∷ 23 ∷ 24 ∷ 25 ∷ [])))
    × (length (shown (recommend_feed (told (21 ∷ [])) (record { uid = 3; limit = pos 2 })).0) ≤ 2)
recommend_feed-recalled_example =
    recommend_feed-recalled list_queue list_queue-IsLawful (told (21 ∷ [])) 3 2 (21 ∷ []) refl
      tweets (23 ∷ 24 ∷ 25 ∷ []) (omega arith) refl refl (omega arith)

abbrev without_content : Answers
without_content = record { cached = some full; recall = failed; batch = failed; pushes = 0 }

recommend_feed-batch_fails_example :
    (shown (recommend_feed without_content (record { uid = 3; limit = pos 2 })).0 ≡ [])
    × (((2 ≤ 6)
          × (after list_queue
                (recommend_feed without_content (record { uid = 3; limit = pos 2 })).1
                full
              ≡ 25 ∷ 26 ∷ []))
        ⊎ ((6 < 2)
            × (after list_queue
                  (recommend_feed without_content (record { uid = 3; limit = pos 2 })).1
                  full
                ≡ [])))
recommend_feed-batch_fails_example =
    recommend_feed-batch_fails without_content 3 2 (omega arith) list_queue list_queue-IsLawful full
      refl refl

recommend_feed-panics_example :
    (recommend_feed (told full) (record { uid = 3; limit = negsuc 0 }) ≡ (panics, []))
    × ((recommend_feed (told full) (record { uid = 3; limit = pos 0 })).0 ≢ panics)
recommend_feed-panics_example = recommend_feed-panics (told full) 3 0 (omega arith)
