-- ===== src/Content/Tweets/Made.antt =====
-- A tweet that has been made is read back.
use gozero_x.Common.{
  ℕ, ◌≡◌, ◌≢◌, refl, ap, ◌∙◌, ◌⊎◌, ◌∷◌, not, ◌||◌, Bool-cases, inl, inr, true, Option, none, some,
  arith, Option-cases,
}
use gozero_x.Cache.{Redis, IsLawful as IsLawfulRedis}
use gozero_x.Cache.Tweets.{
  Tweet, tweet_key, tweet_fields, hit_tweet, cached_tweet, get_tweet_from_cache,
  get_tweet_from_cache-set,
}
use gozero_x.Users.Info.{GetUserInfoResp}
use gozero_x.Content.{found, CachedConn, IsLawful, find_normal, Store, find_one}
use gozero_x.Content.Tweets.Undeleted.{get_tweet-found, get_tweet-hit}
use gozero_x.Content.Batch.{build_tweet}
use gozero_x.Content.Tweets.{
  tid_taken, create_calls, Service, TweetResp, CreateAnswers, CreateTweetReq, new_tweet, with_tweet,
  insert, set_tweet, inserted, create_with, create_tweet, get_tweet_by_snow_tid,
}

-- The response with the time of the row.
abbrev pub at_time : ℕ → TweetResp → TweetResp
at_time now resp = record resp {
  tweet = elim resp.tweet [ none ↦ none | some t ↦ some (record t { created_at = now }) ];
}

with_tweet-time :
    (user : Option GetUserInfoResp) (t : Tweet) (now : ℕ)
    → with_tweet user (record t { created_at = now }) ≡ at_time now (with_tweet user t)
unfolding build_tweet
with_tweet-time none t now = refl
with_tweet-time (some resp) t now = ground arith

with_tweet-cached :
    (user : Option GetUserInfoResp) (t : Tweet)
    → with_tweet user (cached_tweet t) ≡ with_tweet user t
unfolding build_tweet
with_tweet-cached user t = refl

module _ (c : CachedConn) (lawful : IsLawful c) (r : Redis) (redis : IsLawfulRedis r) where
  -- What CreateTweet leaves that succeeds.
  abbrev made_store : CreateAnswers → Tweet → Store c → Store c
  made_store a t s = record {
    table = record t { created_at = a.db_now } ∷ s.table;
    rows = c.del t.snow_tid s.rows;
  }

  abbrev made_service : CreateAnswers → Tweet → Service c r → Service c r
  made_service a t s = record {
    store = made_store a t s.store;
    hashes = set_tweet c r t.snow_tid t s.hashes;
  }

  create_tweet-made :
      (a : CreateAnswers) (req : CreateTweetReq) (snow_tid : ℕ) (s : Service c r)
      → a.new_id ≡ some snow_tid
      → (create_tweet c r a req s).0.code ≡ 0
      → let t = new_tweet a req snow_tid in
        create_tweet c r a req s ≡ (with_tweet a.user t, create_calls t, made_service a t s)
  unfolding create_tweet create_with inserted insert
  create_tweet-made a req snow_tid s id made =
      elim (Bool-cases (tid_taken snow_tid s.store.table || not a.insert_ok)) [
        | inl refused ↦
            let code : (create_tweet c r a req s).0.code ≡ 500 = rw (id, refused) refl in
            absurd (omega arith)
        | inr free ↦ rw (id, free) refl
      ]

  -- FindOne finds the new row.
  find_one-made :
      (a : CreateAnswers) (t : Tweet) (s : Store c)
      → t.status ≡ 0
      → (find_one c true t.snow_tid (made_store a t s)).0
        ≡ found (record t { created_at = a.db_now })
  unfolding find_one find_normal
  find_one-made a t s normal =
      lawful.miss t.snow_tid _ (c.del t.snow_tid s.rows) (lawful.deleted t.snow_tid s.rows)
      ∙ ground arith

  unread_hash :
      (snow_tid : ℕ) (k : r.State)
      → r.hgetall (tweet_key snow_tid) k ≡ none
      → get_tweet_from_cache r snow_tid k ≡ none
  unfolding get_tweet_from_cache hit_tweet
  unread_hash snow_tid k unread = rw (unread) refl

  -- The hash of the new tweet, or none.
  hash-made :
      (t : Tweet) (h : r.State)
      → get_tweet_from_cache r t.snow_tid h ≡ none
      → (get_tweet_from_cache r t.snow_tid (set_tweet c r t.snow_tid t h) ≡ none)
        ⊎ (get_tweet_from_cache r t.snow_tid (set_tweet c r t.snow_tid t h) ≡ some (cached_tweet t))
  unfolding set_tweet
  hash-made t h no_hash = elim (Option-cases (r.hmset (tweet_key t.snow_tid) (tweet_fields t) h)) [
    | inl refused ↦ rw (refused) (inl no_hash)
    | inr (k, stored) ↦ rw (stored) (elim (Option-cases (r.hgetall (tweet_key t.snow_tid) k)) [
      | inl unread ↦ inl (unread_hash t.snow_tid k unread)
      | inr (g, read) ↦ inr (get_tweet_from_cache-set r redis t.snow_tid t h k g stored read)
    ])
  ]

  -- A tweet that CreateTweet has made, under an id that had no hash, is read back by
  -- GetTweetBySnowTid, with a query that succeeds: where the hash of the tweet can be read then, as the
  -- response showed it, and where it cannot, with the time of the row, which the database gives, in
  -- place of the one in the response.
  pub get_tweet_by_snow_tid-create_tweet :
      (a : CreateAnswers) (req : CreateTweetReq) (snow_tid : ℕ) (s : Service c r)
      → a.new_id ≡ some snow_tid
      → (create_tweet c r a req s).0.code ≡ 0
      → get_tweet_from_cache r snow_tid s.hashes ≡ none
      → let (resp, calls, left) = create_tweet c r a req s in
        let got = (get_tweet_by_snow_tid c r (λ uid. a.user) true snow_tid left).0 in
        ((get_tweet_from_cache r snow_tid left.hashes ≢ none) × (got ≡ some resp))
        ⊎ ((get_tweet_from_cache r snow_tid left.hashes ≡ none)
            × (got ≡ some (at_time a.db_now resp)))
  get_tweet_by_snow_tid-create_tweet a req snow_tid s id made no_hash =
      let t = new_tweet a req snow_tid in
      rw (create_tweet-made a req snow_tid s id made) (elim (hash-made t s.hashes no_hash) [
        | inl miss ↦ inr (
          miss,
          get_tweet-found c lawful r (λ uid. a.user) true snow_tid (made_service a t s) _ miss
                (find_one-made a t s.store refl)
              ∙ ap some (with_tweet-time a.user t a.db_now),
        )
        | inr hit ↦ inl (
          (λ miss. ground (arith, miss, hit)),
          get_tweet-hit c lawful r (λ uid. a.user) true snow_tid (made_service a t s) _ hit
              ∙ ap some (with_tweet-cached a.user t),
        )
      ])
