-- ===== src/Content/Batch/Shown.antt =====
-- Which tweets BatchGetTweets shows.
use gozero_x.Common.{
  ℕ, ◌≡◌, refl, ap, ◌∙◌, Bool, true, false, ◌&&◌, ◌||◌, Option, none, some, List, [], ◌∷◌, map,
  arith, ◌==◌,
}
use gozero_x.Cache.Tweets.{Tweet}
use gozero_x.Feed.{Tweet as PbTweet}
use gozero_x.Content.Batch.{
  any, has, UserBrief, BatchGetTweetsResp, Answers, visible, unique, keep, cached_tweets, is_miss,
  miss_tids, find_batch, put, merge, find_user, build_tweet, named, with_user, success, build_resp,
  complete, batch_get_tweets,
}

-- Whether a tweet with this id is among the tweets.
abbrev pub shown : ℕ → List PbTweet → Bool
shown tid = any (λ t. t.snow_tid == tid)

-- Whether the table has a visible row with this id.
abbrev pub in_table : ℕ → List Tweet → Bool
in_table tid = any (λ t. t.snow_tid == tid && visible t)

-- Whether a tweet is to be shown: what the cache says, and the table only where it says nothing.
abbrev pub available : Answers → List Tweet → ℕ → Bool
available a rows tid = elim (a.cache tid) [ none ↦ in_table tid rows | some t ↦ visible t ]

-- The cache holds visible tweets under their own ids, as SetTweetToCache writes them.
abbrev pub HasOwnIds : (ℕ → Option Tweet) → Type 0
HasOwnIds cache = (tid : ℕ) (t : Tweet) → cache tid ≡ some t → visible t ≡ true → t.snow_tid ≡ tid

-- A key of the map of tweets, and a tweet in it.
abbrev has_key : ℕ → List (ℕ × Tweet) → Bool
has_key tid = any (λ p. p.0 == tid)

abbrev has_tweet : ℕ → List (ℕ × Tweet) → Bool
has_tweet tid = any (λ p. p.1.snow_tid == tid)

-- Every tweet stands under its id.
abbrev own_keys : List (ℕ × Tweet) → Bool
own_keys [] = true
own_keys ((k, t) ∷ m) = k == t.snow_tid && own_keys m

has_tweet-own :
    (tid : ℕ) (m : List (ℕ × Tweet)) → own_keys m ≡ true → has_tweet tid m ≡ has_key tid m
has_tweet-own tid [] own = refl
has_tweet-own tid ((k, t) ∷ m) own = ground (arith, has_tweet-own tid m)

-- What is computed from equal ids is equal.
of_same : (f : ℕ → Bool) (m n : ℕ) → (m == n) ≡ true → f m ≡ f n
of_same f m n h = ap f (ground arith)

pub has-unique : (n : ℕ) (ns : List ℕ) → has n (unique ns) ≡ has n ns
unfolding unique
has-unique n [] = refl
has-unique n (m ∷ ns) = ground (arith, has-unique n ns, of_same (λ k. has k ns) m n)

has_key-put :
    (tid k : ℕ) (t : Tweet) (m : List (ℕ × Tweet))
    → has_key tid (put k t m) ≡ (k == tid || has_key tid m)
unfolding put
has_key-put tid k t [] = refl
has_key-put tid k t ((j, u) ∷ m) = ground (arith, has_key-put tid k t m)

own_keys-put :
    (t : Tweet) (m : List (ℕ × Tweet)) → own_keys m ≡ true → own_keys (put t.snow_tid t m) ≡ true
unfolding put
own_keys-put t [] own = ground arith
own_keys-put t ((j, u) ∷ m) own = ground (arith, own_keys-put t m)

has_key-merge :
    (tid : ℕ) (ts : List Tweet) (m : List (ℕ × Tweet))
    → has_key tid (merge ts m) ≡ (in_table tid ts || has_key tid m)
unfolding merge
has_key-merge tid [] m = refl
has_key-merge tid (t ∷ ts) m = ground (
  arith,
  has_key-merge tid ts m,
  has_key-merge tid ts (put t.snow_tid t m),
  has_key-put tid t.snow_tid t m,
)

own_keys-merge :
    (ts : List Tweet) (m : List (ℕ × Tweet)) → own_keys m ≡ true → own_keys (merge ts m) ≡ true
unfolding merge
own_keys-merge [] m own = own
own_keys-merge (t ∷ ts) m own =
    ground (arith, own_keys-merge ts m, own_keys-merge ts (put t.snow_tid t m), own_keys-put t m)

in_table-find_batch :
    (tid : ℕ) (tids : List ℕ) (rows : List Tweet)
    → in_table tid (find_batch tids rows) ≡ (has tid tids && in_table tid rows)
unfolding find_batch
in_table-find_batch tid tids [] = ground arith
in_table-find_batch tid tids (t ∷ rows) =
    ground (arith, in_table-find_batch tid tids rows, of_same (λ k. has k tids) t.snow_tid tid)

-- The cache holds a visible tweet.
abbrev hit : Option Tweet → Bool
hit none = false
hit (some t) = visible t

has_key-keep :
    (tid k : ℕ) (o : Option Tweet) (m : List (ℕ × Tweet))
    → has_key tid (keep k o m) ≡ (k == tid && hit o || has_key tid m)
has_key-keep tid k none m = ground arith
has_key-keep tid k (some t) m = ground arith

own_keys-keep :
    (k : ℕ) (o : Option Tweet) (m : List (ℕ × Tweet))
    → ((t : Tweet) → o ≡ some t → visible t ≡ true → t.snow_tid ≡ k)
    → own_keys m ≡ true
    → own_keys (keep k o m) ≡ true
own_keys-keep k none m own h = h
own_keys-keep k (some t) m own h = ground (arith, own t refl)

has_key-cached_tweets :
    (tid : ℕ) (cache : ℕ → Option Tweet) (tids : List ℕ)
    → has_key tid (cached_tweets cache tids) ≡ (has tid tids && hit (cache tid))
unfolding cached_tweets
has_key-cached_tweets tid cache [] = refl
has_key-cached_tweets tid cache (k ∷ tids) = ground (
  arith,
  has_key-keep tid k (cache k) (cached_tweets cache tids),
  has_key-cached_tweets tid cache tids,
  of_same (λ n. hit (cache n)) k tid,
)

own_keys-cached_tweets :
    (cache : ℕ → Option Tweet) (tids : List ℕ)
    → HasOwnIds cache
    → own_keys (cached_tweets cache tids) ≡ true
unfolding cached_tweets
own_keys-cached_tweets cache [] own = refl
own_keys-cached_tweets cache (k ∷ tids) own =
    own_keys-keep k (cache k) (cached_tweets cache tids) (own k)
      (own_keys-cached_tweets cache tids own)

has-miss_tids :
    (tid : ℕ) (cache : ℕ → Option Tweet) (tids : List ℕ)
    → has tid (miss_tids cache tids) ≡ (has tid tids && is_miss (cache tid))
unfolding miss_tids
has-miss_tids tid cache [] = refl
has-miss_tids tid cache (k ∷ tids) =
    ground (arith, has-miss_tids tid cache tids, of_same (λ n. is_miss (cache n)) k tid)

named-id : (o : Option UserBrief) (t : PbTweet) → (named o t).snow_tid ≡ t.snow_tid
named-id none t = refl
named-id (some u) t = refl

-- The user's name leaves the id of a tweet as it is.
with_user-id :
    (users : Option (List UserBrief)) (t : Tweet) → (with_user users t).snow_tid ≡ t.snow_tid
unfolding with_user build_tweet
with_user-id none t = refl
with_user-id (some us) t = named-id (find_user t.uid us) (build_tweet t)

shown-map :
    (tid : ℕ) (users : Option (List UserBrief)) (m : List (ℕ × Tweet))
    → shown tid (map (λ p. with_user users p.1) m) ≡ has_tweet tid m
shown-map tid users [] = refl
shown-map tid users ((k, t) ∷ m) = rw (with_user-id users t, shown-map tid users m) refl

-- What is asked for is a miss that the table has or a hit, or is not there.
hit_or_miss :
    (o : Option Tweet) (asked kept : Bool)
    → ((asked && is_miss o) && kept || asked && hit o)
      ≡ (asked && elim o [ none ↦ kept | some t ↦ visible t ])
hit_or_miss none asked kept = ground arith
hit_or_miss (some t) asked kept = ground arith

found-available :
    (a : Answers) (rows : List Tweet) (tids : List ℕ) (tid : ℕ)
    → (has tid (miss_tids a.cache tids) && in_table tid rows
        || has_key tid (cached_tweets a.cache tids))
      ≡ (has tid tids && available a rows tid)
found-available a rows tids tid =
    rw (has-miss_tids tid a.cache tids, has_key-cached_tweets tid a.cache tids)
      (hit_or_miss (a.cache tid) (has tid tids) (in_table tid rows))

-- An order of the entries of a map: no test can tell that they were moved.
abbrev pub IsOrder : ((A : Type 0) → List A → List A) → Type 1
IsOrder order = (A : Type 0) (p : A → Bool) (xs : List A) → any p (order A xs) ≡ any p xs

module _ (order : (A : Type 0) → List A → List A) (same : IsOrder order) where
  shown-build_resp :
      (tid : ℕ) (users : Option (List UserBrief)) (m : List (ℕ × Tweet))
      → shown tid (build_resp order users m).tweets ≡ has_tweet tid m
  unfolding build_resp
  shown-build_resp tid users [] = refl
  shown-build_resp tid users (e ∷ m) =
      shown-map tid users (order (ℕ × Tweet) (e ∷ m)) ∙ same (ℕ × Tweet) _ (e ∷ m)

  -- With a table that can be read, the response shows what the map holds and the missing ids that the
  -- table has.
  complete-shown :
      (a : Answers) (rows : List Tweet) (m : List (ℕ × Tweet)) (tids : List ℕ)
      → a.table ≡ some rows
      → own_keys m ≡ true
      → (resp : BatchGetTweetsResp) × ((complete order a m tids).0 ≡ some resp)
        × ((tid : ℕ) → shown tid resp.tweets ≡ (has tid tids && in_table tid rows || has_key tid m))
  unfolding complete
  complete-shown a rows m [] read own = (
    build_resp order a.users m,
    refl,
    λ tid. shown-build_resp tid a.users m ∙ has_tweet-own tid m own,
  )
  complete-shown a rows m (k ∷ tids) read own =
      let found = find_batch (k ∷ tids) rows in
      (
        build_resp order a.users (merge found m),
        rw read refl,
        λ tid.
            shown-build_resp tid a.users (merge found m)
            ∙ has_tweet-own tid (merge found m) (own_keys-merge found m own)
            ∙ has_key-merge tid found m
            ∙ ap (λ b. b || has_key tid m) (in_table-find_batch tid (k ∷ tids) rows),
      )

  -- Where the table can be read and the cache holds visible tweets under their own ids,
  -- BatchGetTweets answers, and shows an id exactly if it was asked for and is available: if the cache
  -- has the tweet, it decides whether it is visible; the table is asked only where the cache has
  -- nothing. The order in which Go visits maps does not matter.
  pub batch_get_tweets-shown :
      (a : Answers) (rows : List Tweet) (tids : List ℕ)
      → a.table ≡ some rows
      → HasOwnIds a.cache
      → (resp : BatchGetTweetsResp) × ((batch_get_tweets order a tids).0 ≡ some resp)
        × ((tid : ℕ) → shown tid resp.tweets ≡ (has tid tids && available a rows tid))
  unfolding batch_get_tweets
  batch_get_tweets-shown a rows [] read own = (success [], refl, λ tid. refl)
  batch_get_tweets-shown a rows (n ∷ ns) read own =
      let tids = order ℕ (unique (n ∷ ns)) in
      let (resp, answered, shows) =
        complete-shown a rows (cached_tweets a.cache tids) (miss_tids a.cache tids) read
          (own_keys-cached_tweets a.cache tids own) in
      (
        resp,
        answered,
        λ tid.
            shows tid
            ∙ found-available a rows tids tid
            ∙ ap (λ b. b && available a rows tid)
                (same ℕ (λ m. m == tid) (unique (n ∷ ns)) ∙ has-unique tid (n ∷ ns)),
      )
