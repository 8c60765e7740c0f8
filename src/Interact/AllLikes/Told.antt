-- ===== src/Interact/AllLikes/Told.antt =====
-- Which likes GetUserAllLikes tells a client after a message of LikeTweet has been consumed.
use gozero_x.Common.{
  ℕ, ◌<◌, ◌≤◌, ◌≡◌, ◌≢◌, refl, ap, ◌∙◌, true, false, Bool, ◌&&◌, some, List, [], ◌∷◌, ◌++◌, map,
  arith, ◌==◌, select, All,
}
use gozero_x.Common.Int.{ℤ, pos}
use gozero_x.Json.{Message}
use gozero_x.Content.Batch.{any}
use gozero_x.Interact.Effects.{TweetLike, pushed, insert_tweet_like, update_tweet_like}
use gozero_x.Interact.Likes.{
  LikeTweetReq, Answers as LikeAnswers, like_tweet, count_tweet_like, update_user_like_sync,
}
use gozero_x.Interact.Likes.Sent.{requested, Carried, after_row, consume_all-new, consume_all-old}
use gozero_x.Paging.Query.Any.{any-map, any-select, any-order_by}
use gozero_x.Interact.Likes.Laws.{consume_all}
use gozero_x.Interact.AllLikes.{
  LikesTweet, LikeTables, updated_tweet_like, apply, apply_all, GetUserAllLikesReq, UserTweetLike,
  Answers, find_tweet_likes, tweet_like_info, get_user_all_likes, is_current,
}
use gozero_x.Paging.Query.{asc, beyond}

-- Whether a like is among those that a client is told.
abbrev pub told : ℕ → List UserTweetLike → Bool
told likes_id = any (λ l. l.snow_likes_id == likes_id)

-- The tables after the consumer has taken what LikeTweet sent.
abbrev pub consumed : LikeAnswers → LikeTweetReq → ℕ → LikeTables → LikeTables
consumed a req now t = apply_all now (consume_all (pushed "like_tweet" (like_tweet a req).1)) t

abbrev request : ℕ → ℕ → GetUserAllLikesReq
request uid n = record { uid = uid; cursor = pos n }

-- The count of the tweet and the time of the last like leave the rows of likes alone.
after_row-likes :
    (m : Message) (delta : ℤ) (now : ℕ) (t : LikeTables)
    → (apply_all now (after_row m delta) t).tweet_likes ≡ t.tweet_likes
unfolding count_tweet_like update_user_like_sync apply_all apply
after_row-likes m delta now t = ground arith

-- Whether a row is a like that a query from a cursor on finds.
abbrev after : ℕ → ℕ → ℕ → LikesTweet → Bool
after uid n likes_id r =
    (r.like.uid == uid && beyond asc (pos n) r.updated_at) && r.like.snow_likes_id == likes_id

found-any :
    (uid n likes_id : ℕ) (rows : List LikesTweet)
    → told likes_id (map tweet_like_info (find_tweet_likes uid (pos n) rows))
      ≡ any (after uid n likes_id) rows
unfolding find_tweet_likes
found-any uid n likes_id rows =
    any-map (λ l. l.snow_likes_id == likes_id) tweet_like_info (find_tweet_likes uid (pos n) rows)
    ∙ any-order_by asc (λ r. r.updated_at) (λ r. r.like.snow_likes_id == likes_id)
        (select (λ r. r.like.uid == uid && beyond asc (pos n) r.updated_at) rows)
    ∙ any-select (λ r. r.like.snow_likes_id == likes_id)
        (λ r. r.like.uid == uid && beyond asc (pos n) r.updated_at) rows

-- What no query finds no client is told.
told-none :
    (b : Answers) (uid n likes_id : ℕ) (t : LikeTables)
    → any (after uid n likes_id) t.tweet_likes ≡ false
    → told likes_id (get_user_all_likes b (request uid n) t).tweet_likes ≡ false
unfolding get_user_all_likes
told-none b uid n likes_id t h = ground (arith, found-any uid n likes_id t.tweet_likes ∙ h)

told-some :
    (b : Answers) (uid n likes_id : ℕ) (t : LikeTables)
    → is_current (pos n) b.last_like_time ≡ false
    → b.tweets_ok ≡ true
    → b.comments_ok ≡ true
    → any (after uid n likes_id) t.tweet_likes ≡ true
    → told likes_id (get_user_all_likes b (request uid n) t).tweet_likes ≡ true
unfolding get_user_all_likes
told-some b uid n likes_id t behind tweets_ok comments_ok h =
    rw (behind, tweets_ok, comments_ok) (found-any uid n likes_id t.tweet_likes ∙ h)

any-append-last :
    {A : Type 0} (p : A → Bool) (xs : List A) (x : A) → p x ≡ true → any p (xs ++ (x ∷ [])) ≡ true
any-append-last p [] x h = ground (arith, h)
any-append-last p (y ∷ ys) x h = ground (arith, any-append-last p ys x h)

-- The rows of likes after a first like has been consumed.
consumed-new :
    (a : LikeAnswers) (req : LikeTweetReq) (likes_id now : ℕ) (t : LikeTables)
    → (req.is_created == 0) ≡ true
    → a.new_id ≡ some likes_id
    → Carried req likes_id
    → (consumed a req now t).tweet_likes
      ≡ t.tweet_likes
        ++ (record { like = requested req likes_id; created_at = now; updated_at = now } ∷ [])
unfolding apply_all apply
consumed-new a req likes_id now t new id carried =
    ap (λ es. (apply_all now es t).tweet_likes) (consume_all-new a req likes_id new id carried)
    ∙ after_row-likes _ (pos 1) now (apply now (insert_tweet_like (requested req likes_id)) t)

-- And after a like has been changed.
consumed-old :
    (a : LikeAnswers) (req : LikeTweetReq) (now : ℕ) (t : LikeTables)
    → (req.is_created == 0) ≡ false
    → Carried req req.snow_likes_id
    → (consumed a req now t).tweet_likes
      ≡ map (updated_tweet_like (requested req req.snow_likes_id)) t.tweet_likes
unfolding apply_all apply
consumed-old a req now t old carried =
    ap (λ es. (apply_all now es t).tweet_likes) (consume_all-old a req old carried)
    ∙ after_row-likes _ _ now (apply now (update_tweet_like (requested req req.snow_likes_id)) t)

-- A new like, of which the message carries every number unchanged, is told by GetUserAllLikes once the
-- message is consumed, with queries that succeed, to a client whose cursor is before the time at
-- which the database takes the row, and is not what the service takes for the last like time.
pub get_user_all_likes-created :
    (a : LikeAnswers) (req : LikeTweetReq) (likes_id now : ℕ) (t : LikeTables) (b : Answers) (n : ℕ)
    → req.is_created ≡ 0
    → a.new_id ≡ some likes_id
    → Carried req likes_id
    → n < now
    → is_current (pos n) b.last_like_time ≡ false
    → b.tweets_ok ≡ true
    → b.comments_ok ≡ true
    → told likes_id
        (get_user_all_likes b
          (record { uid = req.uid; cursor = pos n })
          (consumed a req now t)).tweet_likes
      ≡ true
get_user_all_likes-created a req likes_id now t b n new id carried later behind tweets_ok
      comments_ok =
    told-some b req.uid n likes_id (consumed a req now t) behind tweets_ok comments_ok (
      ap (any (after req.uid n likes_id))
        (consumed-new a req likes_id now t (ground arith) id carried)
      ∙ any-append-last (after req.uid n likes_id) t.tweet_likes _ (ground arith))

-- A row keeps its time when its status is changed.
any-updated :
    (uid n : ℕ) (l : TweetLike) (rows : List LikesTweet)
    → All (λ r. r.like.snow_likes_id ≡ l.snow_likes_id → r.updated_at ≤ n) rows
    → any (after uid n l.snow_likes_id) (map (updated_tweet_like l) rows) ≡ false
any-updated uid n l [] h = refl
any-updated uid n l (r ∷ rs) h = ground (arith, h.0, any-updated uid n l rs h.1)

updated-same :
    (l : TweetLike) (r : LikesTweet)
    → (updated_tweet_like l r).like.snow_likes_id ≡ l.snow_likes_id
    → (updated_tweet_like l r).like ≡ l
updated-same l r e = ground (arith, e)

updated-All :
    (l : TweetLike) (rows : List LikesTweet)
    → All
        (λ r. r.like.snow_likes_id ≡ l.snow_likes_id → r.like ≡ l)
        (map (updated_tweet_like l) rows)
updated-All l [] = _
updated-All l (r ∷ rs) = ((λ e. updated-same l r e), updated-All l rs)

-- A like that is changed, as one that is taken back, and of which the message carries every number
-- unchanged, gets its new status in the table once the message is consumed, but a client whose cursor
-- is not before the time of the row is not told of it, whatever the service takes for the last like
-- time: an update leaves updated_at as it was.
pub get_user_all_likes-changed :
    (a : LikeAnswers) (req : LikeTweetReq) (now : ℕ) (t : LikeTables) (b : Answers) (n : ℕ)
    → req.is_created ≢ 0
    → Carried req req.snow_likes_id
    → All (λ r. r.like.snow_likes_id ≡ req.snow_likes_id → r.updated_at ≤ n) t.tweet_likes
    → All
        (λ r. r.like.snow_likes_id ≡ req.snow_likes_id → r.like ≡ requested req req.snow_likes_id)
        (consumed a req now t).tweet_likes
      × (told req.snow_likes_id
            (get_user_all_likes b
              (record { uid = req.uid; cursor = pos n })
              (consumed a req now t)).tweet_likes
          ≡ false)
get_user_all_likes-changed a req now t b n old carried seen =
    let rows = consumed-old a req now t (ground arith) carried in
    (
      rw rows (updated-All (requested req req.snow_likes_id) t.tweet_likes),
      told-none b req.uid n req.snow_likes_id (consumed a req now t) (
          ap (any (after req.uid n req.snow_likes_id)) rows
          ∙ any-updated req.uid n (requested req req.snow_likes_id) t.tweet_likes seen),
    )
