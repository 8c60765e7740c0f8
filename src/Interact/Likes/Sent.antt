-- ===== src/Interact/Likes/Sent.antt =====
-- What the consumer does with the message of a like.
use Prim.Native.String.{String}
use gozero_x.Common.{ℕ, ◌≡◌, refl, true, false, some, List, [], ◌∷◌, ◌++◌, ◌==◌}
use gozero_x.Common.Int.{ℤ, pos}
use gozero_x.Json.{Message, Survives, deliver, field, to_int64, to_string}
use gozero_x.Interact.Effects.{
  TweetLike, Effect, pushed, insert_tweet_like, update_tweet_like, like_delta,
}
use gozero_x.Interact.Likes.{
  LikeTweetReq, Answers, like_message, liked, like_tweet, consume_like_tweet, handle_create,
  handle_update, row, count_tweet_like, update_user_like_sync,
}
use gozero_x.Interact.Likes.Laws.{consume_all, after_like-pushed, like_tweet-new, like_tweet-old}

-- The row of a like as it was asked for.
abbrev pub requested : LikeTweetReq → ℕ → TweetLike
requested req likes_id = record {
  snow_likes_id = likes_id;
  uid = req.uid;
  snow_tid = req.snow_tid;
  status = req.status;
}

-- The message carries the numbers of the like unchanged, as it does those below 2^53 and the ids with
-- sequence 0.
abbrev pub Carried : LikeTweetReq → ℕ → Type 0
Carried req likes_id =
    Survives likes_id × Survives req.uid × Survives req.snow_tid × Survives req.status

row-requested :
    (action : String) (req : LikeTweetReq) (likes_id now : ℕ)
    → Carried req likes_id
    → row (like_message action likes_id req now) ≡ requested req likes_id
unfolding row field to_int64 deliver
row-requested action req likes_id now (a, b, c, d) = rw (a, b, c, d) refl

-- What follows the statement for the row: the count of the tweet and the time of the last like.
abbrev pub after_row : Message → ℤ → List Effect
after_row m delta =
    (count_tweet_like (to_int64 (field "snow_tid" m)) delta ++ update_user_like_sync m) ++ []

module _ (a : Answers) (req : LikeTweetReq) where
  pub consume_all-new :
      (likes_id : ℕ)
      → (req.is_created == 0) ≡ true
      → a.new_id ≡ some likes_id
      → Carried req likes_id
      → consume_all (pushed "like_tweet" (like_tweet a req).1)
        ≡ insert_tweet_like (requested req likes_id)
          ∷ after_row (like_message "create_like_tweet" likes_id req a.now) (pos 1)
  unfolding liked consume_all consume_like_tweet handle_create to_string field deliver
  consume_all-new likes_id new id carried =
      rw
        (
          like_tweet-new a req likes_id new id,
          new,
          after_like-pushed a req,
          row-requested "create_like_tweet" req likes_id a.now carried,
        )
        refl

  pub consume_all-old :
      (req.is_created == 0) ≡ false
      → Carried req req.snow_likes_id
      → consume_all (pushed "like_tweet" (like_tweet a req).1)
        ≡ update_tweet_like (requested req req.snow_likes_id)
          ∷ after_row (like_message "update_like_tweet" req.snow_likes_id req a.now) (
              like_delta (
                to_int64
                  (field "status" (like_message "update_like_tweet" req.snow_likes_id req a.now))))
  unfolding liked consume_all consume_like_tweet handle_update to_string field deliver
  consume_all-old old carried =
      rw
        (
          like_tweet-old a req old,
          old,
          after_like-pushed a req,
          row-requested "update_like_tweet" req req.snow_likes_id a.now carried,
        )
        refl
