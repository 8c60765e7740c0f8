-- ===== src/Tests/Sync.antt =====
-- Likes that a client is told, and is not told, at concrete inputs.
use gozero_x.Common.{◌≡◌, refl, true, false, none, some, [], ◌∷◌, All, arith}
use gozero_x.Common.Int.{pos}
use gozero_x.Interact.Likes.{LikeTweetReq, Answers as LikeAnswers}
use gozero_x.Interact.Likes.Sent.{requested}
use gozero_x.Json.{float64, Survives}
use gozero_x.Json.Exact.{float64-exact}
use gozero_x.Interact.AllLikes.{LikeTables, Answers, get_user_all_likes}
use gozero_x.Interact.AllLikes.Told.{
  told, consumed, get_user_all_likes-created, get_user_all_likes-changed,
}

abbrev answers : LikeAnswers
answers = record {
  new_id = some 144955146240028672;
  now = 2000;
  notice_now = 2001;
  event_now = 2002;
  author = none;
}

abbrev works : Answers
works = record { last_like_time = some 1000; tweets_ok = true; comments_ok = true }

-- User 6 likes tweet 5; the row of the like is from time 1000.
abbrev one_like : LikeTables
one_like = record {
  tweet_likes =
      record {
        like = record { snow_likes_id = 900; uid = 6; snow_tid = 5; status = 1 };
        created_at = 1000;
        updated_at = 1000;
      }
      ∷ [];
  comment_likes = [];
  sync = record { uid = 6; last_like_time = 999 } ∷ [];
}

abbrev another : LikeTweetReq
another = record { is_created = 0; snow_likes_id = 0; uid = 6; snow_tid = 7; status = 1 }

-- An id that GenID makes 400 days after its epoch: worker 7, sequence 0.
real_id : Survives 144955146240028672
unfolding float64
real_id = refl

get_user_all_likes-created_example :
    told 144955146240028672
      (get_user_all_likes works
        (record { uid = 6; cursor = pos 1500 })
        (consumed answers another 2003 one_like)).tweet_likes
    ≡ true
get_user_all_likes-created_example =
    get_user_all_likes-created answers another 144955146240028672 2003 one_like works 1500 refl refl
      (
        real_id,
        float64-exact 6 (omega arith),
        float64-exact 7 (omega arith),
        float64-exact 1 (omega arith),
      )
      (omega arith) refl refl refl

abbrev taken_back : LikeTweetReq
taken_back = record { is_created = 1; snow_likes_id = 900; uid = 6; snow_tid = 5; status = 0 }

get_user_all_likes-changed_example :
    All
      (λ r. r.like.snow_likes_id ≡ 900 → r.like ≡ requested taken_back 900)
      (consumed answers taken_back 2003 one_like).tweet_likes
    × (told 900
          (get_user_all_likes works
            (record { uid = 6; cursor = pos 1000 })
            (consumed answers taken_back 2003 one_like)).tweet_likes
        ≡ false)
get_user_all_likes-changed_example =
    get_user_all_likes-changed answers taken_back 2003 one_like works 1000 (omega arith)
      (
        float64-exact 900 (omega arith),
        float64-exact 6 (omega arith),
        float64-exact 5 (omega arith),
        float64-exact 0 (omega arith),
      )
      ((λ e. omega arith), _)
