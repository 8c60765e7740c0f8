-- ===== src/Tests/Likes.antt =====
-- The likes of tweets and comments at concrete inputs.
use gozero_x.Common.{◌≡◌, refl, inr, some, arith}
use gozero_x.Common.Int.{pos, negsuc}
use gozero_x.Json.Exact.{float64-exact}
use gozero_x.Interact.Likes.{LikeTweetReq, Answers, like_tweet}
use gozero_x.Interact.Likes.Laws.{
  cache_likes, table_likes, like_tweet-counts, like_tweet_first_cancel,
}
use gozero_x.Interact.CommentLikes.{LikeCommentReq, Answers as CommentAnswers, like_comment}
use gozero_x.Interact.CommentLikes.Laws.{
  cache_likes as cache_comment_likes, table_likes as table_comment_likes, like_comment-counts,
}

abbrev told : Answers
told = record {
  new_id = some 900;
  now = 1000;
  notice_now = 1001;
  event_now = 1002;
  author = some 4;
}

abbrev first_like : LikeTweetReq
first_like = record { is_created = 0; snow_likes_id = 0; uid = 3; snow_tid = 5; status = 1 }

abbrev first_cancel : LikeTweetReq
first_cancel = record { is_created = 0; snow_likes_id = 0; uid = 3; snow_tid = 5; status = 0 }

like_tweet-counts_example :
    cache_likes first_like (like_tweet told first_like).1
    ≡ table_likes first_like (like_tweet told first_like).1
like_tweet-counts_example =
    like_tweet-counts told first_like (float64-exact 5 (omega arith)) (omega arith)
      (float64-exact 1 (omega arith)) (inr (omega arith))

like_tweet_first_cancel_example :
    (cache_likes first_cancel (like_tweet told first_cancel).1 ≡ negsuc 0)
    × (table_likes first_cancel (like_tweet told first_cancel).1 ≡ pos 1)
like_tweet_first_cancel_example =
    like_tweet_first_cancel told first_cancel 900 refl refl refl (float64-exact 5 (omega arith))
      (omega arith)

abbrev comment_told : CommentAnswers
comment_told = record {
  new_id = some 900;
  now = 1000;
  notice_now = 1001;
  event_now = 1002;
  comment_author = some 4;
  reply_author = some (6, 11);
}

abbrev reply_like : LikeCommentReq
reply_like = record {
  is_created = 0;
  snow_likes_id = 0;
  uid = 3;
  snow_cid = 12;
  snow_tid = 5;
  status = 1;
  is_reply = 1;
}

like_comment-counts_example :
    cache_comment_likes reply_like (like_comment comment_told reply_like).1
    ≡ table_comment_likes reply_like (like_comment comment_told reply_like).1
like_comment-counts_example =
    like_comment-counts comment_told reply_like (float64-exact 12 (omega arith)) (omega arith)
      (float64-exact 1 (omega arith)) (float64-exact 1 (omega arith)) (inr (omega arith))
