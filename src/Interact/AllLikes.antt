-- ===== src/Interact/AllLikes.antt =====
-- All likes of a user: app/interactService/cmd/rpc/internal/logic/getuseralllikeslogic.go with
-- FindAllByUid of app/interactService/model, and what the consumers write into the tables of likes.
pub mod Told
use Prim.Native.String.{String}
use gozero_x.Common.{
  ℕ, Bool, false, not, ◌&&◌, Option, none, some, List, [], ◌∷◌, ◌++◌, map, select, ◌==◌,
  if◌then◌else◌,
}
use gozero_x.Common.Int.{ℤ, pos, negsuc}
use gozero_x.Interact.Effects.{
  TweetLike, CommentLike, Effect, insert_tweet_like, update_tweet_like, insert_comment_like,
  update_comment_like, upsert_like_sync,
}
use gozero_x.Paging.Query.{asc, beyond, order_by}

-- A row of likes_tweet and one of likes_comment, with the times that the database sets.
pub record LikesTweet : Type 0 where
  pub like : TweetLike
  pub created_at : ℕ
  pub updated_at : ℕ

pub record LikesComment : Type 0 where
  pub like : CommentLike
  pub created_at : ℕ
  pub updated_at : ℕ

pub record UserLikeSync : Type 0 where
  pub uid : ℕ
  pub last_like_time : ℕ

pub record LikeTables : Type 0 where
  pub tweet_likes : List LikesTweet
  pub comment_likes : List LikesComment
  pub sync : List UserLikeSync

-- `Update`: neither time is among its columns.
abbrev pub updated_tweet_like : TweetLike → LikesTweet → LikesTweet
updated_tweet_like l r =
    if r.like.snow_likes_id == l.snow_likes_id then record r { like = l } else r

abbrev pub updated_comment_like : CommentLike → LikesComment → LikesComment
updated_comment_like l r =
    if r.like.snow_likes_id == l.snow_likes_id then record r { like = l } else r

-- `Upsert` of the time of the last like.
unfoldable pub upsert_sync : ℕ → ℕ → List UserLikeSync → List UserLikeSync
upsert_sync uid time [] = record { uid = uid; last_like_time = time } ∷ []
upsert_sync uid time (r ∷ rs) =
    let rest = upsert_sync uid time rs in
    if r.uid == uid then record r { last_like_time = time } ∷ rs else r ∷ rest

-- What a statement of a consumer does, at a time of the database; other calls leave these tables
-- alone.
unfoldable pub apply : ℕ → Effect → LikeTables → LikeTables
apply now (insert_tweet_like l) t = record t {
  tweet_likes = t.tweet_likes ++ (record { like = l; created_at = now; updated_at = now } ∷ []);
}
apply now (update_tweet_like l) t = record t {
  tweet_likes = map (updated_tweet_like l) t.tweet_likes;
}
apply now (insert_comment_like l) t = record t {
  comment_likes = t.comment_likes ++ (record { like = l; created_at = now; updated_at = now } ∷ []);
}
apply now (update_comment_like l) t = record t {
  comment_likes = map (updated_comment_like l) t.comment_likes;
}
apply now (upsert_like_sync uid time) t = record t { sync = upsert_sync uid time t.sync }
apply now _ t = t

unfoldable pub apply_all : ℕ → List Effect → LikeTables → LikeTables
apply_all now [] t = t
apply_all now (e ∷ es) t = apply_all now es (apply now e t)

pub record GetUserAllLikesReq : Type 0 where
  pub uid : ℕ
  pub cursor : ℤ

pub record UserTweetLike : Type 0 where
  pub snow_tid : ℕ
  pub snow_likes_id : ℕ
  pub status : ℕ

pub record UserCommentLike : Type 0 where
  pub snow_tid : ℕ
  pub snow_cid : ℕ
  pub snow_likes_id : ℕ
  pub status : ℕ

pub record GetUserAllLikesResp : Type 0 where
  pub code : ℕ
  pub msg : String
  pub tweet_likes : List UserTweetLike
  pub comment_likes : List UserCommentLike

-- What the handler is told: what FindLastLikeTime says (`none` for an error), which goes through the
-- cache of go-zero, and whether the two queries succeed.
pub record Answers : Type 0 where
  pub last_like_time : Option ℕ
  pub tweets_ok : Bool
  pub comments_ok : Bool

-- `FindAllByUid` of the likes of tweets
unfoldable pub find_tweet_likes : ℕ → ℤ → List LikesTweet → List LikesTweet
find_tweet_likes uid cursor rows =
    order_by asc (λ r. r.updated_at)
      (select (λ r. r.like.uid == uid && beyond asc cursor r.updated_at) rows)

-- `FindAllByUid` of the likes of comments
unfoldable pub find_comment_likes : ℕ → ℤ → List LikesComment → List LikesComment
find_comment_likes uid cursor rows =
    order_by asc (λ r. r.updated_at)
      (select (λ r. r.like.uid == uid && beyond asc cursor r.updated_at) rows)

abbrev pub tweet_like_info : LikesTweet → UserTweetLike
tweet_like_info r = record {
  snow_tid = r.like.snow_tid;
  snow_likes_id = r.like.snow_likes_id;
  status = r.like.status;
}

abbrev pub comment_like_info : LikesComment → UserCommentLike
comment_like_info r = record {
  snow_tid = r.like.snow_tid;
  snow_cid = r.like.snow_cid;
  snow_likes_id = r.like.snow_likes_id;
  status = r.like.status;
}

-- `in.Cursor != 0 && in.Cursor == lastLikeTime`
abbrev pub is_current : ℤ → Option ℕ → Bool
is_current cursor none = false
is_current (negsuc n) (some time) = false
is_current (pos n) (some time) = not (n == 0) && n == time

abbrev pub likes_response : ℕ → String → GetUserAllLikesResp
likes_response code msg = record { code = code; msg = msg; tweet_likes = []; comment_likes = [] }

-- `GetUserAllLikes`
unfoldable pub get_user_all_likes : Answers → GetUserAllLikesReq → LikeTables → GetUserAllLikesResp
get_user_all_likes a req t =
    if is_current req.cursor a.last_like_time
    then likes_response 0 "success"
    else if not a.tweets_ok
    then likes_response 120601 "查询推文点赞记录失败"
    else if not a.comments_ok
    then likes_response 120602 "查询评论点赞记录失败"
    else record {
      code = 0;
      msg = "success";
      tweet_likes = map tweet_like_info (find_tweet_likes req.uid req.cursor t.tweet_likes);
      comment_likes = map comment_like_info (find_comment_likes req.uid req.cursor t.comment_likes);
    }
