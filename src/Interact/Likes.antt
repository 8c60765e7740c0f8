-- ===== src/Interact/Likes.antt =====
-- Likes of tweets: app/interactService/cmd/rpc/internal/logic/liketweetlogic.go and the consumer
-- app/interactService/cmd/mq/internal/consumer/liketweetconsumer.go.
pub mod Laws
pub mod Sent
use Prim.Native.String.{String}
use text.Mathlib.Text.{◌==◌ as str_eq}
use gozero_x.Common.{
  ℕ, Bool, true, false, ◌||◌, Option, none, some, List, [], ◌∷◌, ◌++◌, ◌==◌, if◌then◌else◌,
}
use gozero_x.Common.Int.{ℤ, pos, negsuc}
use gozero_x.Json.{Message, int, str, field, to_int64, to_string}
use gozero_x.Cache.{key, nat, raw}
use gozero_x.Interact.Effects.{
  Effect, push, cache_incr, update_tweet_stats, insert_tweet_like, update_tweet_like,
  upsert_like_sync, TweetLike, Consumed, done, failed, like_delta,
}

pub record LikeTweetReq : Type 0 where
  pub is_created : ℕ
  pub snow_likes_id : ℕ
  pub uid : ℕ
  pub snow_tid : ℕ
  pub status : ℕ

pub record LikeTweetInfo : Type 0 where
  pub snow_likes_id : ℕ
  pub uid : ℕ
  pub snow_tid : ℕ
  pub status : ℕ
  pub update_time : ℕ

pub record LikeTweetResp : Type 0 where
  pub code : ℕ
  pub msg : String
  pub like : Option LikeTweetInfo

-- What the handler is told: the id that GenID makes, three readings of the clock, and the author of
-- the tweet as GetTweetAuthorUid finds it. `none` is an error.
pub record Answers : Type 0 where
  pub new_id : Option ℕ
  pub now : ℕ
  pub notice_now : ℕ
  pub event_now : ℕ
  pub author : Option ℕ

-- `sendLikeTweetMessage`
abbrev pub like_message : String → ℕ → LikeTweetReq → ℕ → Message
like_message action likes_id req now =
    ("action", str action)
    ∷ ("snow_likes_id", int likes_id)
    ∷ ("uid", int req.uid)
    ∷ ("snow_tid", int req.snow_tid)
    ∷ ("status", int req.status)
    ∷ ("created_at", int now)
    ∷ ("updated_at", int now)
    ∷ []

send_like_tweet_message : ℕ → LikeTweetReq → ℕ → Effect
send_like_tweet_message likes_id req now = push "like_tweet" (nat likes_id ∷ []) (
    like_message (if req.is_created == 0 then "create_like_tweet" else "update_like_tweet") likes_id
      req now)

update_tweet_like_count : ℕ → ℤ → Effect
update_tweet_like_count snow_tid delta = cache_incr (key "tweet" "info" snow_tid) "like_count" delta

abbrev pub like_action : ℕ → String
like_action status = if status == 0 then "cancel_like_tweet" else "like_tweet"

-- `sendLikeTweetNotification`
abbrev pub like_notice : LikeTweetReq → ℕ → ℕ → Message
like_notice req recipient_uid now =
    ("action", str (like_action req.status))
    ∷ ("target_type", int 0)
    ∷ ("target_id", int req.snow_tid)
    ∷ ("snow_tid", int req.snow_tid)
    ∷ ("root_id", int 0)
    ∷ ("liker_uid", int req.uid)
    ∷ ("recipient_uid", int recipient_uid)
    ∷ ("timestamp", int now)
    ∷ []

pub send_like_tweet_notification : Answers → LikeTweetReq → List Effect
send_like_tweet_notification a req = elim a.author [
  | none ↦ []
  | some recipient_uid ↦
      if recipient_uid == req.uid
      then []
      else push "notice" (raw "like_tweet_" ∷ nat recipient_uid ∷ raw "_" ∷ nat req.snow_tid ∷ [])
          (like_notice req recipient_uid a.notice_now)
        ∷ []
]

-- `sendRecommendInteraction`
pub send_recommend_interaction : Answers → LikeTweetReq → Effect
send_recommend_interaction a req =
    push "recommend_interaction" (nat req.uid ∷ raw "_" ∷ nat req.snow_tid ∷ []) (
      ("action", str (like_action req.status))
      ∷ ("uid", int req.uid)
      ∷ ("snow_tid", int req.snow_tid)
      ∷ ("snow_cid", int 0)
      ∷ ("content", str "")
      ∷ ("timestamp", int a.event_now)
      ∷ [])

-- The handler once the id of the like is known.
pub liked : Answers → LikeTweetReq → ℕ → LikeTweetResp × List Effect
unfolding send_like_tweet_message update_tweet_like_count send_like_tweet_notification
    send_recommend_interaction
liked a req likes_id = (
  record {
    code = 0;
    msg = "success";
    like = some (record {
      snow_likes_id = likes_id;
      uid = req.uid;
      snow_tid = req.snow_tid;
      status = req.status;
      update_time = a.now;
    });
  },
  send_like_tweet_message likes_id req a.now
      ∷ update_tweet_like_count req.snow_tid (like_delta req.status)
      ∷ (send_like_tweet_notification a req ++ (send_recommend_interaction a req ∷ [])),
)

-- `LikeTweet`
pub like_tweet : Answers → LikeTweetReq → LikeTweetResp × List Effect
like_tweet a req =
    if req.is_created == 0
    then elim a.new_id [
      | none ↦ (record { code = 120401; msg = "生成点赞ID失败"; like = none }, [])
      | some likes_id ↦ liked a req likes_id
    ]
    else liked a req req.snow_likes_id

-- The row that the consumer builds from a message.
row : Message → TweetLike
row m = record {
  snow_likes_id = to_int64 (field "snow_likes_id" m);
  uid = to_int64 (field "uid" m);
  snow_tid = to_int64 (field "snow_tid" m);
  status = to_int64 (field "status" m);
}

-- `updateTweetLikeCount` of the consumer
unfoldable pub count_tweet_like : ℕ → ℤ → List Effect
count_tweet_like snow_tid delta =
    if snow_tid == 0 then [] else update_tweet_stats snow_tid 1 delta ∷ []

-- `updateUserLikeSync`
unfoldable pub update_user_like_sync : Message → List Effect
update_user_like_sync m =
    let uid = to_int64 (field "uid" m) in
    let updated_at = to_int64 (field "updated_at" m) in
    if uid == 0 || updated_at == 0 then [] else upsert_like_sync uid updated_at ∷ []

-- `handleCreate`. The flag says whether the table takes the row.
handle_create : Bool → Message → Consumed × List Effect
unfolding row count_tweet_like update_user_like_sync
handle_create false m = (failed, [])
handle_create true m = (
  done,
  insert_tweet_like (row m)
      ∷ (count_tweet_like (to_int64 (field "snow_tid" m)) (pos 1) ++ update_user_like_sync m),
)

-- `handleUpdate`
handle_update : Bool → Message → Consumed × List Effect
unfolding row count_tweet_like update_user_like_sync
handle_update false m = (failed, [])
handle_update true m = (
  done,
  update_tweet_like (row m)
      ∷ (count_tweet_like (to_int64 (field "snow_tid" m)) (like_delta (to_int64 (field "status" m)))
          ++ update_user_like_sync m),
)

-- `LikeTweetConsumer.Consume`, on a body that json.Unmarshal reads (`none` if it does not).
pub consume_like_tweet : Bool → Option Message → Consumed × List Effect
unfolding handle_create handle_update
consume_like_tweet row_ok none = (failed, [])
consume_like_tweet row_ok (some m) =
    let action = to_string (field "action" m) in
    if str_eq action "create_like_tweet"
    then handle_create row_ok m
    else if str_eq action "update_like_tweet"
    then handle_update row_ok m
    else (failed, [])
