-- ===== src/Paging.antt =====
-- The pages of comments and replies: app/interactService/cmd/rpc/internal/logic/getcommentslogic.go
-- and getreplieslogic.go.
pub mod Walk
pub mod Laws
pub mod Reading
pub mod Query
pub mod Slice
use Prim.Native.String.{String}
use gozero_x.Common.{
  ℕ, suc, Bool, true, false, ◌&&◌, ◌||◌, Option, none, some, List, [], ◌∷◌, map, ltb, leb, ◌==◌,
  if◌then◌else◌, length, take, drop, select,
}
use gozero_x.Common.Int.{ℤ, pos, negsuc, leb_ℤ, ltb_ℤ}
use gozero_x.Cache.Comments.{Comment}
use gozero_x.Cache.Replies.{Reply}
use gozero_x.Interact.Create.{CommentInfo}
use gozero_x.Interact.Reply.{ReplyInfo}

-- The limit of a page: 20 where the request has none that is allowed.
abbrev pub clamp_limit : ℤ → ℕ
clamp_limit (negsuc n) = 20
clamp_limit (pos n) = if n == 0 || ltb 50 n then 20 else n

module _ {A : Type 0} (starts : A → Bool) where
  -- `startIdx`, with none for -1
  unfoldable pub start_idx : List A → Option ℕ
  start_idx [] = none
  start_idx (x ∷ xs) =
      let rest = start_idx xs in
      if starts x then some 0 else elim rest [ none ↦ none | some i ↦ some (suc i) ]

  -- `valid[startIdx:end]`, of at most `limit` entries
  unfoldable pub slice_from : ℕ → List A → Option ℕ → List A
  slice_from limit xs none = []
  slice_from limit xs (some i) = take limit (drop i xs)

-- Cursor pages: the first page for the cursor 0, and else the page from the first entry on that is
-- beyond the cursor.
unfoldable pub cursor_page : {A : Type 0} → (ℤ → A → Bool) → ℕ → ℤ → List A → List A
cursor_page starts limit cursor xs =
    if leb_ℤ cursor (pos 0) && leb_ℤ (pos 0) cursor
    then take limit xs
    else slice_from (starts cursor) limit xs (start_idx (starts cursor) xs)

-- A comment is beyond the cursor if it is older, a reply if it is younger.
abbrev pub older : ℤ → Comment → Bool
older cursor c = ltb_ℤ (pos c.created_at) cursor

abbrev pub younger : ℤ → Reply → Bool
younger cursor r = ltb_ℤ cursor (pos r.created_at)

abbrev pub comment_shown : Comment → Bool
comment_shown c = c.status == 0

abbrev pub reply_shown : Reply → Bool
reply_shown r = r.status == 0

pub record UserBrief : Type 0 where
  pub uid : ℕ
  pub nickname : String
  pub avatar : String

-- `userBriefMap`: of two users with one id the later one stands.
unfoldable pub find_user : ℕ → List UserBrief → Option UserBrief
find_user uid [] = none
find_user uid (u ∷ us) = elim (find_user uid us) [
  | some later ↦ some later
  | none ↦ if u.uid == uid then some u else none
]

-- The name and the avatar that a page shows.
unfoldable pub user_brief : ℕ → List UserBrief → String × String
user_brief uid us = elim (find_user uid us) [ none ↦ ("用户", "") | some u ↦ (u.nickname, u.avatar) ]

-- What a handler is told: the rows it reads, in any order (`none` if the ids cannot be read), and the
-- users of the page (`[]` if the call fails or is not made).
pub record Answers (A : Type 0) : Type 0 where
  pub rows : Option (List A)
  pub users : List UserBrief

pub record GetCommentsReq : Type 0 where
  pub snow_tid : ℕ
  pub cursor : ℤ
  pub limit : ℤ
  pub sort : ℕ

pub record GetCommentsResp : Type 0 where
  pub code : ℕ
  pub msg : String
  pub comments : List CommentInfo
  pub total : ℕ

pub comment_info : List UserBrief → Comment → CommentInfo
comment_info us c =
    let (nickname, avatar) = user_brief c.uid us in
    record {
      snow_cid = c.snow_cid;
      snow_tid = c.snow_tid;
      uid = c.uid;
      content = c.content;
      like_count = c.like_count;
      reply_count = c.reply_count;
      create_time = c.created_at;
      nickname = nickname;
      avatar = avatar;
    }

-- `sortComments`; `slice` is `sort.Slice` of Go, which is told when an entry goes before another one.
-- Both cases of the switch compare in the same way.
unfoldable pub sort_comments :
    ((Comment → Comment → Bool) → List Comment → List Comment) → ℕ → List Comment → List Comment
sort_comments slice sort_type comments =
    if sort_type == 0 || sort_type == 1
    then slice (λ c d. ltb d.created_at c.created_at) comments
    else slice (λ c d. ltb d.created_at c.created_at) comments

-- `GetComments`
pub get_comments :
    ((Comment → Comment → Bool) → List Comment → List Comment)
    → Answers Comment
    → GetCommentsReq
    → GetCommentsResp
get_comments slice a req = elim a.rows [
  | none ↦ record { code = 0; msg = "success"; comments = []; total = 0 }
  | some rows ↦
      let valid = sort_comments slice req.sort (select comment_shown rows) in
      record {
        code = 0;
        msg = "success";
        comments =
            map (comment_info a.users) (cursor_page older (clamp_limit req.limit) req.cursor valid);
        total = length valid;
      }
]

pub record GetRepliesReq : Type 0 where
  pub root_cid : ℕ
  pub cursor : ℤ
  pub limit : ℤ

pub record GetRepliesResp : Type 0 where
  pub code : ℕ
  pub msg : String
  pub replies : List ReplyInfo
  pub total : ℕ

pub reply_info : List UserBrief → Reply → ReplyInfo
reply_info us r =
    let (nickname, avatar) = user_brief r.uid us in
    record {
      snow_cid = r.snow_cid;
      snow_tid = r.snow_tid;
      uid = r.uid;
      parent_id = r.parent_id;
      root_id = r.root_id;
      content = r.content;
      like_count = r.like_count;
      reply_count = r.reply_count;
      create_time = r.created_at;
      nickname = nickname;
      avatar = avatar;
    }

-- `GetReplies`, the oldest first
pub get_replies :
    ((Reply → Reply → Bool) → List Reply → List Reply)
    → Answers Reply
    → GetRepliesReq
    → GetRepliesResp
get_replies slice a req =
    if req.root_cid == 0
    then record { code = 120301; msg = "根评论ID不能为空"; replies = []; total = 0 }
    else elim a.rows [
      | none ↦ record { code = 0; msg = "success"; replies = []; total = 0 }
      | some rows ↦
          let valid = slice (λ r t. ltb r.created_at t.created_at) (select reply_shown rows) in
          record {
            code = 0;
            msg = "success";
            replies =
                map (reply_info a.users)
                  (cursor_page younger (clamp_limit req.limit) req.cursor valid);
            total = length valid;
          }
    ]
