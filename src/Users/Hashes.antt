-- ===== src/Users/Hashes.antt =====
-- The hash of a user, which Login, GetUserInfo and BatchGetUserBrief of
-- app/usercenter/cmd/rpc/internal/logic write for GetUserInfo and BatchGetUserBrief to read.
use Prim.Native.String.{String}
use gozero_x.Common.{ℕ, Option, none, some, [], ◌∷◌}
use gozero_x.Common.Int.{ℤ}
use gozero_x.Cache.{Key, key, nat, shown, raw, Hash, get, nat_cell, int_cell, text_cell, Redis}
use gozero_x.Users.{User}

pub record UserInfo : Type 0 where
  pub uid : ℕ
  pub nickname : String
  pub avatar : String
  pub bio : String
  pub follow_count : ℤ
  pub fans_count : ℤ
  pub post_count : ℤ

-- `BuildUserInfo`
abbrev pub build_user_info : User → UserInfo
build_user_info u = record {
  uid = u.uid;
  nickname = u.nickname;
  avatar = u.avatar;
  bio = u.bio;
  follow_count = u.follow_count;
  fans_count = u.fans_count;
  post_count = u.post_count;
}

abbrev pub user_key : ℕ → Key
user_key = key "user" "info"

-- `userHash`
unfoldable pub user_hash : User → Hash
user_hash u =
    ("nickname", raw u.nickname)
    ∷ ("avatar", raw u.avatar)
    ∷ ("bio", raw u.bio)
    ∷ ("status", nat u.status)
    ∷ ("follow_count", shown u.follow_count)
    ∷ ("fans_count", shown u.fans_count)
    ∷ ("post_count", shown u.post_count)
    ∷ []

-- `cachedUser`: a hash that is there, and not empty.
abbrev pub hit : Option Hash → Option Hash
hit none = none
hit (some []) = none
hit (some (f ∷ h)) = some (f ∷ h)

-- The user that GetUserInfo builds from a hash.
unfoldable pub parse_user_info : ℕ → Hash → UserInfo
parse_user_info uid h = record {
  uid = uid;
  nickname = text_cell (get "nickname" h);
  avatar = text_cell (get "avatar" h);
  bio = text_cell (get "bio" h);
  follow_count = int_cell (get "follow_count" h);
  fans_count = int_cell (get "fans_count" h);
  post_count = int_cell (get "post_count" h);
}

-- The status in a hash, which is 0 if it is not there.
unfoldable pub parse_status : Hash → ℕ
parse_status h = nat_cell (get "status" h)

-- A command that succeeded, or the state as it was.
abbrev pub or_same : {A : Type 0} → A → Option A → A
or_same a none = a
or_same a (some b) = b

module _ (r : Redis) where
  -- `HSetAll` of a user; an error is logged only.
  unfoldable pub set_user : User → r.State → r.State
  set_user u s = or_same s (r.hmset (user_key u.uid) (user_hash u) s)
