-- ===== src/Users/Info.antt =====
-- What others learn of a user, and the counts: getuserinfologic.go and updateuserstatslogic.go of
-- app/usercenter/cmd/rpc/internal/logic.
use Prim.Native.String.{String}
use gozero_x.Common.{ℕ, Bool, true, false, ◌||◌, ◌&&◌, Option, none, some, map, ◌==◌, if◌then◌else◌}
use gozero_x.Common.Int.{ℤ}
use gozero_x.Cache.{Hash, Redis}
use gozero_x.Users.{User, Lookup, failed, missing, found, find_uid, with_stats}
use gozero_x.Users.Rows.{CachedConn, Store, find_one}
use gozero_x.Users.Hashes.{
  UserInfo, build_user_info, user_key, hit, parse_user_info, parse_status, set_user,
}

pub record GetUserInfoResp : Type 0 where
  pub code : ℕ
  pub msg : String
  pub user_info : Option UserInfo

abbrev pub refuse : String → GetUserInfoResp
refuse msg = record { code = 1; msg = msg; user_info = none }

abbrev pub success : UserInfo → GetUserInfoResp
success info = record { code = 0; msg = "success"; user_info = some info }

pub record UpdateUserStatsReq : Type 0 where
  pub uid : ℕ
  pub update_type : ℕ
  pub delta : ℤ

pub record UpdateUserStatsResp : Type 0 where
  pub code : ℕ
  pub msg : String

abbrev is_there : Option User → Bool
is_there none = false
is_there (some u) = true

-- `GetUserInfo` on a hash.
unfoldable pub info_of_hash : ℕ → Hash → GetUserInfoResp
info_of_hash uid h =
    if parse_status h == 0 then refuse "用户已被禁用" else success (parse_user_info uid h)

module _ (c : CachedConn) (r : Redis) where
  -- `GetUserInfo` after `FindOne`, with the goroutine that writes the hash.
  unfoldable pub info_found : Lookup → Store c r → GetUserInfoResp × Store c r
  info_found missing s = (refuse "用户不存在", s)
  info_found failed s = (refuse "数据库查询失败", s)
  info_found (found u) s =
      if u.status == 0
      then (refuse "用户已被禁用", s)
      else (success (build_user_info u), record s { hashes = set_user r u s.hashes })

  unfoldable pub info_with : Bool → ℕ → Option Hash → Store c r → GetUserInfoResp × Store c r
  info_with query_ok uid (some h) s = (info_of_hash uid h, s)
  info_with query_ok uid none s =
      let (user, after) = find_one c r query_ok uid s in info_found user after

  -- `GetUserInfo`
  unfoldable pub get_user_info : Bool → ℕ → Store c r → GetUserInfoResp × Store c r
  get_user_info query_ok uid s = info_with query_ok uid (hit (r.hgetall (user_key uid) s.hashes)) s

  -- `UpdateUserStats` with `UpdateStatsWithValues`: RETURNING gives no row where no user has the uid.
  unfoldable pub update_user_stats :
      Bool → ℕ → UpdateUserStatsReq → Store c r → UpdateUserStatsResp × Store c r
  update_user_stats exec_ok now req s =
      if (req.update_type == 1 || req.update_type == 2 || req.update_type == 3) && exec_ok
      then (
        (if is_there (find_uid req.uid s.table)
            then record { code = 0; msg = "success" }
            else record { code = 500; msg = "更新统计失败" }),
        record s { table = map (with_stats req.uid req.update_type req.delta now) s.table },
      )
      else (record { code = 500; msg = "更新统计失败" }, s)
