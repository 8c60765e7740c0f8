-- ===== src/Users/Accounts.antt =====
-- Accounts: registerlogic.go and loginlogic.go of app/usercenter/cmd/rpc/internal/logic, and
-- GenerateJwtToken of its servicecontext.go as an answer.
use Prim.Native.String.{String, ◌++◌}
use gozero_x.Common.{ℕ, Bool, false, not, Option, none, some, List, map, ◌==◌, if◌then◌else◌}
use gozero_x.Common.Int.{pos}
use gozero_x.Cache.{Redis}
use gozero_x.Users.{User, Lookup, failed, missing, found, insert_user, with_login}
use gozero_x.Users.Rows.{CachedConn, Store, find_one_by_mobile}
use gozero_x.Users.Hashes.{UserInfo, build_user_info, set_user}

pub record JwtToken : Type 0 where
  pub access_token : String
  pub access_expire : ℕ

-- RegisterReq and LoginReq have the same fields, and so have RegisterResp and LoginResp.
pub record AccountReq : Type 0 where
  pub mobile : String
  pub password : String

pub record AccountResp : Type 0 where
  pub code : ℕ
  pub msg : String
  pub user_info : Option UserInfo
  pub token : Option JwtToken

-- What a handler is told: whether the queries succeed, what `GenerateFromPassword` makes of the
-- password, the clock readings of the service and of the database, the uid that the table gives to a new row, whether the statement and
-- the query for that uid succeed, and the token that
-- GenerateJwtToken makes.
pub record Answers : Type 0 where
  pub query_ok : Bool
  pub hashed : Option String
  pub now : ℕ
  pub db_now : ℕ
  pub new_uid : ℕ
  pub exec_ok : Bool
  pub uid_ok : Bool
  pub token : Option JwtToken

abbrev pub refuse : String → AccountResp
refuse msg = record { code = 1; msg = msg; user_info = none; token = none }

-- The row of a new user; the table gives its uid, and its created_at and updated_at, which are not
-- among the columns of `Insert` and not in the response.
abbrev pub new_user : Answers → AccountReq → String → User
new_user a req hashed = record {
  uid = a.new_uid;
  mobile = req.mobile;
  password = hashed;
  nickname = "用户" ++ req.mobile;
  avatar = "";
  bio = "";
  follow_count = pos 0;
  fans_count = pos 0;
  post_count = pos 0;
  status = 1;
  last_login_at = a.now;
  created_at = a.db_now;
  updated_at = a.db_now;
}

-- The last steps of both handlers: a token, or an error.
abbrev pub with_token : Option JwtToken → User → AccountResp
with_token none u = refuse "生成token失败"
with_token (some t) u = record {
  code = 0;
  msg = "success";
  user_info = some (build_user_info u);
  token = some t;
}

module _ (c : CachedConn) (r : Redis) where
  -- `Insert`: the row, then the entries of the mobile and of uid 0, then a query for the uid.
  unfoldable pub insert_into : Answers → User → Option (List User) → Store c r → Bool × Store c r
  insert_into a u none s = (false, s)
  insert_into a u (some table) s =
      if not a.exec_ok
      then (false, s)
      else (a.uid_ok, record s { table = table; rows = c.drop u.mobile 0 s.rows })

  unfoldable pub insert : Answers → User → Store c r → Bool × Store c r
  insert a u s = insert_into a u (insert_user u s.table) s

  -- `Register` once the password is hashed, or not.
  unfoldable pub register_hashed :
      Answers → AccountReq → Option String → Store c r → AccountResp × Store c r
  register_hashed a req none s = (refuse "密码加密失败", s)
  register_hashed a req (some hashed) s =
      let user = new_user a req hashed in
      let (inserted, after) = insert a user s in
      ((if inserted then with_token a.token user else refuse "创建用户失败"), after)

  -- `Register` after its lookup.
  unfoldable pub register_found :
      Answers → AccountReq → Lookup → Store c r → AccountResp × Store c r
  register_found a req (found u) s = (refuse "手机号已注册", s)
  register_found a req failed s = (refuse "数据库查询失败", s)
  register_found a req missing s = register_hashed a req a.hashed s

  -- `Register`
  unfoldable pub register : Answers → AccountReq → Store c r → AccountResp × Store c r
  register a req s =
      let (user, after) = find_one_by_mobile c r a.query_ok req.mobile s in
      register_found a req user after

  -- The goroutine of `Login`, and `setUserCache`.
  unfoldable pub logged_in : Answers → User → Store c r → Store c r
  logged_in a u s = record s {
    table = if a.exec_ok then map (with_login u.uid a.now) s.table else s.table;
    hashes = set_user r u s.hashes;
  }

  -- `check` is `CompareHashAndPassword`.
  module _ (check : String → String → Bool) where
    -- `Login` after its lookup.
    unfoldable pub login_found : Answers → AccountReq → Lookup → Store c r → AccountResp × Store c r
    login_found a req missing s = (refuse "手机号未注册", s)
    login_found a req failed s = (refuse "数据库查询失败", s)
    login_found a req (found u) s =
        if not (check u.password req.password)
        then (refuse "密码错误", s)
        else if u.status == 0
        then (refuse "账号已被禁用", s)
        else (with_token a.token u, logged_in a u s)

    -- `Login`
    unfoldable pub login : Answers → AccountReq → Store c r → AccountResp × Store c r
    login a req s =
        let (user, after) = find_one_by_mobile c r a.query_ok req.mobile s in
        login_found a req user after
