-- ===== src/Users/Refines.antt =====
-- The accounts of app/usercenter as a directory, and the handlers over the table, the entries of
-- go-zero and the hashes as its implementation.
pub mod Found
pub mod Steps
use Prim.Native.String.{String}
use text.Mathlib.Text.{◌==◌ as str_eq}
use gozero_x.Common.{
  ℕ, Bool, true, false, not, ◌||◌, ◌&&◌, ◌≡◌, ◌⊎◌, Option, none, some, List, [], ◌∷◌, ◌==◌,
  if◌then◌else◌,
}
use gozero_x.Cache.{Redis}
use gozero_x.Users.{find_uid}
use gozero_x.Users.Rows.{CachedConn, Store}
use gozero_x.Users.Hashes.{UserInfo}
use gozero_x.Users.Accounts.{Answers, AccountReq, AccountResp, register, login}
use gozero_x.Users.Info.{UpdateUserStatsReq, get_user_info, update_user_stats}
use gozero_x.Users.Coherent.{Account}

-- The specification: who has a mobile.
abbrev pub Directory : Type 0
Directory = String → Option Account

-- A login says whether the database and the token can be had; a registration brings what bcrypt
-- makes of its password.
pub data Action : Type 0 where
  to_login : String → String → Bool → Action
  to_register : String → Option String → Action
  other : Action

pub data Outcome : Type 0 where
  granted : ℕ → Outcome
  refused : String → Outcome
  unavailable : Outcome
  silent : Outcome

abbrev pub Same : Directory → Directory → Type 0
Same d d' = (m : String) → d' m ≡ d m

-- What a login with these credentials is to answer. `check` compares a hash and a password.
abbrev pub login_outcome : (String → String → Bool) → Option Account → String → Outcome
login_outcome check none password = refused "手机号未注册"
login_outcome check (some a) password =
    if not (check a.password password)
    then refused "密码错误"
    else if a.status == 0
    then refused "账号已被禁用"
    else granted a.uid

-- A new account of a mobile, and no other change.
abbrev pub Adds : String → Account → Directory → Directory → Type 0
Adds mobile a d d' = (m : String) → d' m ≡ (if str_eq mobile m then some a else d m)

-- A registration of a mobile that is taken, or free.
abbrev pub Registers :
    Option Account → String → Option String → Directory → Outcome → Directory → Type 0
Registers (some a) mobile hashed d o d' = ((o ≡ refused "手机号已注册") ⊎ (o ≡ unavailable)) × Same d d'
Registers none mobile hashed d o d' =
    ((o ≡ unavailable) × Same d d')
    ⊎ ((uid : ℕ) × (hash : String) × (hashed ≡ some hash)
        × ((o ≡ granted uid) ⊎ (o ≡ unavailable))
        × Adds mobile (record { uid = uid; password = hash; status = 1 }) d d')

-- What the specification allows an action to answer and to change.
abbrev pub Allowed : (String → String → Bool) → Directory → Action → Outcome → Directory → Type 0
Allowed check d (to_login mobile password works) o d' =
    ((o ≡ login_outcome check (d mobile) password) ⊎ ((o ≡ unavailable) × (works ≡ false)))
    × Same d d'
Allowed check d (to_register mobile hashed) o d' = Registers (d mobile) mobile hashed d o d'
Allowed check d other o d' = (o ≡ silent) × Same d d'

-- A sequence of actions with their answers.
pub data Meets (check : String → String → Bool)
    : Directory → List Action → List Outcome → Directory → Type 0 where
  done : {d : Directory} → Meets check d [] [] d
  next :
      {d d' d'' : Directory} {a : Action} {o : Outcome} {rest : List Action} {outs : List Outcome}
      → Allowed check d a o d'
      → Meets check d' rest outs d''
      → Meets check d (a ∷ rest) (o ∷ outs) d''

-- What happens to the service: requests with what their handlers are told, and entries of go-zero
-- that expire.
pub data Event : Type 0 where
  logs_in registers : Answers → AccountReq → Event
  asks : Bool → ℕ → Event
  counts : Bool → ℕ → UpdateUserStatsReq → Event
  expires : String → ℕ → Event

abbrev has_token : Answers → Bool
has_token a = elim a.token [ none ↦ false | some t ↦ true ]

abbrev pub action : Event → Action
action (logs_in a req) = to_login req.mobile req.password (a.query_ok && has_token a)
action (registers a req) = to_register req.mobile a.hashed
action (asks ok uid) = other
action (counts ok now req) = other
action (expires mobile uid) = other

-- The responses that say that something else failed.
abbrev pub is_failure : String → Bool
is_failure msg =
    str_eq msg "数据库查询失败" || str_eq msg "密码加密失败" || str_eq msg "创建用户失败" || str_eq msg "生成token失败"

abbrev pub said : Option UserInfo → String → Outcome
said (some info) msg = granted info.uid
said none msg = if is_failure msg then unavailable else refused msg

abbrev pub outcome : AccountResp → Outcome
outcome resp = said resp.user_info resp.msg

module _ (c : CachedConn) (r : Redis) (check : String → String → Bool) where
  unfoldable pub act : Event → Store c r → Outcome × Store c r
  act (logs_in a req) s = let (resp, left) = login c r check a req s in (outcome resp, left)
  act (registers a req) s = let (resp, left) = register c r a req s in (outcome resp, left)
  act (asks ok uid) s = (silent, (get_user_info c r ok uid s).1)
  act (counts ok now req) s = (silent, (update_user_stats c r ok now req s).1)
  act (expires mobile uid) s = (silent, record s { rows = c.drop mobile uid s.rows })

  unfoldable pub run : List Event → Store c r → List Outcome × Store c r
  run [] s = ([], s)
  run (e ∷ es) s = let (o, left) = act e s in let (outs, last) = run es left in (o ∷ outs, last)

  -- The table gives a new row a uid that no row has.
  abbrev pub Fresh : Event → Store c r → Type 0
  Fresh (registers a req) s = find_uid a.new_uid s.table ≡ none
  Fresh (logs_in a req) s = Unit
  Fresh (asks ok uid) s = Unit
  Fresh (counts ok now req) s = Unit
  Fresh (expires mobile uid) s = Unit

  abbrev pub AllFresh : List Event → Store c r → Type 0
  AllFresh [] s = Unit
  AllFresh (e ∷ es) s = Fresh e s × AllFresh es (act e s).1
