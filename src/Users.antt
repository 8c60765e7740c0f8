-- ===== src/Users.antt =====
-- The user table and the cache of its rows: app/usercenter/model/usermodel.go and usermodel_gen.go.
-- The children are the handlers of app/usercenter/cmd/rpc/internal/logic.
pub mod Rows
pub mod Hashes
pub mod Accounts
pub mod Info
pub mod Coherent
pub mod Refines
pub mod Brief
pub mod Token
pub mod Shown
pub mod Stale
use Prim.Native.String.{String}
use text.Mathlib.Text.{◌==◌ as str_eq}
use gozero_x.Common.{
  ℕ, Bool, true, false, not, ◌||◌, Option, none, some, List, [], ◌∷◌, ◌==◌, if◌then◌else◌,
}
use gozero_x.Common.Int.{ℤ, ◌+ℤ◌}

-- A row of the user table.
pub record User : Type 0 where
  pub uid : ℕ
  pub mobile : String
  pub password : String
  pub nickname : String
  pub avatar : String
  pub bio : String
  pub follow_count : ℤ
  pub fans_count : ℤ
  pub post_count : ℤ
  pub status : ℕ
  pub last_login_at : ℕ
  pub created_at : ℕ
  pub updated_at : ℕ

-- What a query for one row gives: an error, no row, or the row.
pub data Lookup : Type 0 where
  failed missing : Lookup
  found : User → Lookup

abbrev pub looked_up : Option User → Lookup
looked_up none = missing
looked_up (some u) = found u

-- A query that the database may fail to answer.
abbrev pub answered : Bool → Option User → Lookup
answered ok u = if ok then looked_up u else failed

-- `where mobile = $1 limit 1`
unfoldable pub find_mobile : String → List User → Option User
find_mobile mobile [] = none
find_mobile mobile (u ∷ us) = if str_eq u.mobile mobile then some u else find_mobile mobile us

-- `where uid = $1 limit 1`
unfoldable pub find_uid : ℕ → List User → Option User
find_uid uid [] = none
find_uid uid (u ∷ us) = if u.uid == uid then some u else find_uid uid us

-- The columns mobile and nickname are unique: an insert of a taken one fails.
unfoldable pub is_taken : User → List User → Bool
is_taken v [] = false
is_taken v (u ∷ us) = str_eq u.mobile v.mobile || str_eq u.nickname v.nickname || is_taken v us

unfoldable pub insert_user : User → List User → Option (List User)
insert_user v us = if is_taken v us then none else some (v ∷ us)

-- The statement of `UpdateStatsWithValues`: update type 1 is follow_count, 2 fans_count, 3 post_count.
unfoldable pub with_stats : ℕ → ℕ → ℤ → ℕ → User → User
with_stats uid kind delta now u =
    if not (u.uid == uid)
    then u
    else if kind == 1
    then record u { follow_count = u.follow_count +ℤ delta; updated_at = now }
    else if kind == 2
    then record u { fans_count = u.fans_count +ℤ delta; updated_at = now }
    else record u { post_count = u.post_count +ℤ delta; updated_at = now }

-- The statement of `UpdateLastLogin`.
unfoldable pub with_login : ℕ → ℕ → User → User
with_login uid now u = if u.uid == uid then record u { last_login_at = now } else u
