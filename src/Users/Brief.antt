-- ===== src/Users/Brief.antt =====
-- Users for the other services: app/usercenter/cmd/rpc/internal/logic/batchgetuserbrieflogic.go.
pub mod InOrder
use Prim.Native.String.{String}
use gozero_x.Common.{
  ℕ, zero, suc, Bool, Option, none, some, List, [], ◌∷◌, map, select, ◌==◌, if◌then◌else◌,
}
use gozero_x.Cache.{Hash, get, text_cell, Redis}
use gozero_x.Content.Batch.{UserBrief, has}
use gozero_x.Users.{User}
use gozero_x.Users.Hashes.{user_key, hit, set_user}

-- `result`: a slot for each uid of the request; `none` is nil.
abbrev pub Slots : Type 0
Slots = List (Option UserBrief)

pub record BatchUserBriefResp : Type 0 where
  pub code : ℕ
  pub msg : String
  pub users : Slots

-- What a goroutine puts into its slot.
unfoldable pub slot : ℕ → Option Hash → Option UserBrief
slot uid none = none
slot uid (some h) = some (record {
  uid = uid;
  nickname = text_cell (get "nickname" h);
  avatar = text_cell (get "avatar" h);
})

-- `missUids` with `missIndexes`; the number is the index of the first slot.
unfoldable pub misses : ℕ → Slots → List ℕ → List (ℕ × ℕ)
misses i [] uids = []
misses i (s ∷ ss) [] = []
misses i (some b ∷ ss) (uid ∷ uids) = misses (suc i) ss uids
misses i (none ∷ ss) (uid ∷ uids) = (uid, i) ∷ misses (suc i) ss uids

-- `FindBatchByUids`
unfoldable pub find_batch : List ℕ → List User → List User
find_batch uids = select (λ u. has u.uid uids)

-- `dbUserMap[uid]`: of two rows the later one.
unfoldable pub db_user : ℕ → List User → Option User
db_user uid [] = none
db_user uid (u ∷ us) = elim (db_user uid us) [
  | some v ↦ some v
  | none ↦ if u.uid == uid then some u else none
]

-- The user of a miss; a uid that the table does not have is a user who has left.
abbrev pub brief : ℕ → Option User → UserBrief
brief uid none = record { uid = uid; nickname = "用户已注销"; avatar = "" }
brief uid (some u) = record { uid = u.uid; nickname = u.nickname; avatar = u.avatar }

-- `result[i] = b`
unfoldable pub set_slot : ℕ → UserBrief → Slots → Slots
set_slot i b [] = []
set_slot zero b (s ∷ ss) = some b ∷ ss
set_slot (suc i) b (s ∷ ss) = s ∷ set_slot i b ss

-- The loop that fills the misses.
unfoldable pub fill : (ℕ → UserBrief) → List (ℕ × ℕ) → Slots → Slots
fill f [] ss = ss
fill f ((uid, i) ∷ ms) ss = fill f ms (set_slot i (f uid) ss)

abbrev pub success : Slots → BatchUserBriefResp
success ss = record { code = 0; msg = "success"; users = ss }

-- The goroutine that writes the rows to the cache.
unfoldable pub set_users : (r : Redis) → List User → r.State → r.State
set_users r [] s = s
set_users r (u ∷ us) s = set_users r us (set_user r u s)

module _ (r : Redis) where
  -- `BatchGetUserBrief` once the goroutines are done. `table` is `none` if the query fails.
  unfoldable pub complete :
      Option (List User) → Slots → List (ℕ × ℕ) → r.State → BatchUserBriefResp × r.State
  complete table ss [] s = (success ss, s)
  complete none ss (m ∷ ms) s = (record { code = 1; msg = "批量查询用户失败"; users = [] }, s)
  complete (some rows) ss (m ∷ ms) s =
      let db_users = find_batch (map (λ p. p.0) (m ∷ ms)) rows in
      (success (fill (λ uid. brief uid (db_user uid db_users)) (m ∷ ms) ss), set_users r db_users s)

  -- `BatchGetUserBrief`
  unfoldable pub batch_get_user_brief :
      Option (List User) → List ℕ → r.State → BatchUserBriefResp × r.State
  batch_get_user_brief table [] s = (success [], s)
  batch_get_user_brief table (n ∷ ns) s =
      let ss = map (λ uid. slot uid (hit (r.hgetall (user_key uid) s))) (n ∷ ns) in
      complete table ss (misses 0 ss (n ∷ ns)) s
