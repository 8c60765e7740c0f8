-- ===== src/Interact/Ids.antt =====
-- The sets of ids in the cache: GetTopCommentsBySnowTid and GetRepliesByRootId of
-- app/interactService/cmd/rpc/internal/svc/servicecontext.go, with FindTopSnowCidsByTid and
-- FindByRootId of app/interactService/model.
pub mod TopComments
use gozero_x.Common.{
  ℕ, Bool, ◌&&◌, ◌||◌, ◌≡◌, Option, none, some, List, [], ◌∷◌, map, select, take, ◌==◌,
  if◌then◌else◌,
}
use gozero_x.Cache.{Key, key, key_eq}
use gozero_x.Cache.Comments.{Comment}
use gozero_x.Cache.Replies.{Reply}
use gozero_x.Content.Batch.{has}
use gozero_x.Paging.Query.{asc, desc, order_by}

-- The sets of Redis. A reply `none` is a command that failed; SMEMBERS of a missing key is an empty
-- reply.
pub record Sets : Type 1 where
  pub State : Type 0
  pub smembers : Key → State → Option (List ℕ)
  pub sadd : Key → List ℕ → State → Option State

-- The documented behaviour: SADD adds members to the set of its key, and makes it if it is missing.
pub record IsLawful (r : Sets) : Type 0 where
  pub sadd_members :
      (j k : Key) (ids old new : List ℕ) (s t : r.State) (n : ℕ)
      → r.sadd k ids s ≡ some t
      → r.smembers j s ≡ some old
      → r.smembers j t ≡ some new
      → has n new ≡ (if key_eq j k then has n ids || has n old else has n old)

abbrev pub top_key : ℕ → Key
top_key = key "tweet" "top_comments"

abbrev pub replies_key : ℕ → Key
replies_key = key "comment" "replies"

-- `FindTopSnowCidsByTid`
abbrev pub top_comment : ℕ → Comment → Bool
top_comment snow_tid c = c.snow_tid == snow_tid && c.status == 0

unfoldable pub find_top_snow_cids : ℕ → List Comment → List ℕ
find_top_snow_cids snow_tid rows =
    map (λ c. c.snow_cid) (order_by desc (λ c. c.created_at) (select (top_comment snow_tid) rows))

-- `FindByRootId` with the cursor 0 and the limit 1000, and the ids of its rows
unfoldable pub find_reply_cids : ℕ → List Reply → List ℕ
find_reply_cids root_id rows =
    map (λ r. r.snow_cid)
      (take 1000 (
        order_by asc (λ r. r.created_at)
          (select (λ r. r.root_id == root_id && r.status == 0) rows)))

-- A set that is there, and not empty.
abbrev pub set_hit : Option (List ℕ) → Option (List ℕ)
set_hit none = none
set_hit (some []) = none
set_hit (some (n ∷ ns)) = some (n ∷ ns)

module _ (r : Sets) where
  abbrev or_same : r.State → Option r.State → r.State
  or_same s none = s
  or_same s (some t) = t

  -- `SAdd`, whose error is dropped.
  unfoldable pub add : Key → List ℕ → r.State → r.State
  add k ids s = or_same s (r.sadd k ids s)

  -- The ids of a query, which a goroutine writes back; `none` is an error.
  unfoldable pub ids_found : Key → Option (List ℕ) → r.State → Option (List ℕ) × r.State
  ids_found k none s = (none, s)
  ids_found k (some []) s = (some [], s)
  ids_found k (some (n ∷ ns)) s = (some (n ∷ ns), add k (n ∷ ns) s)

  unfoldable pub ids_with :
      Key → Option (List ℕ) → Option (List ℕ) → r.State → Option (List ℕ) × r.State
  ids_with k found (some ids) s = (some ids, s)
  ids_with k found none s = ids_found k found s

  -- `GetTopCommentsBySnowTid`; `rows` is `none` if the query fails.
  unfoldable pub get_top_comments : ℕ → Option (List Comment) → r.State → Option (List ℕ) × r.State
  get_top_comments snow_tid rows s =
      ids_with (top_key snow_tid)
        (elim rows [ none ↦ none | some cs ↦ some (find_top_snow_cids snow_tid cs) ])
        (set_hit (r.smembers (top_key snow_tid) s)) s

  -- `GetRepliesByRootId`
  unfoldable pub get_replies_by_root_id :
      ℕ → Option (List Reply) → r.State → Option (List ℕ) × r.State
  get_replies_by_root_id root_id rows s =
      ids_with (replies_key root_id)
        (elim rows [ none ↦ none | some rs ↦ some (find_reply_cids root_id rs) ])
        (set_hit (r.smembers (replies_key root_id) s)) s

  -- What the calls of SAdd of a handler do to the sets, one after another.
  unfoldable pub add_all : List (Key × List ℕ) → r.State → r.State
  add_all [] s = s
  add_all ((k, ids) ∷ l) s = add_all l (add k ids s)
