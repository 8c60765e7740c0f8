-- ===== src/Cache/Replies.antt =====
-- The hash of a reply: SetReplyToCache, GetReplyFromCache and the cache-then-database
-- reads of app/interactService/cmd/rpc/internal/svc/servicecontext.go.
use Prim.Native.String.{String}
use gozero_x.Common.{ℕ, ◌≡◌, refl, Option, none, some, [], ◌∷◌}
use gozero_x.Common.Int.{ℤ}
use gozero_x.Cache.{
  Key, key, Cell, nat, shown, raw, Hash, get, nat_cell, int_cell, text_cell, Redis, IsLawful,
}

-- A row of the reply table.
pub record Reply : Type 0 where
  pub snow_cid : ℕ
  pub cid : ℕ
  pub snow_tid : ℕ
  pub uid : ℕ
  pub parent_id : ℕ
  pub root_id : ℕ
  pub content : String
  pub like_count : ℤ
  pub reply_count : ℤ
  pub status : ℕ
  pub created_at : ℕ
  pub updated_at : ℕ

abbrev pub reply_key : ℕ → Key
reply_key = key "reply" "info"

-- The fields that SetReplyToCache writes.
unfoldable pub reply_fields : Reply → Hash
reply_fields c =
    ("snow_cid", nat c.snow_cid)
    ∷ ("snow_tid", nat c.snow_tid)
    ∷ ("uid", nat c.uid)
    ∷ ("parent_id", nat c.parent_id)
    ∷ ("root_id", nat c.root_id)
    ∷ ("content", raw c.content)
    ∷ ("status", nat c.status)
    ∷ ("created_at", nat c.created_at)
    ∷ ("like_count", shown c.like_count)
    ∷ ("reply_count", shown c.reply_count)
    ∷ []

-- The reply that GetReplyFromCache builds from the fields that are there.
unfoldable pub parse_reply : Hash → Reply
parse_reply h = record {
  snow_cid = nat_cell (get "snow_cid" h);
  cid = 0;
  snow_tid = nat_cell (get "snow_tid" h);
  uid = nat_cell (get "uid" h);
  parent_id = nat_cell (get "parent_id" h);
  root_id = nat_cell (get "root_id" h);
  content = text_cell (get "content" h);
  like_count = int_cell (get "like_count" h);
  reply_count = int_cell (get "reply_count" h);
  status = nat_cell (get "status" h);
  created_at = nat_cell (get "created_at" h);
  updated_at = 0;
}

-- `nil, redis.Nil` on an empty hash, `nil, err` on an error: both are a miss.
hit_reply : Option Hash → Option Reply
hit_reply none = none
hit_reply (some []) = none
hit_reply (some (f ∷ h)) = some (parse_reply (f ∷ h))

module _ (r : Redis) where
  unfoldable pub get_reply_from_cache : ℕ → r.State → Option Reply
  unfolding hit_reply
  get_reply_from_cache snow_cid s = hit_reply (r.hgetall (reply_key snow_cid) s)

  -- `GetReplyBySnowCid`: the cache, and the database row on a miss.
  unfoldable pub get_reply_by_snow_cid : (ℕ → Option Reply) → ℕ → r.State → Option Reply
  unfolding get_reply_from_cache
  get_reply_by_snow_cid find_one snow_cid s = elim (get_reply_from_cache snow_cid s) [
    | some c ↦ some c
    | none ↦ find_one snow_cid
  ]

-- What a reply keeps in the cache: all but its serial number and its time of update.
abbrev pub cached_reply : Reply → Reply
cached_reply c = record c { cid = 0; updated_at = 0 }

-- A hash that holds the fields of a reply is a hit, and reads as that reply.
hit_reply-fields :
    (g : Hash) (c : Reply)
    → ((f : String) (v : Cell) → get f (reply_fields c) ≡ some v → get f g ≡ some v)
    → hit_reply (some g) ≡ some (cached_reply c)
unfolding hit_reply parse_reply nat_cell int_cell text_cell get reply_fields
hit_reply-fields [] c holds = cc (holds "uid" (nat c.uid) refl)
hit_reply-fields (x ∷ g) c holds = fields
  where
    at : (f : String) (v : Cell) → get f (reply_fields c) ≡ some v → get f (x ∷ g) ≡ some v
    at = holds

    fields : some (parse_reply (x ∷ g)) ≡ some (cached_reply c)
    fields = rw (
      at "snow_cid" (nat c.snow_cid) refl,
      at "snow_tid" (nat c.snow_tid) refl,
      at "uid" (nat c.uid) refl,
      at "parent_id" (nat c.parent_id) refl,
      at "root_id" (nat c.root_id) refl,
      at "content" (raw c.content) refl,
      at "status" (nat c.status) refl,
      at "created_at" (nat c.created_at) refl,
      at "like_count" (shown c.like_count) refl,
      at "reply_count" (shown c.reply_count) refl,
    )

-- A reply that SetReplyToCache has written is read back, over whatever the key held before,
-- except for its serial number and its time of update, which read 0.
pub get_reply_from_cache-set :
    (r : Redis) (lawful : IsLawful r) (snow_cid : ℕ) (c : Reply) (s t : r.State) (g : Hash)
    → r.hmset (reply_key snow_cid) (reply_fields c) s ≡ some t
    → r.hgetall (reply_key snow_cid) t ≡ some g
    → get_reply_from_cache r snow_cid t ≡ some (cached_reply c)
unfolding get_reply_from_cache
get_reply_from_cache-set r lawful snow_cid c s t g stored read = rw read (
    hit_reply-fields g c
      (λ f v. lawful.hmset_sets (reply_key snow_cid) (reply_fields c) s t g f v stored read))
