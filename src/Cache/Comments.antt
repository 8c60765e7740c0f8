-- ===== src/Cache/Comments.antt =====
-- The hash of a root comment: SetCommentToCache, GetCommentFromCache and the cache-then-database
-- reads of app/interactService/cmd/rpc/internal/svc/servicecontext.go.
use Prim.Native.String.{String}
use gozero_x.Common.{ℕ, ◌≡◌, refl, Option, none, some, [], ◌∷◌}
use gozero_x.Common.Int.{ℤ}
use gozero_x.Cache.{
  Key, key, Cell, nat, shown, raw, Hash, get, nat_cell, int_cell, text_cell, Redis, IsLawful,
}

-- A row of the comment table.
pub record Comment : Type 0 where
  pub snow_cid : ℕ
  pub cid : ℕ
  pub snow_tid : ℕ
  pub uid : ℕ
  pub content : String
  pub like_count : ℤ
  pub reply_count : ℤ
  pub status : ℕ
  pub created_at : ℕ
  pub updated_at : ℕ

abbrev pub comment_key : ℕ → Key
comment_key = key "comment" "info"

-- The fields that SetCommentToCache writes.
unfoldable pub comment_fields : Comment → Hash
comment_fields c =
    ("snow_cid", nat c.snow_cid)
    ∷ ("snow_tid", nat c.snow_tid)
    ∷ ("uid", nat c.uid)
    ∷ ("content", raw c.content)
    ∷ ("status", nat c.status)
    ∷ ("created_at", nat c.created_at)
    ∷ ("like_count", shown c.like_count)
    ∷ ("reply_count", shown c.reply_count)
    ∷ []

-- The comment that GetCommentFromCache builds from the fields that are there.
unfoldable pub parse_comment : Hash → Comment
parse_comment h = record {
  snow_cid = nat_cell (get "snow_cid" h);
  cid = 0;
  snow_tid = nat_cell (get "snow_tid" h);
  uid = nat_cell (get "uid" h);
  content = text_cell (get "content" h);
  like_count = int_cell (get "like_count" h);
  reply_count = int_cell (get "reply_count" h);
  status = nat_cell (get "status" h);
  created_at = nat_cell (get "created_at" h);
  updated_at = 0;
}

-- `nil, redis.Nil` on an empty hash, `nil, err` on an error: both are a miss.
hit_comment : Option Hash → Option Comment
hit_comment none = none
hit_comment (some []) = none
hit_comment (some (f ∷ h)) = some (parse_comment (f ∷ h))

module _ (r : Redis) where
  unfoldable pub get_comment_from_cache : ℕ → r.State → Option Comment
  unfolding hit_comment
  get_comment_from_cache snow_cid s = hit_comment (r.hgetall (comment_key snow_cid) s)

  -- `GetCommentBySnowCid`: the cache, and the database row on a miss.
  unfoldable pub get_comment_by_snow_cid : (ℕ → Option Comment) → ℕ → r.State → Option Comment
  unfolding get_comment_from_cache
  get_comment_by_snow_cid find_one snow_cid s = elim (get_comment_from_cache snow_cid s) [
    | some c ↦ some c
    | none ↦ find_one snow_cid
  ]

-- What a comment keeps in the cache: all but its serial number and its time of update.
abbrev pub cached : Comment → Comment
cached c = record c { cid = 0; updated_at = 0 }

-- A hash that holds the fields of a comment is a hit, and reads as that comment.
hit_comment-fields :
    (g : Hash) (c : Comment)
    → ((f : String) (v : Cell) → get f (comment_fields c) ≡ some v → get f g ≡ some v)
    → hit_comment (some g) ≡ some (cached c)
unfolding hit_comment parse_comment nat_cell int_cell text_cell get comment_fields
hit_comment-fields [] c holds = cc (holds "uid" (nat c.uid) refl)
hit_comment-fields (x ∷ g) c holds = fields
  where
    at : (f : String) (v : Cell) → get f (comment_fields c) ≡ some v → get f (x ∷ g) ≡ some v
    at = holds

    fields : some (parse_comment (x ∷ g)) ≡ some (cached c)
    fields = rw (
      at "snow_cid" (nat c.snow_cid) refl,
      at "snow_tid" (nat c.snow_tid) refl,
      at "uid" (nat c.uid) refl,
      at "content" (raw c.content) refl,
      at "status" (nat c.status) refl,
      at "created_at" (nat c.created_at) refl,
      at "like_count" (shown c.like_count) refl,
      at "reply_count" (shown c.reply_count) refl,
    )

-- A comment that SetCommentToCache has written is read back, over whatever the key held before,
-- except for its serial number and its time of update, which read 0.
pub get_comment_from_cache-set :
    (r : Redis) (lawful : IsLawful r) (snow_cid : ℕ) (c : Comment) (s t : r.State) (g : Hash)
    → r.hmset (comment_key snow_cid) (comment_fields c) s ≡ some t
    → r.hgetall (comment_key snow_cid) t ≡ some g
    → get_comment_from_cache r snow_cid t ≡ some (cached c)
unfolding get_comment_from_cache
get_comment_from_cache-set r lawful snow_cid c s t g stored read = rw read (
    hit_comment-fields g c
      (λ f v. lawful.hmset_sets (comment_key snow_cid) (comment_fields c) s t g f v stored read))
