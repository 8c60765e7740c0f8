-- ===== src/Feed/Build.antt =====
-- The two loops of the feed over the candidates.
use gozero_x.Common.{
  inl, inr, ℕ, zero, suc, ◌≡◌, refl, none, some, List, [], ◌∷◌, map, arith, take, drop, length, ◌≤◌,
  Option-cases, ◌-◌,
}
use gozero_x.Common.Int.{ℤ, pos}
use gozero_x.Feed.{Tweet, TweetInfo, find_tweet, tweet_info, build_from, extra_valid_ids}

-- The tweets of the candidates, without those that are gone.
abbrev pub present : List Tweet → List ℕ → List TweetInfo
present ts [] = []
present ts (tid ∷ tids) = elim (find_tweet tid ts) [
  | none ↦ present ts tids
  | some t ↦ tweet_info t ∷ present ts tids
]

abbrev pub info_id : TweetInfo → ℕ
info_id t = t.snow_tid

find_tweet-id :
    (tid : ℕ) (ts : List Tweet) (t : Tweet) → find_tweet tid ts ≡ some t → t.snow_tid ≡ tid
unfolding find_tweet
find_tweet-id tid [] t e = ground arith
find_tweet-id tid (x ∷ xs) t e = elim (Option-cases (find_tweet tid xs)) [
  | inl absent ↦ ground arith
  | inr (u, found) ↦ ground (arith, find_tweet-id tid xs u found)
]

pub build_from-present :
    (taken n m : ℕ) (ts : List Tweet) (tids : List ℕ)
    → m ≡ n - taken
    → build_from taken (pos n) ts tids ≡ take m (present ts tids)
unfolding build_from
build_from-present taken n zero ts [] h = refl
build_from-present taken n (suc m) ts [] h = refl
build_from-present taken n zero ts (tid ∷ tids) h = ground arith
build_from-present taken n (suc m) ts (tid ∷ tids) h = ground (
  arith,
  build_from-present taken n (suc m) ts tids h,
  build_from-present (suc taken) n m ts tids (omega arith),
)

pub extra-present :
    (returned n m : ℕ) (ts : List Tweet) (tids : List ℕ)
    → m ≡ n - returned
    → extra_valid_ids returned (pos n) ts tids ≡ drop m (map info_id (present ts tids))
unfolding extra_valid_ids
extra-present returned n zero ts [] h = refl
extra-present returned n (suc m) ts [] h = refl
extra-present returned n zero ts (tid ∷ tids) h = elim (Option-cases (find_tweet tid ts)) [
  | inl absent ↦ ground (arith, extra-present returned n zero ts tids h)
  | inr (t, found) ↦ ground (
    arith,
    extra-present (suc returned) n zero ts tids (omega arith),
    find_tweet-id tid ts t found,
  )
]
extra-present returned n (suc m) ts (tid ∷ tids) h = ground (
  arith,
  extra-present returned n (suc m) ts tids h,
  extra-present (suc returned) n m ts tids (omega arith),
)

pub length-extra_le :
    (returned : ℕ) (limit : ℤ) (ts : List Tweet) (tids : List ℕ)
    → length (extra_valid_ids returned limit ts tids) ≤ length tids
unfolding extra_valid_ids
length-extra_le returned limit ts [] = omega arith
length-extra_le returned limit ts (tid ∷ tids) =
    ground
      (arith, length-extra_le returned limit ts tids, length-extra_le (suc returned) limit ts tids)
