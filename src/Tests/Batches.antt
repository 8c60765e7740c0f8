-- ===== src/Tests/Batches.antt =====
-- BatchGetTweets at concrete tweets, where Go visits maps backwards.
use gozero_x.Common.{
  ℕ, ◌≡◌, refl, sym, ap, some_inj, Bool, true, false, ◌&&◌, ◌||◌, Option, none, some, List, [], ◌∷◌,
  ◌++◌, arith, ◌==◌, if◌then◌else◌,
}
use gozero_x.Common.Int.{pos}
use gozero_x.Cache.Tweets.{Tweet}
use gozero_x.Content.Batch.{any, has, BatchGetTweetsResp, Answers, batch_get_tweets}
use gozero_x.Content.Batch.Shown.{shown, available, HasOwnIds, IsOrder, batch_get_tweets-shown}

abbrev backwards : (A : Type 0) → List A → List A
backwards A [] = []
backwards A (x ∷ xs) = backwards A xs ++ (x ∷ [])

any-append :
    {A : Type 0} (p : A → Bool) (xs ys : List A) → any p (xs ++ ys) ≡ (any p xs || any p ys)
any-append p [] ys = refl
any-append p (x ∷ xs) ys = ground (arith, any-append p xs ys)

backwards-IsOrder : IsOrder backwards
backwards-IsOrder A p [] = refl
backwards-IsOrder A p (x ∷ xs) =
    ground (arith, any-append p (backwards A xs) (x ∷ []), backwards-IsOrder A p xs)

abbrev tweet : ℕ → Bool → Tweet
tweet id public = record {
  snow_tid = id;
  tid = 1;
  uid = 3;
  content = "hello";
  media_urls = [];
  tags = [];
  is_public = public;
  like_count = pos 2;
  comment_count = pos 1;
  created_at = 1700000000;
  status = 0;
}

abbrev two_cached : ℕ → Option Tweet
two_cached tid = if tid == 5 || tid == 6 then some (tweet tid (tid == 5)) else none

kept : (b : Bool) (u t : Tweet) → (if b then some u else none) ≡ some t → t ≡ u
kept true u t h = sym (some_inj u t h)
kept false u t h = ground arith

two_cached-HasOwnIds : HasOwnIds two_cached
two_cached-HasOwnIds tid t there seen =
    ap (λ u. u.snow_tid) (kept (tid == 5 || tid == 6) (tweet tid (tid == 5)) t there)

abbrev rows : List Tweet
rows = tweet 7 true ∷ tweet 6 true ∷ tweet 5 true ∷ []

abbrev told : Answers
told = record { cache = two_cached; table = some rows; users = none }

batch_get_tweets-shown_example :
    (resp : BatchGetTweetsResp) × ((batch_get_tweets backwards told (5 ∷ 7 ∷ 6 ∷ 5 ∷ [])).0
      ≡ some resp)
    × ((tid : ℕ)
        → shown tid resp.tweets ≡ (has tid (5 ∷ 7 ∷ 6 ∷ 5 ∷ []) && available told rows tid))
batch_get_tweets-shown_example =
    batch_get_tweets-shown backwards backwards-IsOrder told rows (5 ∷ 7 ∷ 6 ∷ 5 ∷ []) refl
      two_cached-HasOwnIds
