-- ===== src/Interact/Effects/Sums.antt =====
-- Totals and messages of calls that follow one another.
use Prim.Native.String.{String}
use gozero_x.Common.{ℕ, ◌≡◌, refl, List, [], ◌∷◌, ◌++◌, arith}
use gozero_x.Common.Int.{◌+ℤ◌, int_laws}
use gozero_x.Cache.{Key}
use gozero_x.Interact.Effects.{Effect, pushed, cache_delta, tweet_delta, comment_delta}

pub cache_delta-append :
    (k : Key) (f : String) (xs ys : List Effect)
    → cache_delta k f (xs ++ ys) ≡ cache_delta k f xs +ℤ cache_delta k f ys
cache_delta-append k f [] ys = omega int_laws
cache_delta-append k f (x ∷ xs) ys = grind (int_laws, cache_delta-append k f xs ys)

pub tweet_delta-append :
    (t k : ℕ) (xs ys : List Effect)
    → tweet_delta t k (xs ++ ys) ≡ tweet_delta t k xs +ℤ tweet_delta t k ys
tweet_delta-append t k [] ys = omega int_laws
tweet_delta-append t k (x ∷ xs) ys = grind (int_laws, tweet_delta-append t k xs ys)

pub comment_delta-append :
    (c k : ℕ) (xs ys : List Effect)
    → comment_delta c k (xs ++ ys) ≡ comment_delta c k xs +ℤ comment_delta c k ys
comment_delta-append c k [] ys = omega int_laws
comment_delta-append c k (x ∷ xs) ys = grind (int_laws, comment_delta-append c k xs ys)

pub pushed-append :
    (t : String) (xs ys : List Effect) → pushed t (xs ++ ys) ≡ pushed t xs ++ pushed t ys
pushed-append t [] ys = refl
pushed-append t (x ∷ xs) ys = grind (arith, pushed-append t xs ys)
