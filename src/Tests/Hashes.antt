-- ===== src/Tests/Hashes.antt =====
-- The cached records at concrete inputs, in a Redis that holds one key.
use Prim.Native.String.{String}
use mathlib.Core.Path.{subst}
use gozero_x.Common.{arith, sym, ap, ◌∙◌, some_inj, ◌≡◌, refl, some, [], ◌∷◌, ◌++◌}
use gozero_x.Common.Int.{ℤ, pos, negsuc, ◌+ℤ◌}
use gozero_x.Cache.{Cell, shown, Hash, get, int_cell, Redis, IsLawful}
use gozero_x.Cache.Comments.{Comment, get_comment_by_snow_cid}
use gozero_x.Cache.Partial.{blank_comment, liked_comment_blank}

-- HINCRBY of a field that may be there.
abbrev incremented : String → ℤ → Hash → Hash
incremented f d [] = (f, shown d) ∷ []
incremented f d (x ∷ h) = (f, shown (int_cell (get f (x ∷ h)) +ℤ d)) ∷ x ∷ h

abbrev pub one_key : Redis
one_key = record {
  State = Hash;
  hgetall = λ k s. some s;
  hmset = λ k h s. some (h ++ s);
  hincrby = λ k f d s. some (incremented f d s);
}

get-append : (f : String) (h s : Hash) (v : Cell) → get f h ≡ some v → get f (h ++ s) ≡ some v
unfolding get
get-append f [] s v e = ground arith
get-append f (x ∷ h) s v e = ground (arith, get-append f h s v)

pub one_key-IsLawful : IsLawful one_key
one_key-IsLawful = record {
  hmset_sets = λ k h s t g f v stored read e.
      subst (λ x. get f x ≡ some v) (some_inj (h ++ s) t stored ∙ some_inj t g read)
        (get-append f h s v e);
  hincrby_creates = λ k f d s t g missing stored read.
      sym (some_inj t g read)
      ∙ sym (some_inj (incremented f d s) t stored)
      ∙ ap (incremented f d) (some_inj s [] missing);
}

abbrev a_comment : Comment
a_comment = record {
  snow_cid = 11;
  cid = 1;
  snow_tid = 5;
  uid = 3;
  content = "hello";
  like_count = negsuc 0;
  reply_count = pos 2;
  status = 0;
  created_at = 1700000000000;
  updated_at = 1700000000001;
}

liked_comment_blank_example :
    get_comment_by_snow_cid one_key (λ i. some a_comment) 11 (("like_count", shown (pos 1)) ∷ [])
    ≡ some (blank_comment (pos 1))
liked_comment_blank_example =
    liked_comment_blank one_key one_key-IsLawful (λ i. some a_comment) 11 (pos 1) []
      (("like_count", shown (pos 1)) ∷ []) (("like_count", shown (pos 1)) ∷ []) refl refl refl
