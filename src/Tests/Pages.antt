-- ===== src/Tests/Pages.antt =====
-- Pages of comments at concrete inputs.
use mathlib.Core.List.{Permᴰ}
use mathlib.Core.List.Permᴰ
use gozero_x.Paging.Query.{order_by, insert_row}
use gozero_x.Paging.Slice.{IsWeak, Placed, IsSlice}
use gozero_x.Common.{
  Bool, false, Bool-cases, inl, inr, refl, All, if◌then◌else◌, ℕ, ◌+◌, ◌≡◌, List, [], ◌∷◌, map,
  arith, some,
}
use gozero_x.Common.Int.{pos}
use gozero_x.Cache.Comments.{Comment}
use gozero_x.Paging.{GetCommentsReq, comment_info}
use gozero_x.Paging.Laws.{read_comments, read_comments_complete}

abbrev comment : ℕ → Comment
comment n = record {
  snow_cid = n;
  cid = n;
  snow_tid = 5;
  uid = 3;
  content = "hello";
  like_count = pos 0;
  reply_count = pos 0;
  status = 0;
  created_at = 1000 + n;
  updated_at = 1000 + n;
}

abbrev rows : List Comment
rows = comment 2 ∷ comment 3 ∷ comment 1 ∷ []

abbrev request : GetCommentsReq
request = record { snow_tid = 5; cursor = pos 0; limit = pos 2; sort = 0 }

-- A sort by insertion.
module _ {A : Type 0} (less : A → A → Bool) where
  abbrev insert : A → List A → List A
  insert x [] = x ∷ []
  insert x (y ∷ ys) = let rest = insert x ys in if less y x then y ∷ rest else x ∷ y ∷ ys

  abbrev sorted : List A → List A
  sorted [] = []
  sorted (x ∷ xs) = insert x (sorted xs)

  insert-perm : (x : A) (ys : List A) → Permᴰ (insert x ys) (x ∷ ys)
  insert-perm x [] = Permᴰ.refl (x ∷ [])
  insert-perm x (y ∷ ys) = elim (Bool-cases (less y x)) [
    | inl before ↦
        rw before (Permᴰ.trans (Permᴰ.cons refl (insert-perm x ys)) (Permᴰ.swap refl refl))
    | inr after ↦ rw after (Permᴰ.refl (x ∷ y ∷ ys))
  ]

  sorted-perm : (xs : List A) → Permᴰ (sorted xs) xs
  sorted-perm [] = Permᴰ.nil
  sorted-perm (x ∷ xs) = Permᴰ.trans (insert-perm x (sorted xs)) (Permᴰ.cons refl (sorted-perm xs))

  module _ (weak : IsWeak less) where
    insert-All : (P : A → Type 0) (x : A) (ys : List A) → P x → All P ys → All P (insert x ys)
    insert-All P x [] h hs = (h, _)
    insert-All P x (y ∷ ys) h hs = elim (Bool-cases (less y x)) [
      | inl before ↦ rw before (hs.0, insert-All P x ys h hs.1)
      | inr after ↦ rw after (h, hs)
    ]

    gap-All :
        (x y : A) (zs : List A)
        → less y x ≡ false
        → All (λ z. less z y ≡ false) zs
        → All (λ z. less z x ≡ false) zs
    gap-All x y [] h hs = _
    gap-All x y (z ∷ zs) h hs = (weak.less_gap z y x hs.0 h, gap-All x y zs h hs.1)

    insert-Placed : (x : A) (ys : List A) → Placed less ys → Placed less (insert x ys)
    insert-Placed x [] h = (_, _)
    insert-Placed x (y ∷ ys) h = elim (Bool-cases (less y x)) [
      | inl before ↦ rw before (
        insert-All (λ z. less z y ≡ false) x ys (weak.less_one_way y x before) h.0,
        insert-Placed x ys h.1,
      )
      | inr after ↦ rw after ((after, gap-All x y ys after h.0), h)
    ]

    sorted-Placed : (xs : List A) → Placed less (sorted xs)
    sorted-Placed [] = _
    sorted-Placed (x ∷ xs) = insert-Placed x (sorted xs) (sorted-Placed xs)

sorted-IsSlice : {A : Type 0} → IsSlice {A = A} sorted
sorted-IsSlice = record {
  slice_permutes = λ less xs. sorted-perm less xs;
  slice_places = λ less weak xs. sorted-Placed less weak xs;
}

read_comments_complete_example :
    read_comments sorted (record { rows = some rows; users = [] }) request 4 (pos 0)
    ≡ map (comment_info []) (comment 3 ∷ comment 2 ∷ comment 1 ∷ [])
unfolding order_by insert_row
read_comments_complete_example =
    read_comments_complete sorted sorted-IsSlice rows [] request
      ((omega arith, (omega arith, _)), ((omega arith, _), (_, _)))
      (omega arith, (omega arith, (omega arith, _)))
