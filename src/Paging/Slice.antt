-- ===== src/Paging/Slice.antt =====
-- `sort.Slice` of Go, which sortComments of getcommentslogic.go calls, and the order that it leaves.
use mathlib.Core.Path.{subst}
use mathlib.Core.List.Permᴰ
use mathlib.Core.List.{Permᴰ}
use gozero_x.Common.{
  ℕ, ◌≡◌, ◌≢◌, refl, sym, ap, ◌∙◌, true, false, Bool, Bool-cases, inl, inr, ◌||◌, List, [], ◌∷◌,
  arith, ltb, ◌==◌, All, suc, length,
}
use gozero_x.Cache.Comments.{Comment}
use gozero_x.Paging.{sort_comments}
use gozero_x.Paging.Query.{desc, ahead, insert_row, order_by}
use gozero_x.Paging.Query.Ordered.{Different, Ordered}

module _ {A : Type 0} where
  -- A strict weak order, as sort.Slice wants it.
  pub record IsWeak (less : A → A → Bool) : Type 0 where
    pub less_one_way : (x y : A) → less x y ≡ true → less y x ≡ false
    pub less_gap : (x y z : A) → less x y ≡ false → less y z ≡ false → less x z ≡ false

  -- No later entry goes before an earlier one.
  abbrev pub Placed : (A → A → Bool) → List A → Type 0
  Placed less [] = Unit
  Placed less (x ∷ xs) = All (λ y. less y x ≡ false) xs × Placed less xs

  -- The documented behaviour: the entries are permuted, and put in order; entries that are equal in
  -- the order may come in any order.
  pub record IsSlice (slice : (A → A → Bool) → List A → List A) : Type 0 where
    pub slice_permutes : (less : A → A → Bool) (xs : List A) → Permᴰ (slice less xs) xs
    pub slice_places :
        (less : A → A → Bool) → IsWeak less → (xs : List A) → Placed less (slice less xs)

  All-perm : (P : A → Type 0) {xs ys : List A} → Permᴰ xs ys → All P xs → All P ys
  All-perm P Permᴰ.nil h = h
  All-perm P (Permᴰ.cons e p) h = (subst P e h.0, All-perm P p h.1)
  All-perm P (Permᴰ.swap e f) h = (subst P f h.1.0, (subst P e h.0, h.1.1))
  All-perm P (Permᴰ.trans p q) h = All-perm P q (All-perm P p h)

  length-perm : {xs ys : List A} → Permᴰ xs ys → length xs ≡ length ys
  length-perm Permᴰ.nil = refl
  length-perm (Permᴰ.cons e p) = ap suc (length-perm p)
  length-perm (Permᴰ.swap e f) = refl
  length-perm (Permᴰ.trans p q) = length-perm p ∙ length-perm q

  module _ (time : A → ℕ) where
    Different-perm : {xs ys : List A} → Permᴰ xs ys → Different time xs → Different time ys
    Different-perm Permᴰ.nil d = d
    Different-perm (Permᴰ.cons {b = b} {l₂ = l₂} e p) d = (
      subst (λ x. All (λ y. time y ≢ time x) l₂) e (All-perm (λ y. time y ≢ time _) p d.0),
      Different-perm p d.1,
    )
    Different-perm (Permᴰ.swap {a = a} {b = b} {a' = a'} {l = l} e f) d =
        subst (λ z. Different time (a' ∷ z ∷ l)) e
          (subst (λ z. Different time (z ∷ a ∷ l)) f
            (((λ q. d.0.0 (sym q)), d.1.0), (d.0.1, d.1.1)))
    Different-perm (Permᴰ.trans p q) d = Different-perm q (Different-perm p d)

    insert_swap :
        (x y : A) (l : List A)
        → time y ≢ time x
        → insert_row desc time x (insert_row desc time y l)
          ≡ insert_row desc time y (insert_row desc time x l)
    unfolding insert_row
    insert_swap x y [] other = ground arith
    insert_swap x y (z ∷ l) other = ground (arith, insert_swap x y l other)

    -- Where the times differ, the order of the rows of a table does not matter.
    order_by-perm :
        {xs ys : List A}
        → Permᴰ xs ys
        → Different time xs
        → order_by desc time xs ≡ order_by desc time ys
    unfolding order_by
    order_by-perm Permᴰ.nil d = refl
    order_by-perm (Permᴰ.cons {a = a} {l₂ = l₂} e p) d =
        ap (insert_row desc time a) (order_by-perm p d.1)
        ∙ ap (λ x. insert_row desc time x (order_by desc time l₂)) e
    order_by-perm (Permᴰ.swap {a = a} {b = b} {a' = a'} {l = l} e f) d =
        insert_swap a b (order_by desc time l) d.0.0
        ∙ (ap (λ x. insert_row desc time x (insert_row desc time a (order_by desc time l))) f
            ∙ ap (λ x. insert_row desc time a' (insert_row desc time x (order_by desc time l))) e)
    order_by-perm (Permᴰ.trans p q) d = order_by-perm p d ∙ order_by-perm q (Different-perm p d)

    insert_row-first :
        (x : A) (ys : List A)
        → All (λ y. ahead desc (time x) (time y) ≡ true) ys
        → insert_row desc time x ys ≡ x ∷ ys
    unfolding insert_row
    insert_row-first x [] h = refl
    insert_row-first x (y ∷ ys) h = ground (arith, h.0)

    order_by_same : (xs : List A) → Ordered desc time xs → order_by desc time xs ≡ xs
    unfolding order_by
    order_by_same [] o = refl
    order_by_same (x ∷ xs) o =
        ap (insert_row desc time x) (order_by_same xs o.1) ∙ insert_row-first x xs o.0

    abbrev newer : A → A → Bool
    newer x y = ltb (time y) (time x)

    newer-IsWeak : IsWeak newer
    newer-IsWeak = record {
      less_one_way = λ x y h. ground arith;
      less_gap = λ x y z h k. ground arith;
    }

    All-ahead :
        (x : A) (ys : List A)
        → All (λ y. newer y x ≡ false) ys
        → All (λ y. time y ≢ time x) ys
        → All (λ y. ahead desc (time x) (time y) ≡ true) ys
    All-ahead x [] h d = _
    All-ahead x (y ∷ ys) h d = (ground (arith, h.0, d.0), All-ahead x ys h.1 d.1)

    Placed-Ordered : (xs : List A) → Placed newer xs → Different time xs → Ordered desc time xs
    Placed-Ordered [] h d = _
    Placed-Ordered (x ∷ xs) h d = (All-ahead x xs h.0 d.0, Placed-Ordered xs h.1 d.1)

    -- A slice of entries of different times that is sorted by them, the newest first.
    slice_newest :
        (slice : (A → A → Bool) → List A → List A)
        → IsSlice slice
        → (xs : List A) → Different time xs
        → slice newer xs ≡ order_by desc time xs
    slice_newest slice lawful xs d =
        let permuted = lawful.slice_permutes newer xs in
        let different = Different-perm (Permᴰ.symm permuted) d in
        let placed = lawful.slice_places newer newer-IsWeak xs in
        sym (order_by_same (slice newer xs) (Placed-Ordered (slice newer xs) placed different))
        ∙ order_by-perm permuted different

-- Comments of different times are sorted the newest first, whatever sort the request asks for.
pub sort_comments_newest :
    (slice : (Comment → Comment → Bool) → List Comment → List Comment)
    → IsSlice slice
    → (sort_type : ℕ) (cs : List Comment) → Different (λ c. c.created_at) cs
    → sort_comments slice sort_type cs ≡ order_by desc (λ c. c.created_at) cs
unfolding sort_comments
sort_comments_newest slice lawful sort_type cs d =
    let sorted = slice_newest (λ (c : Comment). c.created_at) slice lawful cs d in
    elim (Bool-cases (sort_type == 0 || sort_type == 1)) [
      | inl known ↦ rw known sorted
      | inr other ↦ rw other sorted
    ]

pub length-sort_comments :
    (slice : (Comment → Comment → Bool) → List Comment → List Comment)
    → IsSlice slice
    → (sort_type : ℕ) (cs : List Comment) → length (sort_comments slice sort_type cs) ≡ length cs
unfolding sort_comments
length-sort_comments slice lawful sort_type cs =
    let kept = length-perm (lawful.slice_permutes (λ c d. ltb d.created_at c.created_at) cs) in
    elim (Bool-cases (sort_type == 0 || sort_type == 1)) [
      | inl known ↦ rw known kept
      | inr other ↦ rw other kept
    ]
