-- ===== src/Paging/Query/Ordered.antt =====
-- What ORDER BY and a cursor do to the rows of a table.
use gozero_x.Common.{
  ℕ, zero, suc, ◌≡◌, ◌≢◌, refl, ap, ◌∙◌, true, false, Bool, Bool-cases, Option-cases, inl, inr,
  ◌&&◌, List, [], ◌∷◌, arith, if◌then◌else◌, take, select, length, All,
}
use gozero_x.Common.Int.{ℤ, pos}
use gozero_x.Paging.{start_idx, slice_from, cursor_page}
use gozero_x.Paging.Walk.{Chain}
use gozero_x.Paging.Query.{Order, asc, desc, ahead, beyond, insert_row, order_by, from_cursor}

pub select-and :
    {A : Type 0} (p q : A → Bool) (xs : List A)
    → select (λ x. p x && q x) xs ≡ select q (select p xs)
select-and p q [] = refl
select-and p q (x ∷ xs) = ground (arith, select-and p q xs)

ahead_step :
    (order : Order) (a b c : ℕ)
    → ahead order a b ≡ true
    → ahead order b c ≡ true
    → ahead order a c ≡ true
ahead_step asc a b c h k = ground arith
ahead_step desc a b c h k = ground arith

ahead_total : (order : Order) (a b : ℕ) → a ≢ b → ahead order a b ≡ false → ahead order b a ≡ true
ahead_total asc a b h k = ground arith
ahead_total desc a b h k = ground arith

-- A cursor is at a time or before it: what is beyond it goes on with the later times.
beyond_up :
    (order : Order) (c : ℤ) (a b : ℕ)
    → beyond order c a ≡ true
    → ahead order b a ≡ false
    → beyond order c b ≡ true
beyond_up asc c a b h k = ground arith
beyond_up desc c a b h k = ground arith

beyond_after :
    (order : Order) (c : ℤ) (a b : ℕ)
    → beyond order c a ≡ true
    → ahead order a b ≡ true
    → beyond order c b ≡ true
beyond_after asc c a b h k = ground arith
beyond_after desc c a b h k = ground arith

beyond_time :
    (order : Order) (a b : ℕ)
    → ahead order a b ≡ true
    → (beyond order (pos a) b ≡ true) × (beyond order (pos b) a ≡ false)
beyond_time asc a b h = (ground arith, ground arith)
beyond_time desc a b h = (ground arith, ground arith)

beyond_self : (order : Order) (a : ℕ) → beyond order (pos a) a ≡ false
beyond_self asc a = ground arith
beyond_self desc a = ground arith

-- No two rows have the same time.
abbrev pub Different : {A : Type 0} → (A → ℕ) → List A → Type 0
Different time [] = Unit
Different time (x ∷ xs) = All (λ y. time y ≢ time x) xs × Different time xs

module _ {A : Type 0} (order : Order) (time : A → ℕ) where
  length-insert_row : (x : A) (ys : List A) → length (insert_row order time x ys) ≡ suc (length ys)
  unfolding insert_row
  length-insert_row x [] = refl
  length-insert_row x (y ∷ ys) = ground (arith, length-insert_row x ys)

  pub length-order_by : (xs : List A) → length (order_by order time xs) ≡ length xs
  unfolding order_by
  length-order_by [] = refl
  length-order_by (x ∷ xs) =
      length-insert_row x (order_by order time xs) ∙ ap suc (length-order_by xs)

  -- Every row comes strictly before the later ones.
  abbrev pub Ordered : List A → Type 0
  Ordered [] = Unit
  Ordered (x ∷ xs) = All (λ y. ahead order (time x) (time y) ≡ true) xs × Ordered xs

  insert_row-All :
      (P : A → Type 0) (x : A) (ys : List A) → P x → All P ys → All P (insert_row order time x ys)
  unfolding insert_row
  insert_row-All P x [] h hs = (h, _)
  insert_row-All P x (y ∷ ys) h hs = elim (Bool-cases (ahead order (time y) (time x))) [
    | inl before ↦ rw (before) (hs.0, insert_row-All P x ys h hs.1)
    | inr after ↦ rw (after) (h, hs)
  ]

  pub order_by-All : (P : A → Type 0) (xs : List A) → All P xs → All P (order_by order time xs)
  unfolding order_by
  order_by-All P [] h = _
  order_by-All P (x ∷ xs) h =
      insert_row-All P x (order_by order time xs) h.0 (order_by-All P xs h.1)

  ahead_trans :
      (x y : A) (zs : List A)
      → ahead order (time x) (time y) ≡ true
      → All (λ z. ahead order (time y) (time z) ≡ true) zs
      → All (λ z. ahead order (time x) (time z) ≡ true) zs
  ahead_trans x y [] h hs = _
  ahead_trans x y (z ∷ zs) h hs =
      (ahead_step order (time x) (time y) (time z) h hs.0, ahead_trans x y zs h hs.1)

  insert_row-Ordered :
      (x : A) (ys : List A)
      → All (λ y. time y ≢ time x) ys
      → Ordered ys
      → Ordered (insert_row order time x ys)
  unfolding insert_row
  insert_row-Ordered x [] other h = (_, _)
  insert_row-Ordered x (y ∷ ys) other h = elim (Bool-cases (ahead order (time y) (time x))) [
    | inl before ↦ rw (before) (
      insert_row-All (λ z. ahead order (time y) (time z) ≡ true) x ys before h.0,
      insert_row-Ordered x ys other.1 h.1,
    )
    | inr after ↦
        let first = ahead_total order (time y) (time x) other.0 after in
        rw (after) ((first, ahead_trans x y ys first h.0), h)
  ]

  pub order_by-Ordered : (xs : List A) → Different time xs → Ordered (order_by order time xs)
  unfolding order_by
  order_by-Ordered [] h = _
  order_by-Ordered (x ∷ xs) h =
      insert_row-Ordered x (order_by order time xs) (order_by-All (λ y. time y ≢ time x) xs h.0)
        (order_by-Ordered xs h.1)

  module _ (c : ℤ) where
    abbrev on : A → Bool
    on x = beyond order c (time x)

    select-insert_row :
        (x : A) (ys : List A)
        → select on (insert_row order time x ys)
          ≡ (if on x then insert_row order time x (select on ys) else select on ys)
    unfolding insert_row
    select-insert_row x [] = ground arith
    select-insert_row x (y ∷ ys) = elim (Bool-cases (ahead order (time y) (time x))) [
      | inl before ↦ rw before (ground (arith, select-insert_row x ys, before))
      | inr after ↦ rw after (ground (arith, beyond_up order c (time x) (time y), after))
    ]

    pub select-order_by :
        (xs : List A) → order_by order time (select on xs) ≡ select on (order_by order time xs)
    unfolding order_by
    select-order_by [] = refl
    select-order_by (x ∷ xs) =
        ground (arith, select-order_by xs, select-insert_row x (order_by order time xs))

    -- Of rows in order, those beyond a cursor are the ones from the first such row on.
    Ordered-on : (x : A) (xs : List A) → on x ≡ true → Ordered (x ∷ xs) → select on xs ≡ xs
    Ordered-on x [] h o = refl
    Ordered-on x (y ∷ ys) h o =
        let next = beyond_after order c (time x) (time y) h o.0.0 in
        rw (next) (ap (λ l. y ∷ l) (Ordered-on y ys next o.1))

    slice-skip :
        (limit : ℕ) (x : A) (xs : List A)
        → on x ≡ false
        → slice_from on limit (x ∷ xs) (start_idx on (x ∷ xs))
          ≡ slice_from on limit xs (start_idx on xs)
    unfolding start_idx slice_from
    slice-skip limit x xs h = rw (h) (elim (Option-cases (start_idx on xs)) [
      | inl absent ↦ rw (absent) refl
      | inr (i, at) ↦ rw (at) refl
    ])

    slice-select :
        (limit : ℕ) (xs : List A)
        → Ordered xs
        → slice_from on limit xs (start_idx on xs) ≡ take limit (select on xs)
    unfolding start_idx slice_from
    slice-select zero [] o = refl
    slice-select (suc limit) [] o = refl
    slice-select limit (x ∷ xs) o = elim (Bool-cases (on x)) [
      | inl first ↦ rw (first, Ordered-on x xs first o) refl
      | inr behind ↦ slice-skip limit x xs behind ∙ (slice-select limit xs o.1 ∙ rw (behind) refl)
    ]

  -- A query from a cursor on gives the page that a cursor page of all the rows in order gives.
  pub from_cursor-page :
      (test : A → Bool) (limit n : ℕ) (rows : List A)
      → Different time (select test rows)
      → take limit (order_by order time (from_cursor order time test (pos n) rows))
        ≡ cursor_page
            (λ c x. beyond order c (time x))
            limit
            (pos n)
            (order_by order time (select test rows))
  unfolding from_cursor cursor_page
  from_cursor-page test limit n rows d = ground (
    arith,
    ap (λ l. take limit (order_by order time l))
        (select-and test (λ x. beyond order (pos n) (time x)) rows),
    ap (take limit) (select-order_by (pos n) (select test rows)),
    slice-select (pos n) limit (order_by order time (select test rows))
        (order_by-Ordered (select test rows) d),
  )

  before-All :
      (x : A) (xs : List A)
      → All (λ y. ahead order (time x) (time y) ≡ true) xs
      → All (λ y. beyond order (pos (time x)) (time y) ≡ true) xs
        × All (λ y. beyond order (pos (time y)) (time x) ≡ false) xs
  before-All x [] h = (_, _)
  before-All x (y ∷ ys) h =
      let (after, before) = before-All x ys h.1 in
      let (later, earlier) = beyond_time order (time x) (time y) h.0 in
      ((later, after), (earlier, before))

  pub Ordered-Chain :
      (limit : ℕ) (xs : List A) → Ordered xs → Chain (λ c x. beyond order c (time x)) time limit xs
  Ordered-Chain limit [] o = _
  Ordered-Chain limit (x ∷ xs) o =
      let (after, before) = before-All x xs o.0 in
      (beyond_self order (time x), after, before, Ordered-Chain limit xs o.1)
