-- ===== src/Paging/Walk.antt =====
-- Cursor pages read in a row.
use gozero_x.Common.{
  some_inj, ℕ, zero, suc, ◌≡◌, ◌≢◌, ◌≤◌, refl, sym, ap, ◌∙◌, true, false, Bool, Option, none, some,
  List, [], ◌∷◌, ◌++◌, arith, length, take, drop, All, take-append-drop, length-drop,
}
use gozero_x.Common.Int.{ℤ, pos}
use mathlib.Core.Path.{subst}
use gozero_x.Paging.{start_idx, slice_from, cursor_page}

-- The last entry of a page, whose time is the next cursor.
abbrev pub last : {A : Type 0} → List A → Option A
last [] = none
last (x ∷ []) = some x
last (x ∷ y ∷ ys) = last (y ∷ ys)

abbrev IfSome : {A : Type 0} → Type 0 → Option A → Type 0
IfSome P none = Unit
IfSome P (some x) = P

none_some : {A P : Type 0} {x : A} → none ≡ some x → P
none_some {A} {P} e = subst (IfSome {A = A} P) e _

module _ {A : Type 0} (starts : ℤ → A → Bool) (time : A → ℕ) (limit : ℕ) where
  -- Pages read in a row, each from the time of the last entry on, until a page is empty.
  unfoldable pub walk : ℕ → ℤ → List A → List A
  walk zero cursor xs = []
  walk (suc fuel) cursor xs =
      let page = cursor_page starts limit cursor xs in
      page ++ (elim (last page) [ none ↦ [] | some x ↦ walk fuel (pos (time x)) xs ])

  -- The first entries lie before a cursor and the others beyond it.
  abbrev Splits : ℤ → List A → List A → Type 0
  Splits cursor pre rest =
      All (λ x. starts cursor x ≡ false) pre × All (λ x. starts cursor x ≡ true) rest

  -- Each entry is before itself and the later ones, and they are beyond it.
  abbrev pub Chain : List A → Type 0
  Chain [] = Unit
  Chain (x ∷ xs) =
      (starts (pos (time x)) x ≡ false)
      × All (λ y. starts (pos (time x)) y ≡ true) xs
      × All (λ y. starts (pos (time y)) x ≡ false) xs
      × Chain xs

  start_idx-split :
      (cursor : ℤ) (pre : List A) (r : A) (rest : List A)
      → Splits cursor pre (r ∷ rest)
      → start_idx (starts cursor) (pre ++ (r ∷ rest)) ≡ some (length pre)
  unfolding start_idx
  start_idx-split cursor [] r rest h = rw (h.1.0) refl
  start_idx-split cursor (x ∷ pre) r rest h =
      rw (h.0.0, start_idx-split cursor pre r rest (h.0.1, h.1)) refl

  start_idx-none :
      (cursor : ℤ) (pre : List A)
      → All (λ x. starts cursor x ≡ false) pre
      → start_idx (starts cursor) (pre ++ []) ≡ none
  unfolding start_idx
  start_idx-none cursor [] h = refl
  start_idx-none cursor (x ∷ pre) h = rw (h.0, start_idx-none cursor pre h.1) refl

  drop-append : (pre rest : List A) → drop (length pre) (pre ++ rest) ≡ rest
  drop-append [] rest = refl
  drop-append (x ∷ pre) rest = drop-append pre rest

  take_none : (n : ℕ) → take {A = A} n [] ≡ []
  take_none zero = refl
  take_none (suc n) = refl

  slice-split :
      (cursor : ℤ) (pre rest : List A)
      → Splits cursor pre rest
      → slice_from (starts cursor) limit (pre ++ rest) (start_idx (starts cursor) (pre ++ rest))
        ≡ take limit rest
  unfolding slice_from
  slice-split cursor pre [] h = rw (start_idx-none cursor pre h.0) (sym (take_none limit))
  slice-split cursor pre (r ∷ rest) h =
      rw (start_idx-split cursor pre r rest h, drop-append pre (r ∷ rest)) refl

  page-split :
      (n : ℕ) (pre rest : List A)
      → n ≢ 0
      → Splits (pos n) pre rest
      → cursor_page starts limit (pos n) (pre ++ rest) ≡ take limit rest
  unfolding cursor_page
  page-split n pre rest nonzero h = ground (arith, slice-split (pos n) pre rest h)

  All-last :
      (P : A → Type 0) (zs rest : List A) (x : A) → All P (zs ++ rest) → last zs ≡ some x → P x
  All-last P [] rest x h e = none_some e
  All-last P (z ∷ []) rest x h e = subst P (some_inj z x e) h.0
  All-last P (z ∷ w ∷ zs) rest x h e = All-last P (w ∷ zs) rest x h.1 e

  Chain-split :
      (pre rest : List A) (x : A)
      → Chain (pre ++ rest)
      → last pre ≡ some x
      → Splits (pos (time x)) pre rest
  Chain-split [] rest x h e = none_some e
  Chain-split (y ∷ []) rest x h e =
      subst (λ w. Splits (pos (time w)) (y ∷ []) rest) (some_inj y x e) ((h.0, _), h.1)
  Chain-split (y ∷ z ∷ pre) rest x h e =
      let (before, beyond) = Chain-split (z ∷ pre) rest x h.3 e in
      ((All-last (λ w. starts (pos (time w)) y ≡ false) (z ∷ pre) rest x h.2 e, before), beyond)

  last-append : (pre page : List A) (x : A) → last page ≡ some x → last (pre ++ page) ≡ some x
  last-append [] page x e = e
  last-append (y ∷ []) [] x e = none_some e
  last-append (y ∷ []) (z ∷ page) x e = e
  last-append (y ∷ z ∷ pre) page x e = last-append (z ∷ pre) page x e

  last-cons : (x : A) (xs : List A) → (y : A) × (last (x ∷ xs) ≡ some y)
  last-cons x [] = (x, refl)
  last-cons x (y ∷ ys) = last-cons y ys

  ++_assoc : (xs ys zs : List A) → xs ++ (ys ++ zs) ≡ (xs ++ ys) ++ zs
  ++_assoc [] ys zs = refl
  ++_assoc (x ∷ xs) ys zs = ap (λ l. x ∷ l) (++_assoc xs ys zs)

module _ {A : Type 0} (starts : ℤ → A → Bool) (time : A → ℕ) (less : ℕ) where
  -- Reading on from where the cursor page starts.
  walk-rest :
      (fuel : ℕ) (pre rest : List A) (cursor : ℤ)
      → length rest ≤ fuel
      → Chain starts time (suc less) (pre ++ rest)
      → All (λ x. time x ≢ 0) (pre ++ rest)
      → cursor_page starts (suc less) cursor (pre ++ rest) ≡ take (suc less) rest
      → walk starts time (suc less) (suc fuel) cursor (pre ++ rest) ≡ rest
  unfolding walk
  walk-rest fuel pre [] cursor h chain times page = rw (page) refl
  walk-rest zero pre (r ∷ rs) cursor h chain times page = elim h [ ]
  walk-rest (suc fuel) pre (r ∷ rs) cursor h chain times page =
      let (x, is_last) = last-cons starts time (suc less) r (take less rs) in
      let pre' = pre ++ (r ∷ take less rs) in
      let same : pre' ++ drop less rs ≡ pre ++ (r ∷ rs) =
        sym (++_assoc starts time (suc less) pre (r ∷ take less rs) (drop less rs))
        ∙ ap (λ l. pre ++ (r ∷ l)) (take-append-drop less rs) in
      let chain' = subst (Chain starts time (suc less)) (sym same) chain in
      let times' = subst (All (λ y. time y ≢ 0)) (sym same) times in
      let last' = last-append starts time (suc less) pre (r ∷ take less rs) x is_last in
      let page' =
        page-split starts time (suc less) (time x) pre' (drop less rs)
          (All-last starts time (suc less) (λ y. time y ≢ 0) pre' (drop less rs) x times' last')
          (Chain-split starts time (suc less) pre' (drop less rs) x chain' last') in
      let tail =
        ap (walk starts time (suc less) (suc fuel) (pos (time x))) (sym same)
        ∙ walk-rest fuel pre' (drop less rs) (pos (time x)) (omega (arith, length-drop less rs))
            chain' times' page' in
      rw (page, is_last)
        (ap (λ l. r ∷ (take less rs ++ l)) tail ∙ ap (λ l. r ∷ l) (take-append-drop less rs))

  -- Where the entries have different times, none of them 0, pages of at least one entry that are read
  -- in a row, each from the time of the last entry of the one before, are together the whole list,
  -- each entry once and in order; one page more than there are entries is enough.
  pub walk_complete :
      (xs : List A)
      → Chain starts time (suc less) xs
      → All (λ x. time x ≢ 0) xs
      → walk starts time (suc less) (suc (length xs)) (pos 0) xs ≡ xs
  unfolding cursor_page
  walk_complete xs chain times = walk-rest (length xs) [] xs (pos 0) (omega arith) chain times refl
