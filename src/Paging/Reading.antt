-- ===== src/Paging/Reading.antt =====
-- Reading a list page by page, as a client does: each page from the time of the last entry on.
use gozero_x.Common.{
  ℕ, zero, suc, ◌≡◌, ◌≢◌, refl, sym, ap, ◌∙◌, Bool, Option, none, some, List, [], ◌∷◌, ◌++◌, map,
  length, All,
}
use gozero_x.Common.Int.{ℤ, pos}
use gozero_x.Paging.{cursor_page}
use gozero_x.Paging.Walk.{walk, last, Chain, walk_complete}

-- `pages` is what a client sees for a cursor. Reading ends with a page that is empty.
unfoldable pub read : {B : Type 0} → (B → ℕ) → (ℤ → List B) → ℕ → ℤ → List B
read time pages zero cursor = []
read time pages (suc fuel) cursor =
    let page = pages cursor in
    page ++ (elim (last page) [ none ↦ [] | some b ↦ read time pages fuel (pos (time b)) ])

map-append : {A B : Type 0} (f : A → B) (xs ys : List A) → map f (xs ++ ys) ≡ map f xs ++ map f ys
map-append f [] ys = refl
map-append f (x ∷ xs) ys = ap (λ l. f x ∷ l) (map-append f xs ys)

abbrev on_some : {A B : Type 0} → (A → B) → Option A → Option B
on_some f none = none
on_some f (some x) = some (f x)

last-map : {A B : Type 0} (f : A → B) (xs : List A) → last (map f xs) ≡ on_some f (last xs)
last-map f [] = refl
last-map f (x ∷ []) = refl
last-map f (x ∷ y ∷ ys) = last-map f (y ∷ ys)

module _ {A B : Type 0} (starts : ℤ → A → Bool) (time : A → ℕ) (shown : B → ℕ) (f : A → B)
    (pages : ℤ → List B) (xs : List A) (same : (x : A) → shown (f x) ≡ time x) where
  module _ (limit : ℕ)
      (paged : (n : ℕ) → pages (pos n) ≡ map f (cursor_page starts limit (pos n) xs)) where
    -- One step of reading, of the last entry of the page.
    resume-walk :
        (fuel : ℕ) (o : Option A)
        → ((n : ℕ) → read shown pages fuel (pos n) ≡ map f (walk starts time limit fuel (pos n) xs))
        → (elim (on_some f o) as (λ x. List B) [
          | none ↦ []
          | some b ↦ read shown pages fuel (pos (shown b))
        ])
          ≡ map f (elim o as (λ x. List A) [
            | none ↦ []
            | some x ↦ walk starts time limit fuel (pos (time x)) xs
          ])
    resume-walk fuel none h = refl
    resume-walk fuel (some x) h = rw (same x) (h (time x))

    read-walk :
        (fuel n : ℕ)
        → read shown pages fuel (pos n) ≡ map f (walk starts time limit fuel (pos n) xs)
    unfolding read walk
    read-walk zero n = refl
    read-walk (suc fuel) n =
        rw
          (
            paged n,
            last-map f (cursor_page starts limit (pos n) xs),
            resume-walk fuel (last (cursor_page starts limit (pos n) xs)) (read-walk fuel),
          )
          (sym (map-append f (cursor_page starts limit (pos n) xs) _))

  -- Pages of at least one entry that are cursor pages of entries with different times, none of them 0,
  -- show all of them, each once and in order; one page more than there are entries is enough.
  pub read_complete :
      (limit : ℕ)
      → limit ≢ 0
      → ((n : ℕ) → pages (pos n) ≡ map f (cursor_page starts limit (pos n) xs))
      → Chain starts time limit xs
      → All (λ x. time x ≢ 0) xs
      → read shown pages (suc (length xs)) (pos 0) ≡ map f xs
  read_complete zero some_limit paged chain times = absurd (some_limit refl)
  read_complete (suc less) some_limit paged chain times =
      read-walk (suc less) paged (suc (length xs)) 0
      ∙ ap (map f) (walk_complete starts time less xs chain times)
