-- ===== src/Paging/Query/Read.antt =====
-- Reading the rows of a query page by page.
use gozero_x.Common.{ℕ, suc, ◌≡◌, ◌≢◌, ap, ◌∙◌, Bool, List, map, length, take, select, All}
use gozero_x.Common.Int.{ℤ, pos}
use gozero_x.Paging.Reading.{read, read_complete}
use gozero_x.Paging.Query.{Order, beyond, order_by, from_cursor}
use gozero_x.Paging.Query.Ordered.{
  Different, order_by-Ordered, order_by-All, from_cursor-page, Ordered-Chain,
}

-- Pages of queries for rows with different times, none of them 0, show all of the rows, each once and
-- in order; one page more than there are rows is enough.
module _ {A B : Type 0} (order : Order) (time : A → ℕ) (test : A → Bool) (rows : List A)
    (shown : B → ℕ) (f : A → B) (pages : ℤ → List B) (limit : ℕ) where
  pub read-query :
      ((x : A) → shown (f x) ≡ time x)
      → limit ≢ 0
      → ((n : ℕ)
          → pages (pos n)
            ≡ map f (take limit (order_by order time (from_cursor order time test (pos n) rows))))
      → Different time (select test rows)
      → All (λ x. time x ≢ 0) (select test rows)
      → let sorted = order_by order time (select test rows) in
        read shown pages (suc (length sorted)) (pos 0) ≡ map f sorted
  read-query same some_limit paged different times =
      let sorted = order_by order time (select test rows) in
      read_complete (λ c x. beyond order c (time x)) time shown f pages sorted same limit some_limit
        (λ n. paged n ∙ ap (map f) (from_cursor-page order time test limit n rows different))
        (Ordered-Chain order time limit sorted
          (order_by-Ordered order time (select test rows) different))
        (order_by-All order time (λ x. time x ≢ 0) (select test rows) times)
