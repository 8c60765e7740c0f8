-- ===== src/Paging/Query.antt =====
-- Queries `SELECT … WHERE … ORDER BY time LIMIT n` of the services, with a cursor on the time.
pub mod Ordered
pub mod Read
pub mod Any
use gozero_x.Common.{ℕ, Bool, false, ◌&&◌, List, [], ◌∷◌, ltb, ◌==◌, if◌then◌else◌, take, select}
use gozero_x.Common.Int.{ℤ, pos, negsuc, ltb_ℤ}

pub data Order : Type 0 where
  asc desc : Order

-- Whether a time comes strictly before another one.
abbrev pub ahead : Order → ℕ → ℕ → Bool
ahead asc m n = ltb m n
ahead desc m n = ltb n m

abbrev pub is_zero : ℤ → Bool
is_zero (pos n) = n == 0
is_zero (negsuc n) = false

-- `time > cursor` or `time < cursor`
abbrev pub beyond : Order → ℤ → ℕ → Bool
beyond asc cursor t = ltb_ℤ cursor (pos t)
beyond desc cursor t = ltb_ℤ (pos t) cursor

module _ {A : Type 0} (order : Order) (time : A → ℕ) where
  -- `ORDER BY`; of rows of one time, which SQL leaves open, the earlier row of the table is first.
  unfoldable pub insert_row : A → List A → List A
  insert_row x [] = x ∷ []
  insert_row x (y ∷ ys) =
      let rest = insert_row x ys in if ahead order (time y) (time x) then y ∷ rest else x ∷ y ∷ ys

  unfoldable pub order_by : List A → List A
  order_by [] = []
  order_by (x ∷ xs) = insert_row x (order_by xs)

  -- The rows beyond a cursor, or all the rows for the cursor 0.
  unfoldable pub from_cursor : (A → Bool) → ℤ → List A → List A
  from_cursor test cursor rows =
      if is_zero cursor
      then select test rows
      else select (λ x. test x && beyond order cursor (time x)) rows
