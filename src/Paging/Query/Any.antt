-- ===== src/Paging/Query/Any.antt =====
-- Whether a query finds a row that passes a test.
use gozero_x.Common.{
  ℕ, zero, suc, ◌≡◌, refl, ap, ◌∙◌, true, Bool, ◌||◌, ◌&&◌, List, [], ◌∷◌, map, arith, take, select,
}
use gozero_x.Content.Batch.{any}
use gozero_x.Paging.Query.{Order, insert_row, order_by}

pub any-take :
    {A : Type 0} (p : A → Bool) (n : ℕ) (xs : List A) → any p (take n xs) ≡ true → any p xs ≡ true
any-take p zero xs h = ground (arith, h)
any-take p (suc n) [] h = h
any-take p (suc n) (x ∷ xs) h = ground (arith, h, any-take p n xs)

pub any-map :
    {A B : Type 0} (p : B → Bool) (f : A → B) (xs : List A)
    → any p (map f xs) ≡ any (λ x. p (f x)) xs
any-map p f [] = refl
any-map p f (x ∷ xs) = ap (λ b. p (f x) || b) (any-map p f xs)

pub any-select :
    {A : Type 0} (p q : A → Bool) (xs : List A) → any p (select q xs) ≡ any (λ x. q x && p x) xs
any-select p q [] = refl
any-select p q (x ∷ xs) = ground (arith, any-select p q xs)

module _ {A : Type 0} (order : Order) (time : A → ℕ) where
  pub any-insert_row :
      (p : A → Bool) (x : A) (ys : List A) → any p (insert_row order time x ys) ≡ (p x || any p ys)
  unfolding insert_row
  any-insert_row p x [] = refl
  any-insert_row p x (y ∷ ys) = ground (arith, any-insert_row p x ys)

  pub any-order_by : (p : A → Bool) (xs : List A) → any p (order_by order time xs) ≡ any p xs
  unfolding order_by
  any-order_by p [] = refl
  any-order_by p (x ∷ xs) =
      any-insert_row p x (order_by order time xs) ∙ ap (λ b. p x || b) (any-order_by p xs)
