-- ===== src/Idgen/Bits.antt =====
-- `|` of disjoint bit fields and `&` with a mask of ones, as sums and remainders: what the shifts
-- and masks of pkg/idgen/snowflake.go compute.
use Prim.Native.Nat.{min, max, digits, bit_and, bit_or, bit_and-bitwise, bit_or-bitwise}
use mathlib.Core.WellFounded
use native.Mathlib.Nat.{pow-suc, one-le-pow}
use gozero_x.Common.{ℕ, zero, suc, ◌+◌, ◌-◌, ◌*◌, ◌/◌, ◌%◌, ◌^◌, ◌≤◌, ◌<◌, ◌≡◌, refl, ap, arith}
use gozero_x.Common.Order.{lt_wf}

-- The recursion behind the native operations has fuel: any amount from the first number on serves.
module _ (rest : ℕ → ℕ) (digit : ℕ → ℕ → ℕ) where
  digits-eq : (f g a b : ℕ) → a ≤ f → a ≤ g → digits rest digit f a b ≡ digits rest digit g a b
  digits-eq zero zero a b _ _ = refl
  digits-eq (suc f) zero zero b _ _ = refl
  digits-eq (suc f) zero (suc a) b _ q = elim q [ ]
  digits-eq zero (suc g) zero b _ _ = refl
  digits-eq zero (suc g) (suc a) b p _ = elim p [ ]
  digits-eq (suc f) (suc g) zero b _ _ = refl
  digits-eq (suc f) (suc g) (suc a) b p q =
      rw (digits-eq f g (suc a / 2) (b / 2) (omega arith) (omega arith))

-- One binary digit of `|` and of `&`.
or_digit : (a b : ℕ) → bit_or a b ≡ bit_or (a / 2) (b / 2) * 2 + max (a % 2) (b % 2)
or_digit zero b = rw (bit_or-bitwise 0 b, bit_or-bitwise 0 (b / 2)) (omega arith)
or_digit (suc a) b =
    rw (bit_or-bitwise (suc a) b, bit_or-bitwise (suc a / 2) (b / 2))
      (omega (
        arith,
        digits-eq (λ y. y) max a (suc a / 2) (suc a / 2) (b / 2) (omega arith) (omega arith),
      ))

and_digit : (a b : ℕ) → bit_and a b ≡ bit_and (a / 2) (b / 2) * 2 + min (a % 2) (b % 2)
and_digit zero b = rw (bit_and-bitwise 0 b, bit_and-bitwise 0 (b / 2)) (omega arith)
and_digit (suc a) b =
    rw (bit_and-bitwise (suc a) b, bit_and-bitwise (suc a / 2) (b / 2))
      (omega (
        arith,
        digits-eq (λ y. 0) min a (suc a / 2) (suc a / 2) (b / 2) (omega arith) (omega arith),
      ))

bit_or-zero : (a : ℕ) → bit_or a 0 ≡ a
bit_or-zero n = WellFounded.induction lt_wf {C = λ a. bit_or a 0 ≡ a} n at
  where
    at : (a : ℕ) → ((m : ℕ) → m < a → bit_or m 0 ≡ m) → bit_or a 0 ≡ a
    at zero below = refl
    at (suc a) below = omega (arith, or_digit (suc a) 0, below (suc a / 2) (omega arith))

bit_and-zero : (a : ℕ) → bit_and a 0 ≡ 0
bit_and-zero n = WellFounded.induction lt_wf {C = λ a. bit_and a 0 ≡ 0} n at
  where
    at : (a : ℕ) → ((m : ℕ) → m < a → bit_and m 0 ≡ 0) → bit_and a 0 ≡ 0
    at zero below = refl
    at (suc a) below = omega (arith, and_digit (suc a) 0, below (suc a / 2) (omega arith))

shift-suc : (q k : ℕ) → q * 2 ^ suc k ≡ 2 * (q * 2 ^ k)
shift-suc q k = omega (arith, ap (λ (t : ℕ). q * t) (pow-suc 2 k))

-- A low field that fits its `k` bits is added by `|`.
pub bit_or-shift : (k q r : ℕ) → r < 2 ^ k → bit_or (q * 2 ^ k) r ≡ q * 2 ^ k + r
bit_or-shift zero q r h = ground (arith, bit_or-zero q)
bit_or-shift (suc k) q r h = ground (
  arith,
  shift-suc q k,
  or_digit (q * 2 ^ suc k) r,
  bit_or-shift k q (r / 2) (omega (arith, pow-suc 2 k)),
)

-- A mask of `k` ones keeps the remainder by 2 ^ k.
low_ones : (k q r : ℕ) → r < 2 ^ k → bit_and (q * 2 ^ k + r) (2 ^ k - 1) ≡ r
low_ones zero q r h = rw bit_and-zero (omega arith)
low_ones (suc k) q r h = ground (
  arith,
  shift-suc q k,
  pow-suc 2 k,
  one-le-pow k 2,
  and_digit (q * 2 ^ suc k + r) (2 ^ suc k - 1),
  low_ones k q (r / 2) (omega (arith, pow-suc 2 k)),
)

pub bit_and-ones : (k a : ℕ) → bit_and a (2 ^ k - 1) ≡ a % 2 ^ k
bit_and-ones k a = ground (arith, one-le-pow k 2, low_ones k (a / 2 ^ k) (a % 2 ^ k))
