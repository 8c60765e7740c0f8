-- ===== src/Json/Exact.antt =====
-- Which integers survive the float64 of a decoded message.
use gozero_x.Common.{ℕ, ◌+◌, ◌*◌, ◌^◌, ◌≤◌, ◌<◌, ◌≡◌, arith}
use gozero_x.Json.{float64, int, deliver, to_int64, Survives}

pub float64-exact : (n : ℕ) → n < 2 ^ 53 → Survives n
unfolding float64
float64-exact n h = ground arith

-- An integer below 2^53 arrives as it was sent. From 2^54 to 2^63 a multiple of 2^12, such as an id
-- with sequence 0, arrives as it was sent too, but the number after it, which is the next id of the
-- same millisecond, arrives as the same number.
pub to_int64-deliver :
    (n m : ℕ)
    → n < 2 ^ 53
    → 2 ^ 54 ≤ m * 2 ^ 12
    → m * 2 ^ 12 < 2 ^ 63
    → (to_int64 (deliver (int n)) ≡ n)
      × (to_int64 (deliver (int (m * 2 ^ 12))) ≡ m * 2 ^ 12)
      × (to_int64 (deliver (int (m * 2 ^ 12 + 1))) ≡ m * 2 ^ 12)
unfolding to_int64 deliver float64
to_int64-deliver n m small low high = (float64-exact n small, ground arith, ground arith)
