-- ===== src/Idgen/Waiting.antt =====
-- The wait for the next millisecond ends.
use gozero_x.Common.{ℕ, zero, suc, ◌+◌, ◌<◌, ◌≡◌, ◌≢◌, refl, Option, none, some, arith}
use native.Mathlib.Nat.{add-zero}
use gozero_x.Idgen.{Snowflake, spinning, spin, emit, emit_later, next_id, gen_id}

spin_ends :
    (clock : ℕ → ℕ) (k fuel i now timestamp : ℕ)
    → timestamp < clock (i + k)
    → k + 1 < fuel
    → spin clock fuel i now timestamp ≢ none
unfolding spin
spin_ends clock k zero i now timestamp late h = absurd (omega arith)
spin_ends clock zero (suc zero) i now timestamp late h = absurd (omega arith)
spin_ends clock zero (suc (suc fuel)) i now timestamp late h = ground (arith, spin_again)
  where
    spin_again : timestamp < clock i
    spin_again = rw (add-zero i) at late
spin_ends clock (suc k) (suc fuel) i now timestamp late h =
    ground (arith, spin_ends clock k fuel (suc i) (clock i) timestamp later (omega arith))
  where
    later : timestamp < clock (suc i + k)
    later = rw (let e : i + suc k ≡ suc i + k = omega arith in e) at late

emit_later_ends :
    (clock : ℕ → ℕ) (s : Snowflake) (o : Option (ℕ × ℕ)) (i : ℕ)
    → o ≢ none
    → (emit_later clock s o i).outcome ≢ spinning
unfolding emit_later emit
emit_later_ends clock s none i h = absurd (h refl)
emit_later_ends clock s (some (now, j)) i h = ground arith

-- A call that finds the sequence used up returns as soon as the clock passes the last timestamp:
-- if that happens `k` readings after the call's first, fuel for `k + 2` rounds is enough.
pub gen_id_returns :
    (clock : ℕ → ℕ) (k fuel i : ℕ) (s : Snowflake)
    → s.timestamp < clock (suc i + k)
    → k + 1 < fuel
    → (gen_id clock fuel (some s) i).outcome ≢ spinning
unfolding gen_id next_id emit
gen_id_returns clock k fuel i s late h = ground (
  arith,
  emit_later_ends clock s (spin clock fuel (suc i) (clock i) s.timestamp) (suc i)
      (spin_ends clock k fuel (suc i) (clock i) s.timestamp late h),
)
