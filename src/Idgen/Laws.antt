-- ===== src/Idgen/Laws.antt =====
-- What an id is made of, and when `Init` and `GenID` fail.
use Prim.Native.Nat.{bit_or}
use gozero_x.Common.{
  ℕ, ◌+◌, ◌-◌, ◌*◌, ◌/◌, ◌%◌, ◌^◌, ◌≤◌, ◌<◌, ◌≡◌, ◌∙◌, refl, none, some, arith, lt→ltb,
}
use gozero_x.Common.Int.{ℤ, pos, negsuc}
use gozero_x.Idgen.Bits.{bit_or-shift}
use gozero_x.Idgen.{
  epoch, max_worker_id, fresh, Snowflake, init, init_once, pack, err, clock_moved_back,
  worker_id_out_of_range, not_initialized, gen_id, next_id,
}

-- A clock reading for which the timestamp fits its 41 bits: from 2024 to 2093.
abbrev pub InRange : ℕ → Type 0
InRange t = (epoch ≤ t) × (t < epoch + 2 ^ 41)

pub record IsValid (s : Snowflake) : Type 0 where
  pub worker_fits : s.worker_id < 2 ^ 10
  pub sequence_fits : s.sequence < 2 ^ 12

-- The three fields do not overlap, and the id does not reach the sign bit.
pub pack-eq :
    (now w q : ℕ)
    → InRange now
    → w < 2 ^ 10
    → q < 2 ^ 12
    → pack now w q ≡ (now - epoch) * 2 ^ 22 + w * 2 ^ 12 + q
unfolding pack
pack-eq now w q r hw hq =
    rw (shifted_time, shifted_worker, upper)
      (bit_or-shift 12 ((now - epoch) * 2 ^ 10 + w) q hq ∙ omega arith)
  where
    shifted_time : (now + 2 ^ 64 - epoch) % 2 ^ 64 * 2 ^ 22 % 2 ^ 64 ≡ (now - epoch) * 2 ^ 22
    shifted_time = omega arith

    shifted_worker : w * 2 ^ 12 % 2 ^ 64 ≡ w * 2 ^ 12
    shifted_worker = omega arith

    upper : bit_or ((now - epoch) * 2 ^ 22) (w * 2 ^ 12) ≡ ((now - epoch) * 2 ^ 10 + w) * 2 ^ 12
    upper = bit_or-shift 22 (now - epoch) (w * 2 ^ 12) (omega arith) ∙ omega arith

-- Where the clock is in its range of 41 bits from the epoch on, the worker id has 10 bits and the
-- sequence 12, an id that `GenID` packs is below 2^63, so an int64 that is not negative, and gives its
-- three fields back: the milliseconds since the epoch above bit 22, the worker in bits 12 to 21, the sequence in the low 12 bits.
pub pack_fields :
    (now w q : ℕ)
    → InRange now
    → w < 2 ^ 10
    → q < 2 ^ 12
    → let id = pack now w q in
      (id < 2 ^ 63) × (id / 2 ^ 22 + epoch ≡ now) × (id / 2 ^ 12 % 2 ^ 10 ≡ w) × (id % 2 ^ 12 ≡ q)
pack_fields now w q r hw hq = rw (pack-eq now w q r hw hq) (omega arith)

abbrev pub OutOfRange : ℤ → Type 0
OutOfRange (pos w) = max_worker_id < w
OutOfRange (negsuc _) = Unit

-- A first `Init` with a worker id outside 0 to 1023 returns an error. After it no call of `Init`,
-- with whatever worker id, reports an error or changes anything, and every `GenID` fails as not
-- initialized.
pub init_refused :
    (first later : ℤ) (clock : ℕ → ℕ) (fuel i : ℕ)
    → OutOfRange first
    → let (e, g) = init first fresh in
      (e ≡ some worker_id_out_of_range)
      × (init later g ≡ (none, g))
      × ((gen_id clock fuel (init later g).1.current i).outcome ≡ err not_initialized)
unfolding init init_once gen_id
init_refused (pos w) later clock fuel i h = rw (lt→ltb max_worker_id w h) (refl, refl, refl)
init_refused (negsuc w) later clock fuel i h = (refl, refl, refl)

-- When the clock reads a time before that of the last id, the call fails and the instance keeps
-- its timestamp and sequence.
pub gen_id-clock_back :
    (clock : ℕ → ℕ) (fuel i : ℕ) (s : Snowflake)
    → clock i < s.timestamp
    → let c = gen_id clock fuel (some s) i in
      (c.outcome ≡ err clock_moved_back) × (c.after ≡ some s)
unfolding gen_id next_id
gen_id-clock_back clock fuel i s h = ground arith
