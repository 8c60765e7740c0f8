-- ===== src/Idgen.antt =====
-- pkg/idgen/snowflake.go: the 64-bit id generator.
-- `instance` and `once` are the state; the readings of `time.Now().UnixMilli()` are a function of
-- their number, so that a call says how many it took. An int64 is its bit pattern below 2^64.
-- The mutex makes a call atomic, hence one function for one call.
mod Bits
pub mod Laws
pub mod Order
pub mod Waiting
use Prim.Native.Nat.{bit_and, bit_or}
use gozero_x.Common.{
  ℕ, zero, suc, ◌+◌, ◌-◌, ◌*◌, ◌%◌, ◌^◌, Bool, true, false, Option, none, some, List, [], ◌∷◌, ltb,
  leb, ◌==◌, if◌then◌else◌,
}
use gozero_x.Common.Int.{ℤ, pos, negsuc}

-- 2024-01-01, in milliseconds.
abbrev pub epoch : ℕ
epoch = 1704067200000

abbrev pub worker_id_bits : ℕ
worker_id_bits = 10

abbrev pub sequence_bits : ℕ
sequence_bits = 12

abbrev pub max_worker_id : ℕ
max_worker_id = 2 ^ worker_id_bits - 1

abbrev pub max_sequence : ℕ
max_sequence = 2 ^ sequence_bits - 1

abbrev pub worker_id_shift : ℕ
worker_id_shift = sequence_bits

abbrev pub timestamp_shift : ℕ
timestamp_shift = sequence_bits + worker_id_bits

pub record Snowflake : Type 0 where
  pub worker_id : ℕ
  pub timestamp : ℕ
  pub sequence : ℕ

-- The package's variables: `instance`, and whether `once` has run.
pub record Generator : Type 0 where
  pub current : Option Snowflake
  pub once : Bool

pub data IdError : Type 0 where
  worker_id_out_of_range not_initialized clock_moved_back : IdError

abbrev pub fresh : Generator
fresh = record { current = none; once = false }

-- `once.Do` runs its function on the first call alone, also when that call fails.
init_once : ℤ → Option IdError × Option Snowflake
init_once (negsuc _) = (some worker_id_out_of_range, none)
init_once (pos w) =
    if ltb max_worker_id w
    then (some worker_id_out_of_range, none)
    else (none, some (record { worker_id = w; timestamp = 0; sequence = 0 }))

pub init : ℤ → Generator → Option IdError × Generator
unfolding init_once
init worker_id g =
    if g.once
    then (none, g)
    else let (e, s) = init_once worker_id in (e, record { current = s; once = true })

abbrev pub sub64 : ℕ → ℕ → ℕ
sub64 a b = (a + 2 ^ 64 - b) % 2 ^ 64

abbrev pub shl64 : ℕ → ℕ → ℕ
shl64 a k = a * 2 ^ k % 2 ^ 64

-- `((now - epoch) << timestampShift) | (workerID << workerIDShift) | sequence`
pub pack : ℕ → ℕ → ℕ → ℕ
pack now worker_id sequence =
    bit_or (bit_or (shl64 (sub64 now epoch) timestamp_shift) (shl64 worker_id worker_id_shift))
      sequence

-- `spinning` is a call that still waits for the next millisecond when the fuel is used up.
pub data Outcome : Type 0 where
  ok : ℕ → Outcome
  err : IdError → Outcome
  spinning : Outcome

-- What a call leaves: its outcome, the instance, and the number of clock readings taken so far.
pub record Call : Type 0 where
  pub outcome : Outcome
  pub after : Option Snowflake
  pub reads : ℕ

module _ (clock : ℕ → ℕ) where
  -- `for now <= instance.timestamp { now = time.Now().UnixMilli() }`
  pub spin : ℕ → ℕ → ℕ → ℕ → Option (ℕ × ℕ)
  spin zero i now timestamp = none
  spin (suc fuel) i now timestamp = elim (leb now timestamp) [
    | true ↦ spin fuel (suc i) (clock i) timestamp
    | false ↦ some (now, i)
  ]

  emit : Snowflake → ℕ → ℕ → ℕ → Call
  emit s now sequence i = record {
    outcome = ok (pack now s.worker_id sequence);
    after = some (record s { timestamp = now; sequence = sequence });
    reads = i;
  }

  -- The sequence has overflowed: wait, then use the new reading.
  emit_later : Snowflake → Option (ℕ × ℕ) → ℕ → Call
  unfolding emit
  emit_later s none i = record {
    outcome = spinning;
    after = some (record s { sequence = 0 });
    reads = i;
  }
  emit_later s (some (now, j)) i = emit s now 0 j

  next_id : ℕ → Snowflake → ℕ → ℕ → Call
  unfolding emit emit_later
  next_id fuel s now i =
      if ltb now s.timestamp
      then record { outcome = err clock_moved_back; after = some s; reads = i }
      else if now == s.timestamp
      then (let sequence = bit_and (s.sequence + 1) max_sequence in
          if sequence == 0
          then emit_later s (spin fuel i now s.timestamp) i
          else emit s now sequence i)
      else emit s now 0 i

  -- `GenID`, when `i` readings of the clock have been taken before.
  pub gen_id : ℕ → Option Snowflake → ℕ → Call
  unfolding next_id
  gen_id fuel none i = record { outcome = err not_initialized; after = none; reads = i }
  gen_id fuel (some s) i = next_id fuel s (clock i) (suc i)

  -- The ids that `n` calls in a row return, oldest first. Failed calls return none.
  pub gen_ids : ℕ → ℕ → Option Snowflake → ℕ → List ℕ
  gen_ids zero fuel s i = []
  gen_ids (suc n) fuel s i =
      let c = gen_id fuel s i in
      let later = gen_ids n fuel c.after c.reads in
      elim c.outcome [ ok id ↦ id ∷ later | err _ ↦ later | spinning ↦ [] ]
