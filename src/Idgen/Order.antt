-- ===== src/Idgen/Order.antt =====
-- Ids come out in strictly rising order, over any run of calls.
use gozero_x.Common.{
  ℕ, zero, suc, ◌+◌, ◌*◌, ◌/◌, ◌%◌, ◌^◌, ◌≤◌, ◌<◌, ◌≡◌, ◌∙◌, sym, inl, inr, refl, Bool-cases,
  Option, none, some, List, [], ◌∷◌, arith, All, ltb, le→ltb, ◌==◌,
}
use gozero_x.Common.Int.{pos}
use gozero_x.Idgen.Bits.{bit_and-ones}
use gozero_x.Idgen.Laws.{InRange, IsValid, pack_fields}
use gozero_x.Idgen.{
  epoch, max_worker_id, fresh, Snowflake, init, init_once, Outcome, ok, err, spinning, Call, spin,
  emit, emit_later, next_id, gen_id, gen_ids,
}

-- Time and sequence as one number, of an instance and of an id.
abbrev mark : Snowflake → ℕ
mark s = s.timestamp * 2 ^ 12 + s.sequence

abbrev stamp : ℕ → ℕ
stamp id = (id / 2 ^ 22 + epoch) * 2 ^ 12 + id % 2 ^ 12

-- What a call that starts with `s` may leave. An id comes with the instance that packed it.
abbrev Follows : Snowflake → Outcome → Option Snowflake → Type 0
Follows s (ok id) (some t) =
    IsValid t
    × (t.worker_id ≡ s.worker_id)
    × (mark s < mark t)
    × (stamp id ≡ mark t)
    × (id / 2 ^ 12 % 2 ^ 10 ≡ s.worker_id)
Follows s (ok id) none = ⊥
Follows s (err _) t = t ≡ some s
Follows s spinning t = Unit

module _ (clock : ℕ → ℕ) where
  emit-Follows :
      (s : Snowflake) (now q i : ℕ)
      → IsValid s
      → InRange now
      → q < 2 ^ 12
      → mark s < now * 2 ^ 12 + q
      → Follows s (emit clock s now q i).outcome (emit clock s now q i).after
  unfolding emit
  emit-Follows s now q i v r hq h =
      let (_, time, worker, low) = pack_fields now s.worker_id q r v.worker_fits hq in
      (
        record { worker_fits = v.worker_fits; sequence_fits = hq },
        refl,
        h,
        omega (arith, time, low),
        worker,
      )

  -- A later millisecond is a later mark, whatever the sequence was.
  emit_later-Follows :
      (s : Snowflake) (o : Option (ℕ × ℕ)) (i : ℕ)
      → IsValid s
      → ((now j : ℕ) → o ≡ some (now, j) → InRange now × (s.timestamp < now))
      → Follows s (emit_later clock s o i).outcome (emit_later clock s o i).after
  unfolding emit_later
  emit_later-Follows s none i v h = tt
  emit_later-Follows s (some (now, j)) i v h =
      emit-Follows s now 0 j v (h now j refl).0 (omega arith)
        (let below = (h now j refl).1 in omega (arith, below, v.sequence_fits))

module _ (clock : ℕ → ℕ) (in_range : (k : ℕ) → InRange (clock k)) where
  spin_result :
      (fuel i now timestamp later j : ℕ)
      → InRange now
      → spin clock fuel i now timestamp ≡ some (later, j)
      → InRange later × (timestamp < later)
  unfolding spin
  spin_result zero i now timestamp later j r e = cc
  spin_result (suc fuel) i now timestamp later j r e =
      ground (arith, in_range i, spin_result fuel (suc i) (clock i) timestamp later j)

  next_id-Follows :
      (fuel now i : ℕ) (s : Snowflake)
      → IsValid s
      → InRange now
      → Follows s (next_id clock fuel s now i).outcome (next_id clock fuel s now i).after
  unfolding next_id
  next_id-Follows fuel now i s v r = elim (Bool-cases (ltb now s.timestamp)) [
    | inl back ↦ rw back refl
    | inr forth ↦ elim (Bool-cases (now == s.timestamp)) [
      | inl same ↦
          rw (forth, same, bit_and-ones 12 (s.sequence + 1))
            (elim (Bool-cases ((s.sequence + 1) % 2 ^ 12 == 0)) [
              | inl full ↦ rw full (
                  emit_later-Follows clock s _ i v
                    (λ later j. spin_result fuel i now s.timestamp later j r))
              | inr room ↦
                  rw room (
                    emit-Follows clock s now _ i v r (omega arith)
                      (ground (arith, v.sequence_fits)))
            ])
      | inr next ↦
          rw (forth, next)
            (emit-Follows clock s now 0 i v r (omega arith) (ground (arith, v.sequence_fits)))
    ]
  ]

abbrev Beyond : Snowflake → ℕ → Type 0
Beyond s id = (mark s < stamp id) × (id / 2 ^ 12 % 2 ^ 10 ≡ s.worker_id)

-- Every entry is smaller than all that come after it.
abbrev pub IsRising : List ℕ → Type 0
IsRising [] = Unit
IsRising (x ∷ xs) = All (λ y. x < y) xs × IsRising xs

Beyond-trans :
    (s t : Snowflake)
    → mark s < mark t
    → t.worker_id ≡ s.worker_id
    → (ids : List ℕ) → All (Beyond t) ids
    → All (Beyond s) ids
Beyond-trans s t m w [] h = tt
Beyond-trans s t m w (id ∷ ids) ((below, worker), rest) =
    ((omega arith, worker ∙ w), Beyond-trans s t m w ids rest)

-- Ids of one worker are ordered as their stamps.
Beyond-lt :
    (t : Snowflake) (id : ℕ)
    → stamp id ≡ mark t
    → id / 2 ^ 12 % 2 ^ 10 ≡ t.worker_id
    → (ids : List ℕ) → All (Beyond t) ids
    → All (λ y. id < y) ids
Beyond-lt t id e w [] h = tt
Beyond-lt t id e w (y ∷ ids) ((below, worker), rest) =
    (omega (arith, below, worker, e, w), Beyond-lt t id e w ids rest)

abbrev IsRun : Snowflake → List ℕ → Type 0
IsRun s ids = All (Beyond s) ids × IsRising ids

add_outcome-IsRun :
    (s : Snowflake) (o : Outcome) (t : Option Snowflake) (later : List ℕ)
    → IsValid s
    → Follows s o t
    → ((u : Snowflake) → t ≡ some u → IsValid u → IsRun u later)
    → IsRun s (elim o [ ok id ↦ id ∷ later | err _ ↦ later | spinning ↦ [] ])
add_outcome-IsRun s (ok id) none later v f h = absurd f
add_outcome-IsRun s (ok id) (some t) later v (valid, same, more, at, worker) h =
    let (beyond, rising) = h t refl valid in
    (
      ((omega (arith, at, more), worker), Beyond-trans s t more same later beyond),
      (Beyond-lt t id at (worker ∙ sym same) later beyond, rising),
    )
add_outcome-IsRun s (err e) t later v f h = h s f v
add_outcome-IsRun s spinning t later v f h = (tt, tt)

module _ (clock : ℕ → ℕ) (in_range : (k : ℕ) → InRange (clock k)) where
  gen_ids-IsRun :
      (n fuel i : ℕ) (t : Option Snowflake) (s : Snowflake)
      → t ≡ some s
      → IsValid s
      → IsRun s (gen_ids clock n fuel t i)
  unfolding gen_ids gen_id
  gen_ids-IsRun zero fuel i t s e v = (tt, tt)
  gen_ids-IsRun (suc n) fuel i t s e v = rw e (
      add_outcome-IsRun s c.outcome c.after (gen_ids clock n fuel c.after c.reads) v
        (next_id-Follows clock in_range fuel (clock i) (suc i) s v (in_range i))
        (λ u. gen_ids-IsRun n fuel c.reads c.after u))
    where
      c : Call
      c = gen_id clock fuel (some s) i

-- After a successful `Init`, and with a clock that reads times from 2024 to 2093, forwards or
-- backwards, the ids that any number of calls return are strictly rising, so no two are equal.
pub gen_ids-IsRising :
    (clock : ℕ → ℕ) (n fuel w i : ℕ)
    → ((k : ℕ) → InRange (clock k))
    → w ≤ max_worker_id
    → IsRising (gen_ids clock n fuel (init (pos w) fresh).1.current i)
unfolding init init_once
gen_ids-IsRising clock n fuel w i in_range h =
    rw (le→ltb max_worker_id w h)
      (gen_ids-IsRun clock in_range n fuel i _
        (record { worker_id = w; timestamp = 0; sequence = 0 }) refl
        (record { worker_fits = omega arith; sequence_fits = omega arith })).1
