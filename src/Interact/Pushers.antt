-- ===== src/Interact/Pushers.antt =====
-- The pool of Kafka pushers, one for each topic: GetPusher of
-- app/interactService/cmd/rpc/internal/svc/servicecontext.go, called by goroutines whose steps
-- interleave in any order.
pub mod One
pub mod Moves
pub mod Returns
use gozero_x.Common.{
  ℕ, suc, ◌≡◌, Bool, true, false, Option, none, some, List, [], ◌∷◌, ◌==◌, if◌then◌else◌,
}

-- Equality of topics.
pub record IsEquality {ℓ} {A : Type ℓ} (same : A → A → Bool) : Type ℓ where
  pub same_refl : (a : A) → same a a ≡ true
  pub same_eq : (a b : A) → same a b ≡ true → a ≡ b

-- Where a goroutine is in GetPusher: before it, after a look that found nothing, with the lock and
-- before the second look, after it, with a new pusher that is not in the pool yet, or returned.
pub data Point : Type 0 where
  start : Point
  missed : Point
  holding : Point
  checked : Point
  made : ℕ → Point
  returned : ℕ → Point

-- `pusherPool`, `pusherMu` with the goroutine that has locked it, the number of pushers that have
-- been made, which names the next one, and the goroutines.
pub record Pool {ℓ} (A : Type ℓ) : Type ℓ where
  pub pushers : List (A × ℕ)
  pub holder : Option ℕ
  pub created : ℕ
  pub point : ℕ → Point

abbrev pub set : ℕ → Point → (ℕ → Point) → ℕ → Point
set i p f j = if j == i then p else f j

-- The outcome of the first look.
unfoldable pub read_point : Option ℕ → Point
read_point none = missed
read_point (some p) = returned p

module _ {ℓ} {A : Type ℓ} (same : A → A → Bool) where
  unfoldable pub look : A → List (A × ℕ) → Option ℕ
  look t [] = none
  look t ((u, p) ∷ l) = if same u t then some p else look t l

  -- The first look, under the lock of readers, waits for a goroutine that has locked the pool.
  unfoldable pub first_look : A → ℕ → Option ℕ → Pool A → Pool A
  first_look t i (some h) s = s
  first_look t i none s = record s { point = set i (read_point (look t s.pushers)) s.point }

  unfoldable pub acquire : ℕ → Option ℕ → Pool A → Pool A
  acquire i (some h) s = s
  acquire i none s = record s { holder = some i; point = set i holding s.point }

  unfoldable pub second_look : ℕ → Option ℕ → Pool A → Pool A
  second_look i none s = record s { point = set i checked s.point }
  second_look i (some p) s = record s { holder = none; point = set i (returned p) s.point }

  -- One step of the goroutine `i`, which asks for the topic `t`.
  unfoldable pub step_at : A → ℕ → Point → Pool A → Pool A
  step_at t i start s = first_look t i s.holder s
  step_at t i missed s = acquire i s.holder s
  step_at t i holding s = second_look i (look t s.pushers) s
  step_at t i checked s = record s {
    created = suc s.created;
    point = set i (made s.created) s.point;
  }
  step_at t i (made p) s = record s {
    pushers = (t, p) ∷ s.pushers;
    holder = none;
    point = set i (returned p) s.point;
  }
  step_at t i (returned p) s = s

  -- The goroutines whose turn it is, one after another.
  unfoldable pub get_pushers : (ℕ → A) → List ℕ → Pool A → Pool A
  get_pushers topic [] s = s
  get_pushers topic (i ∷ turns) s = get_pushers topic turns (step_at (topic i) i (s.point i) s)

abbrev pub no_pushers {ℓ} : {A : Type ℓ} → Pool A
no_pushers = record { pushers = []; holder = none; created = 0; point = λ i. start }
