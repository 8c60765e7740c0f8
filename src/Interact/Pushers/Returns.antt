-- ===== src/Interact/Pushers/Returns.antt =====
-- How many turns a goroutine needs to return from GetPusher.
use gozero_x.Common.{
  ℕ, ◌≤◌, ◌≡◌, refl, sym, inl, inr, Bool, true, false, Option, none, some, List, [], ◌∷◌, arith,
}
use gozero_x.Interact.Pushers.{
  IsEquality, Point, start, missed, holding, checked, made, returned, Pool, first_look, acquire,
  step_at, get_pushers, no_pushers,
}
use gozero_x.Interact.Pushers.One.{none_some, Good, step-Good, get_pushers-Good}
use gozero_x.Interact.Pushers.Moves.{
  rank, in_section, repeat, unlock, Held, first-Moves, acquire-Moves, lock_of, turn-Moves,
  turns-Moves,
}

abbrev pub is_returned : Point → Bool
is_returned start = false
is_returned missed = false
is_returned holding = false
is_returned checked = false
is_returned (made p) = false
is_returned (returned p) = true

rank-returned : (p : Point) → rank p ≡ 0 → is_returned p ≡ true
rank-returned start e = ground (arith, e)
rank-returned missed e = ground (arith, e)
rank-returned holding e = ground (arith, e)
rank-returned checked e = ground (arith, e)
rank-returned (made p) e = ground (arith, e)
rank-returned (returned p) e = refl

module _ {ℓ} {A : Type ℓ} (same : A → A → Bool) (equality : IsEquality same) (topic : ℕ → A) where
  first-Held :
      (i : ℕ) (h : Option ℕ) (s : Pool A)
      → s.holder ≡ h
      → Held same s
      → Held same (first_look same (topic i) i h s)
  unfolding first_look
  first-Held i (some h) s is held = held
  first-Held i none s is held = (first-Moves same (topic i) i none s is refl).0

  acquire-Held : (i : ℕ) (h : Option ℕ) (s : Pool A) → Held same s → Held same (acquire same i h s)
  unfolding acquire
  acquire-Held i (some h) s held = held
  acquire-Held i none s held = (acquire-Moves same i none s refl).0

  section-Held :
      (i : ℕ) (p : Point) (s : Pool A)
      → s.point i ≡ p
      → in_section p ≡ true
      → Good same equality topic s
      → Held same s
      → Held same (step_at same (topic i) i p s)
  section-Held i p s at in_p good held =
      (turn-Moves same equality topic i p s at good held (
        inr (
          lock_of same equality topic (topic i) i (s.point i) s.holder s.pushers (rw at in_p)
            (good i)))).0

  step-Held :
      (i : ℕ) (p : Point) (s : Pool A)
      → s.point i ≡ p
      → Good same equality topic s
      → Held same s
      → Held same (step_at same (topic i) i p s)
  unfolding step_at
  step-Held i start s at good held = first-Held i s.holder s refl held
  step-Held i missed s at good held = acquire-Held i s.holder s held
  step-Held i holding s at good held = section-Held i holding s at refl good held
  step-Held i checked s at good held = section-Held i checked s at refl good held
  step-Held i (made p) s at good held = section-Held i (made p) s at refl good held
  step-Held i (returned p) s at good held = held

  get_pushers-Held :
      (turns : List ℕ) (s : Pool A)
      → Good same equality topic s
      → Held same s
      → Held same (get_pushers same topic turns s)
  unfolding get_pushers
  get_pushers-Held [] s good held = held
  get_pushers-Held (i ∷ turns) s good held =
      get_pushers-Held turns (step_at same (topic i) i (s.point i) s)
        (step-Good same equality topic i (s.point i) s refl good)
        (step-Held i (s.point i) s refl good held)

  rank_le : (p : Point) → rank p ≤ 5
  rank_le start = omega arith
  rank_le missed = omega arith
  rank_le holding = omega arith
  rank_le checked = omega arith
  rank_le (made p) = omega arith
  rank_le (returned p) = omega arith

  in_section-rank : (p : Point) → in_section p ≡ true → (1 ≤ rank p) × (rank p ≤ 3)
  in_section-rank start in_p = ground arith
  in_section-rank missed in_p = ground arith
  in_section-rank holding in_p = (omega arith, omega arith)
  in_section-rank checked in_p = (omega arith, omega arith)
  in_section-rank (made p) in_p = (omega arith, omega arith)
  in_section-rank (returned p) in_p = ground arith

  -- After three turns of the holder the lock is free.
  unlock-free :
      (h : Option ℕ) (s : Pool A)
      → s.holder ≡ h
      → Good same equality topic s
      → Held same s
      → (get_pushers same topic (unlock h) s).holder ≡ none
  unfolding get_pushers
  unlock-free none s is good held = is
  unlock-free (some h) s is good held =
      let t = get_pushers same topic (repeat 3 h) s in
      let (held_t, (free_t, least)) = turns-Moves same equality topic 3 h s good held (inr is) in
      elim free_t [
        | inl free ↦ free
        | inr mine ↦
            let (_, near) = in_section-rank (s.point h) (held h is) in
            let (far, _) = in_section-rank (t.point h) (held_t h mine) in
            let impossible : 1 ≤ 0 = omega (arith, near, far, least) in elim impossible [ ]
      ]

  -- Where `same` is the equality of topics: whatever steps goroutines have made in GetPusher, from an
  -- empty pool, if then the one that has the lock, if any, makes its next three steps, and after that
  -- a goroutine its next five, and no other goroutine steps in between, this goroutine has returned.
  pub get_pushers_return :
      (turns : List ℕ) (i : ℕ)
      → let s = get_pushers same topic turns no_pushers in
        is_returned (
          (get_pushers same topic (repeat 5 i) (get_pushers same topic (unlock s.holder) s)).point
            i)
        ≡ true
  get_pushers_return turns i =
      let s = get_pushers same topic turns no_pushers in
      let good = get_pushers-Good same equality topic turns no_pushers (λ k. _) in
      let held = get_pushers-Held turns no_pushers (λ k. _) (λ h e. none_some h (sym e)) in
      let t = get_pushers same topic (unlock s.holder) s in
      let (_, (_, least)) =
        turns-Moves same equality topic 5 i t
          (get_pushers-Good same equality topic (unlock s.holder) s good)
          (get_pushers-Held (unlock s.holder) s good held)
          (inl (unlock-free s.holder s refl good held)) in
      rank-returned ((get_pushers same topic (repeat 5 i) t).point i)
        (omega (arith, least, rank_le (t.point i)))
