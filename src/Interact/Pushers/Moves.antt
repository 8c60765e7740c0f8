-- ===== src/Interact/Pushers/Moves.antt =====
-- What a turn of a goroutine in GetPusher brings.
use gozero_x.Common.{
  ℕ, zero, suc, ◌-◌, ◌≤◌, ◌≡◌, refl, sym, ◌∙◌, ◌⊎◌, inl, inr, Bool, true, false, Option, none, some,
  some_inj, List, [], ◌∷◌, arith, ◌==◌,
}
use gozero_x.Interact.Pushers.{
  IsEquality, Point, start, missed, holding, checked, made, returned, Pool, set, read_point, look,
  first_look, acquire, second_look, step_at, get_pushers,
}
use gozero_x.Interact.Pushers.One.{none_some, Known, Good, step-Good}

-- The steps that a goroutine has before it.
abbrev pub rank : Point → ℕ
rank start = 5
rank missed = 4
rank holding = 3
rank checked = 2
rank (made p) = 1
rank (returned p) = 0

abbrev pub in_section : Point → Bool
in_section start = false
in_section missed = false
in_section holding = true
in_section checked = true
in_section (made p) = true
in_section (returned p) = false

abbrev pub repeat : ℕ → ℕ → List ℕ
repeat zero i = []
repeat (suc n) i = i ∷ repeat n i

-- Three turns for the goroutine that has locked the pool.
abbrev pub unlock : Option ℕ → List ℕ
unlock none = []
unlock (some h) = repeat 3 h

module _ {ℓ} {A : Type ℓ} (same : A → A → Bool) where
  -- The goroutine that has the lock is where it is to give it back.
  abbrev pub Held : Pool A → Type 0
  Held s = (h : ℕ) → s.holder ≡ some h → in_section (s.point h) ≡ true

  -- The lock is free, or `i` has it.
  abbrev pub Free : ℕ → Pool A → Type 0
  Free i s = (s.holder ≡ none) ⊎ (s.holder ≡ some i)

  -- What a turn of `i` from `p` to the state `t` keeps and gains.
  abbrev pub Moves : ℕ → Point → Pool A → Type 0
  Moves i p t = Held t × (Free i t × (rank (t.point i) ≤ rank p - 1))

  set_own : (i : ℕ) (p : Point) (f : ℕ → Point) → set i p f i ≡ p
  set_own i p f = let own : (i == i) ≡ true = ground arith in rw own refl

  read_rank : (o : Option ℕ) → rank (read_point o) ≤ 4
  unfolding read_point
  read_rank none = omega arith
  read_rank (some p) = omega arith

  -- The lock is free after a move.
  Moves-unlocked :
      (i : ℕ) (p q : Point) (t : Pool A)
      → t.holder ≡ none
      → t.point i ≡ q
      → rank q ≤ rank p - 1
      → Moves i p t
  Moves-unlocked i p q t free at less =
      ((λ h e. none_some h (sym e ∙ free)), (inl free, rw at less))

  -- `i` has the lock after a move.
  Moves-locked :
      (i : ℕ) (p q : Point) (t : Pool A)
      → t.holder ≡ some i
      → t.point i ≡ q
      → in_section q ≡ true
      → rank q ≤ rank p - 1
      → Moves i p t
  Moves-locked i p q t held at in_q less =
      ((λ h e. rw (sym (some_inj i h (sym held ∙ e)), at) in_q), (inr held, rw at less))

  second-Moves :
      (i : ℕ) (o : Option ℕ) (s : Pool A)
      → s.holder ≡ some i
      → Moves i holding (second_look same i o s)
  unfolding second_look
  second-Moves i none s held =
      Moves-locked i holding checked (second_look same i none s) held (set_own i checked s.point)
        refl (omega arith)
  second-Moves i (some p) s held =
      Moves-unlocked i holding (returned p) (second_look same i (some p) s) refl
        (set_own i (returned p) s.point) (omega arith)

  pub first-Moves :
      (t : A) (i : ℕ) (h : Option ℕ) (s : Pool A)
      → s.holder ≡ h
      → h ≡ none
      → Moves i start (first_look same t i h s)
  unfolding first_look
  first-Moves t i none s free e =
      Moves-unlocked i start (read_point (look same t s.pushers)) (first_look same t i none s) free
        (set_own i (read_point (look same t s.pushers)) s.point) (read_rank (look same t s.pushers))
  first-Moves t i (some h) s free e = none_some h e

  pub acquire-Moves :
      (i : ℕ) (h : Option ℕ) (s : Pool A) → h ≡ none → Moves i missed (acquire same i h s)
  unfolding acquire
  acquire-Moves i none s e =
      Moves-locked i missed holding (acquire same i none s) refl (set_own i holding s.point) refl
        (omega arith)
  acquire-Moves i (some h) s e = none_some h e

  module _ (equality : IsEquality same) (topic : ℕ → A) where
    pub lock_of :
        (t : A) (i : ℕ) (p : Point) (h : Option ℕ) (l : List (A × ℕ))
        → in_section p ≡ true
        → Known same equality t i p h l
        → h ≡ some i
    lock_of t i start h l in_p k = ground arith
    lock_of t i missed h l in_p k = ground arith
    lock_of t i holding h l in_p k = k
    lock_of t i checked h l in_p k = k.0
    lock_of t i (made p) h l in_p k = k.0
    lock_of t i (returned p) h l in_p k = ground arith

    -- The lock that a goroutine outside of the section finds is free.
    lock_unlocked :
        (i : ℕ) (s : Pool A) → in_section (s.point i) ≡ false → Held s → Free i s → s.holder ≡ none
    lock_unlocked i s out held (inl free) = free
    lock_unlocked i s out held (inr mine) =
        let impossible : 1 ≤ 0 = ground (arith, held i mine) in elim impossible [ ]

    returned-Moves :
        (i : ℕ) (p : ℕ) (s : Pool A)
        → s.point i ≡ returned p
        → Held s
        → Free i s
        → Moves i (returned p) s
    returned-Moves i p s at held free = (held, (free, rw at (omega arith)))

    pub turn-Moves :
        (i : ℕ) (p : Point) (s : Pool A)
        → s.point i ≡ p
        → Good same equality topic s
        → Held s
        → Free i s
        → Moves i p (step_at same (topic i) i p s)
    unfolding step_at
    turn-Moves i start s at good held free =
        first-Moves (topic i) i s.holder s refl (lock_unlocked i s (rw at refl) held free)
    turn-Moves i missed s at good held free =
        acquire-Moves i s.holder s (lock_unlocked i s (rw at refl) held free)
    turn-Moves i holding s at good held free =
        second-Moves i (look same (topic i) s.pushers) s
          (lock_of (topic i) i (s.point i) s.holder s.pushers (rw at refl) (good i))
    turn-Moves i checked s at good held free =
        Moves-locked i checked (made s.created)
          (record s { created = suc s.created; point = set i (made s.created) s.point })
          (lock_of (topic i) i (s.point i) s.holder s.pushers (rw at refl) (good i))
          (set_own i (made s.created) s.point) refl (omega arith)
    turn-Moves i (made p) s at good held free =
        Moves-unlocked i (made p) (returned p)
          (record s {
            pushers = (topic i, p) ∷ s.pushers;
            holder = none;
            point = set i (returned p) s.point;
          })
          refl (set_own i (returned p) s.point) (omega arith)
    turn-Moves i (returned p) s at good held free = returned-Moves i p s at held free

    -- Turns of one goroutine that may move bring it nearer to its return.
    pub turns-Moves :
        (n i : ℕ) (s : Pool A)
        → Good same equality topic s
        → Held s
        → Free i s
        → let t = get_pushers same topic (repeat n i) s in
          Held t × (Free i t × (rank (t.point i) ≤ rank (s.point i) - n))
    unfolding get_pushers
    turns-Moves zero i s good held free = (held, (free, omega arith))
    turns-Moves (suc n) i s good held free =
        let u = step_at same (topic i) i (s.point i) s in
        let (held_u, (free_u, less)) = turn-Moves i (s.point i) s refl good held free in
        let (held_t, (free_t, least)) =
          turns-Moves n i u (step-Good same equality topic i (s.point i) s refl good) held_u
            free_u in
        (held_t, (free_t, omega (arith, less, least)))
