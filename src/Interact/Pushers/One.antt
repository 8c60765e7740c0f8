-- ===== src/Interact/Pushers/One.antt =====
-- All goroutines get the same pusher for a topic.
use gozero_x.Common.{
  ℕ, ◌≡◌, refl, sym, ap, ◌∙◌, inl, inr, Bool, false, Bool-cases, Option, none, some, some_inj,
  Option-cases, List, [], ◌∷◌, arith, ◌==◌, ◌≤◌,
}
use mathlib.Core.Path.{subst}
use gozero_x.Interact.Pushers.{
  IsEquality, Point, start, missed, holding, checked, made, returned, Pool, set, read_point, look,
  first_look, acquire, second_look, step_at, get_pushers, no_pushers,
}

pub none_some : {X : Type 0} (n : ℕ) → some n ≡ none → X
none_some n e = let impossible : 1 ≤ 0 = ground arith in elim impossible [ ]

-- Two goroutines do not hold the lock at once.
sole : {X : Type 0} (i j : ℕ) → (j == i) ≡ false → some i ≡ some j → X
sole i j other e = let impossible : 1 ≤ 0 = ground (arith, some_inj i j e) in elim impossible [ ]

module _ {ℓ} {A : Type ℓ} (same : A → A → Bool) (equality : IsEquality same) where
  -- What is known where a goroutine stands: with the lock it is the holder, and past the second look
  -- the topic has no pusher; the pusher that it has returned is the one of the pool.
  abbrev pub Known : A → ℕ → Point → Option ℕ → List (A × ℕ) → Type 0
  Known t j start h l = Unit
  Known t j missed h l = Unit
  Known t j holding h l = h ≡ some j
  Known t j checked h l = (h ≡ some j) × (look same t l ≡ none)
  Known t j (made p) h l = (h ≡ some j) × (look same t l ≡ none)
  Known t j (returned p) h l = look same t l ≡ some p

  -- A goroutine that is not the holder stays where it is when the lock changes hands.
  Known-holder :
      (t : A) (j : ℕ) (p : Point) (h g : Option ℕ) (l : List (A × ℕ))
      → ((h ≡ some j) → g ≡ some j)
      → Known t j p h l
      → Known t j p g l
  Known-holder t j start h g l keeps k = _
  Known-holder t j missed h g l keeps k = _
  Known-holder t j holding h g l keeps k = keeps k
  Known-holder t j checked h g l keeps k = (keeps k.0, k.1)
  Known-holder t j (made p) h g l keeps k = (keeps k.0, k.1)
  Known-holder t j (returned p) h g l keeps k = k

  look-store :
      (t u : A) (p q : ℕ) (l : List (A × ℕ))
      → look same u l ≡ none
      → look same t l ≡ some q
      → look same t ((u, p) ∷ l) ≡ some q
  unfolding look
  look-store t u p q l new there = elim (Bool-cases (same u t)) [
    | inl eq ↦
        none_some q (sym there ∙ ap (λ x. look same x l) (sym (equality.same_eq u t eq)) ∙ new)
    | inr ne ↦ rw ne there
  ]

  -- A pusher that is stored by its holder leaves what the other goroutines have.
  Known-store :
      (t u : A) (i j p : ℕ) (q : Point) (l : List (A × ℕ))
      → (j == i) ≡ false
      → look same u l ≡ none
      → Known t j q (some i) l
      → Known t j q none ((u, p) ∷ l)
  Known-store t u i j p start l other new k = _
  Known-store t u i j p missed l other new k = _
  Known-store t u i j p holding l other new k = sole i j other k
  Known-store t u i j p checked l other new k = sole i j other k.0
  Known-store t u i j p (made n) l other new k = sole i j other k.0
  Known-store t u i j p (returned n) l other new k = look-store t u p n l new k

  module _ (topic : ℕ → A) where
    abbrev pub Good : Pool A → Type 0
    Good s = (j : ℕ) → Known (topic j) j (s.point j) s.holder s.pushers

    -- The goroutine `i` moves to a point that is right for it, and the others stay.
    set-Known :
        (i : ℕ) (p : Point) (f : ℕ → Point) (h : Option ℕ) (l : List (A × ℕ))
        → Known (topic i) i p h l
        → ((j : ℕ) → (j == i) ≡ false → Known (topic j) j (f j) h l)
        → (j : ℕ) → Known (topic j) j (set i p f j) h l
    set-Known i p f h l here others j = elim (Bool-cases (j == i)) [
      | inl eq ↦ rw eq (subst (λ k. Known (topic k) k p h l) (ground (arith, eq)) here)
      | inr ne ↦ rw ne (others j ne)
    ]

    read-Known :
        (t : A) (j : ℕ) (h : Option ℕ) (l : List (A × ℕ))
        → Known t j (read_point (look same t l)) h l
    unfolding read_point
    read-Known t j h l = elim (Option-cases (look same t l)) [
      | inl miss ↦ rw miss _
      | inr (p, hit) ↦ rw hit hit
    ]

    known :
        (i : ℕ) (p : Point) (s : Pool A)
        → s.point i ≡ p
        → Good s
        → Known (topic i) i p s.holder s.pushers
    known i p s at good = subst (λ q. Known (topic i) i q s.holder s.pushers) at (good i)

    first_look-Good :
        (i : ℕ) (h : Option ℕ) (s : Pool A) → Good s → Good (first_look same (topic i) i h s)
    unfolding first_look
    first_look-Good i (some h) s good = good
    first_look-Good i none s good =
        set-Known i (read_point (look same (topic i) s.pushers)) s.point s.holder s.pushers
          (read-Known (topic i) i s.holder s.pushers) (λ j ne. good j)

    acquire-Good :
        (i : ℕ) (h : Option ℕ) (s : Pool A) → s.holder ≡ h → Good s → Good (acquire same i h s)
    unfolding acquire
    acquire-Good i (some h) s is good = good
    acquire-Good i none s free good = set-Known i holding s.point (some i) s.pushers refl (λ j ne.
        Known-holder (topic j) j (s.point j) s.holder (some i) s.pushers
          (λ e. none_some j (sym e ∙ free)) (good j))

    second_look-Good :
        (i : ℕ) (o : Option ℕ) (s : Pool A)
        → look same (topic i) s.pushers ≡ o
        → s.holder ≡ some i
        → Good s
        → Good (second_look same i o s)
    unfolding second_look
    second_look-Good i none s miss held good =
        set-Known i checked s.point s.holder s.pushers (held, miss) (λ j ne. good j)
    second_look-Good i (some p) s hit held good =
        set-Known i (returned p) s.point none s.pushers hit (λ j ne.
          Known-holder (topic j) j (s.point j) s.holder none s.pushers
            (λ e. sole i j ne (sym held ∙ e)) (good j))

    look-own : (t : A) (p : ℕ) (l : List (A × ℕ)) → look same t ((t, p) ∷ l) ≡ some p
    unfolding look
    look-own t p l = rw (equality.same_refl t) refl

    pub step-Good :
        (i : ℕ) (p : Point) (s : Pool A)
        → s.point i ≡ p
        → Good s
        → Good (step_at same (topic i) i p s)
    unfolding step_at
    step-Good i start s at good = first_look-Good i s.holder s good
    step-Good i missed s at good = acquire-Good i s.holder s refl good
    step-Good i holding s at good =
        second_look-Good i (look same (topic i) s.pushers) s refl (known i holding s at good) good
    step-Good i checked s at good =
        set-Known i (made s.created) s.point s.holder s.pushers (known i checked s at good)
          (λ j ne. good j)
    step-Good i (made p) s at good =
        let (held, new) = known i (made p) s at good in
        set-Known i (returned p) s.point none ((topic i, p) ∷ s.pushers)
          (look-own (topic i) p s.pushers)
          (λ j ne.
            Known-store (topic j) (topic i) i j p (s.point j) s.pushers ne new
              (subst (λ h. Known (topic j) j (s.point j) h s.pushers) held (good j)))
    step-Good i (returned p) s at good = good

    pub get_pushers-Good :
        (turns : List ℕ) (s : Pool A) → Good s → Good (get_pushers same topic turns s)
    unfolding get_pushers
    get_pushers-Good [] s good = good
    get_pushers-Good (i ∷ turns) s good =
        get_pushers-Good turns (step_at same (topic i) i (s.point i) s)
          (step-Good i (s.point i) s refl good)

  -- Where `same` is the equality of topics:
  -- however the steps of goroutines in GetPusher interleave, from an empty pool, two of them that ask
  -- for the same topic and have returned have the same pusher, and it is the one in the pool.
  pub get_pushers_one :
      (topic : ℕ → A) (turns : List ℕ) (i j p q : ℕ)
      → topic i ≡ topic j
      → (get_pushers same topic turns no_pushers).point i ≡ returned p
      → (get_pushers same topic turns no_pushers).point j ≡ returned q
      → (p ≡ q) × (look same (topic i) (get_pushers same topic turns no_pushers).pushers ≡ some p)
  get_pushers_one topic turns i j p q one at_i at_j =
      let s = get_pushers same topic turns no_pushers in
      let good = get_pushers-Good topic turns no_pushers (λ k. _) in
      let mine = known topic i (returned p) s at_i good in
      let other = known topic j (returned q) s at_j good in
      (some_inj p q (sym mine ∙ ap (λ t. look same t s.pushers) one ∙ other), mine)
