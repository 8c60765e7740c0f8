-- ===== src/Cache/Manager/Pushed.antt =====
-- What RPush of pkg/cache/manager.go leaves in a list, and LRange reads of it.
use Prim.Native.String.{String}
use gozero_x.Common.{
  ℕ, suc, ◌+◌, ◌-◌, ◌≡◌, refl, sym, ap, ◌∙◌, Bool, true, ◌||◌, none, some, List, [], ◌∷◌, ◌++◌, map,
  arith, length, take, All, take-All, ++_nil, ++_assoc, All-append, map-append, length-append,
  some_inj, Option-cases, inl, inr, ◌==◌,
}
use gozero_x.Common.Int.{ℤ, pos, negsuc}
use gozero_x.Cache.{Key, key}
use gozero_x.Cache.Decimal.{format_int, IsInt64, parse_int-format_int}
use gozero_x.Cache.Manager.{Client, IsLawful, parse_each, l_range, push_each, r_push}

-- Texts of int64 are read back.
parse_each-map : (vs : List ℤ) → All IsInt64 vs → parse_each (map format_int vs) ≡ vs
unfolding parse_each
parse_each-map [] h = refl
parse_each-map (v ∷ vs) h = rw (parse_int-format_int v h.0, parse_each-map vs h.1) refl

told_suc : (told : Bool) (m n : ℕ) → told || m == n ≡ true → told || suc m == suc n ≡ true
told_suc told m n h = ground arith

module _ (c : Client) (lawful : IsLawful c) where
  -- The values whose command succeeds.
  unfoldable pushed : Key → List ℤ → c.State → List ℤ
  pushed k [] s = []
  pushed k (v ∷ vs) s = elim (c.rpush k (format_int v) s) [ none ↦ [] | some t ↦ v ∷ pushed k vs t ]

  pushed-take :
      (k : Key) (vs : List ℤ) (s : c.State) → pushed k vs s ≡ take (length (pushed k vs s)) vs
  unfolding pushed
  pushed-take k [] s = refl
  pushed-take k (v ∷ vs) s = elim (Option-cases (c.rpush k (format_int v) s)) [
    | inl failed ↦ rw (pushed, failed) refl
    | inr (t, done) ↦ rw (pushed, done) (ap (λ l. v ∷ l) (pushed-take k vs t))
  ]

  pushed-told :
      (k : Key) (vs : List ℤ) (s : c.State)
      → (push_each c k vs s).0 || length (pushed k vs s) == length vs ≡ true
  unfolding pushed push_each
  pushed-told k [] s = refl
  pushed-told k (v ∷ vs) s = elim (Option-cases (c.rpush k (format_int v) s)) [
    | inl failed ↦ rw (pushed, push_each, failed) refl
    | inr (t, done) ↦
        rw (pushed, push_each, done)
          (told_suc (push_each c k vs t).0 (length (pushed k vs t)) (length vs)
            (pushed-told k vs t))
  ]

  items-push :
      (k : Key) (vs : List ℤ) (s : c.State)
      → c.items k (push_each c k vs s).1 ≡ c.items k s ++ map format_int (pushed k vs s)
  unfolding pushed push_each
  items-push k [] s = sym (++_nil (c.items k s))
  items-push k (v ∷ vs) s = elim (Option-cases (c.rpush k (format_int v) s)) [
    | inl failed ↦ rw (pushed, push_each, failed) (sym (++_nil (c.items k s)))
    | inr (t, done) ↦
        rw (pushed, push_each, done)
          (items-push k vs t
            ∙ ap (λ l. l ++ map format_int (pushed k vs t))
                (lawful.rpush_appends k (format_int v) s t done)
            ∙ ++_assoc (c.items k s) (format_int v ∷ []) (map format_int (pushed k vs t)))
  ]

  pushed-All : (k : Key) (vs : List ℤ) (s : c.State) → All IsInt64 vs → All IsInt64 (pushed k vs s)
  pushed-All k vs s h = rw (pushed-take k vs s) (take-All IsInt64 (length (pushed k vs s)) vs h)

  -- LRange tells the ids whose texts the list holds.
  l_range-items :
      (m d : String) (i : ℕ) (vs now : List ℤ) (s : c.State)
      → All IsInt64 vs
      → c.items (key m d i) s ≡ map format_int vs
      → l_range c m d i (pos 0) (negsuc 0) s ≡ some now
      → now ≡ vs
  unfolding l_range
  l_range-items m d i vs now s h kept read =
      elim (Option-cases (c.lrange (key m d i) (pos 0) (negsuc 0) s)) [
        | inl failed ↦ ground (arith, failed)
        | inr (ts, told) ↦
            some_inj now (parse_each ts) (sym read ∙ rw told refl)
            ∙ ap parse_each (lawful.lrange_all (key m d i) s ts told ∙ kept)
            ∙ parse_each-map vs h
      ]

  -- After RPush has pushed int64, LRange reads the ids that were there and, behind them, the
  -- first of the pushed ones: all of them, or RPush has told an error.
  pub l_range-r_push :
      (m d : String) (i : ℕ) (old vs now : List ℤ) (s : c.State)
      → All IsInt64 old
      → All IsInt64 vs
      → c.items (key m d i) s ≡ map format_int old
      → l_range c m d i (pos 0) (negsuc 0) (r_push c m d i vs s).1 ≡ some now
      → (now ≡ old ++ take (length now - length old) vs)
        × ((r_push c m d i vs s).0 || length now == length old + length vs ≡ true)
  unfolding l_range r_push
  l_range-r_push m d i old vs now s olds news before read =
      let k = key m d i in
      let told : now ≡ old ++ pushed k vs s =
        l_range-items m d i (old ++ pushed k vs s) now (push_each c k vs s).1
          (All-append IsInt64 old (pushed k vs s) olds (pushed-All k vs s news))
          (items-push k vs s
            ∙ ap (λ l. l ++ map format_int (pushed k vs s)) before
            ∙ sym (map-append format_int old (pushed k vs s)))
          read in
      let more : length now ≡ length old + length (pushed k vs s) =
        ap length told ∙ length-append old (pushed k vs s) in
      (
        told ∙ ap (λ l. old ++ l) (pushed-take k vs s ∙ ap (λ n. take n vs) (omega (arith, more))),
        ground (arith, more, pushed-told k vs s),
      )
