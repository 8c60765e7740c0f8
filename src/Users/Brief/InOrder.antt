-- ===== src/Users/Brief/InOrder.antt =====
-- BatchGetUserBrief, with its slots and indexes, is one lookup for each uid.
use gozero_x.Common.{
  ℕ, suc, Bool, true, false, ==_iff, ◌&&◌, ◌≡◌, refl, ap, ◌∙◌, inl, inr, Option, none, some,
  Option-cases, List, [], ◌∷◌, map, arith, ◌==◌,
}
use gozero_x.Cache.{Redis}
use gozero_x.Content.Batch.{UserBrief, has}
use gozero_x.Users.{User}
use gozero_x.Users.Hashes.{user_key, hit}
use gozero_x.Users.Brief.{
  Slots, slot, misses, find_batch, db_user, brief, set_slot, fill, success, complete,
  batch_get_user_brief,
}

-- The misses with every index moved up by one.
abbrev shift : List (ℕ × ℕ) → List (ℕ × ℕ)
shift [] = []
shift ((uid, i) ∷ ms) = (uid, suc i) ∷ shift ms

misses-suc :
    (i : ℕ) (ss : Slots) (uids : List ℕ) → misses (suc i) ss uids ≡ shift (misses i ss uids)
unfolding misses
misses-suc i [] uids = refl
misses-suc i (s ∷ ss) [] = refl
misses-suc i (some b ∷ ss) (uid ∷ uids) = misses-suc (suc i) ss uids
misses-suc i (none ∷ ss) (uid ∷ uids) = ap (λ ms. (uid, suc i) ∷ ms) (misses-suc (suc i) ss uids)

fill-shift :
    (f : ℕ → UserBrief) (ms : List (ℕ × ℕ)) (s : Option UserBrief) (ss : Slots)
    → fill f (shift ms) (s ∷ ss) ≡ s ∷ fill f ms ss
unfolding fill set_slot
fill-shift f [] s ss = refl
fill-shift f ((uid, i) ∷ ms) s ss = fill-shift f ms s (set_slot i (f uid) ss)

-- A slot that is filled, by what is in it or by the function.
abbrev filled : (ℕ → UserBrief) → ℕ → Option UserBrief → Option UserBrief
filled f uid none = some (f uid)
filled f uid (some b) = some b

fill-step :
    (f : ℕ → UserBrief) (uid : ℕ) (o : Option UserBrief) (ss : Slots) (uids : List ℕ)
    → fill f (misses 0 (o ∷ ss) (uid ∷ uids)) (o ∷ ss)
      ≡ filled f uid o ∷ fill f (misses 0 ss uids) ss
unfolding misses fill set_slot
fill-step f uid none ss uids =
    ap (λ ms. fill f ms (some (f uid) ∷ ss)) (misses-suc 0 ss uids)
    ∙ fill-shift f (misses 0 ss uids) (some (f uid)) ss
fill-step f uid (some b) ss uids =
    ap (λ ms. fill f ms (some b ∷ ss)) (misses-suc 0 ss uids)
    ∙ fill-shift f (misses 0 ss uids) (some b) ss

-- The loop leaves every slot that is taken, and fills every other with the user of its uid.
fill-misses :
    (f : ℕ → UserBrief) (g : ℕ → Option UserBrief) (uids : List ℕ)
    → fill f (misses 0 (map g uids) uids) (map g uids) ≡ map (λ uid. filled f uid (g uid)) uids
unfolding misses fill
fill-misses f g [] = refl
fill-misses f g (uid ∷ uids) =
    fill-step f uid (g uid) (map g uids) uids
    ∙ ap (λ ss. filled f uid (g uid) ∷ ss) (fill-misses f g uids)

abbrev is_none : Option UserBrief → Bool
is_none none = true
is_none (some b) = false

-- What is computed from equal ids is equal.
of_same : (f : ℕ → Bool) (m n : ℕ) → (m == n) ≡ true → f m ≡ f n
of_same f m n h = ap f ((==_iff m n).0 h)

-- A uid is asked for in the table where it is in the request and its slot is empty.
has-misses :
    (g : ℕ → Option UserBrief) (n i : ℕ) (uids : List ℕ)
    → has n (map (λ p. p.0) (misses i (map g uids) uids)) ≡ (has n uids && is_none (g n))
unfolding misses
has-misses g n i [] = refl
has-misses g n i (k ∷ uids) = elim (Option-cases (g k)) [
  | inl empty ↦ rw empty (
      ground
        (arith, has-misses g n (suc i) uids, of_same (λ m. is_none (g m)) k n, ap is_none empty))
  | inr (b, taken) ↦ rw taken (
      ground
        (arith, has-misses g n (suc i) uids, of_same (λ m. is_none (g m)) k n, ap is_none taken))
]

db_user-find_batch :
    (uid : ℕ) (uids : List ℕ) (rows : List User)
    → has uid uids ≡ true
    → db_user uid (find_batch uids rows) ≡ db_user uid rows
unfolding db_user find_batch
db_user-find_batch uid uids [] h = refl
db_user-find_batch uid uids (u ∷ rows) h =
    ground (arith, db_user-find_batch uid uids rows h, of_same (λ k. has k uids) u.uid uid)

-- Functions that agree on the entries give the same list.
map-has :
    {B : Type 0} (f g : ℕ → B) (xs : List ℕ)
    → ((n : ℕ) → has n xs ≡ true → f n ≡ g n)
    → map f xs ≡ map g xs
map-has f g [] same = refl
map-has f g (x ∷ xs) same =
    ap (λ y. y ∷ map f xs) (same x (ground arith))
    ∙ ap (λ ys. g x ∷ ys) (map-has f g xs (λ n h. same n (ground arith)))

filled_lem :
    (f : ℕ → UserBrief) (uid : ℕ) (o : Option UserBrief) (u : Option User)
    → (o ≡ none → f uid ≡ brief uid u)
    → filled f uid o ≡ some (elim o [ some b ↦ b | none ↦ brief uid u ])
filled_lem f uid none u h = ap some (h refl)
filled_lem f uid (some b) u h = refl

module _ (r : Redis) where
  -- One user, by its uid: from the cache, or else from the table, or else one who has left.
  abbrev pub brief_of : List User → r.State → ℕ → UserBrief
  brief_of rows s uid = elim (slot uid (hit (r.hgetall (user_key uid) s))) [
    | some b ↦ b
    | none ↦ brief uid (db_user uid rows)
  ]

  complete-fill :
      (rows : List User) (ss : Slots) (ms : List (ℕ × ℕ)) (s : r.State)
      → (complete r (some rows) ss ms s).0
        ≡ success
            (fill (λ uid. brief uid (db_user uid (find_batch (map (λ p. p.0) ms) rows))) ms ss)
  unfolding complete fill
  complete-fill rows ss [] s = refl
  complete-fill rows ss (m ∷ ms) s = refl

  -- Where the table can be read, BatchGetUserBrief is one lookup for each uid of the request, in the
  -- order of the request, with repeated uids repeated.
  pub batch_get_user_brief-map :
      (rows : List User) (uids : List ℕ) (s : r.State)
      → (batch_get_user_brief r (some rows) uids s).0
        ≡ success (map (λ uid. some (brief_of rows s uid)) uids)
  unfolding batch_get_user_brief
  batch_get_user_brief-map rows [] s = refl
  batch_get_user_brief-map rows (n ∷ ns) s =
      complete-fill rows (map g (n ∷ ns)) ms s
      ∙ ap success (fill-misses f g (n ∷ ns))
      ∙ ap success
          (map-has (λ uid. filled f uid (g uid)) (λ uid. some (brief_of rows s uid)) (n ∷ ns) agree)
    where
      g : ℕ → Option UserBrief
      g uid = slot uid (hit (r.hgetall (user_key uid) s))

      ms : List (ℕ × ℕ)
      ms = misses 0 (map g (n ∷ ns)) (n ∷ ns)

      f : ℕ → UserBrief
      f uid = brief uid (db_user uid (find_batch (map (λ p. p.0) ms) rows))

      asked :
          (uid : ℕ) → has uid (n ∷ ns) ≡ true → g uid ≡ none → has uid (map (λ p. p.0) ms) ≡ true
      asked uid h empty =
          has-misses g uid 0 (n ∷ ns) ∙ ap (λ b. b && is_none (g uid)) h ∙ ap is_none empty

      agree :
          (uid : ℕ) → has uid (n ∷ ns) ≡ true → filled f uid (g uid) ≡ some (brief_of rows s uid)
      agree uid h = filled_lem f uid (g uid) (db_user uid rows) (λ empty.
          ap (brief uid) (db_user-find_batch uid (map (λ p. p.0) ms) rows (asked uid h empty)))
