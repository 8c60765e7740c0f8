-- ===== src/Notice/Cancel.antt =====
-- What a like that is taken back does to the notices.
use gozero_x.Common.{
  ℕ, ◌≡◌, refl, sym, ap, ◌∙◌, true, false, Bool, Bool-cases, Option, none, some, inl, inr, ◌⊎◌,
  List, [], ◌∷◌, map, ◌==◌, arith, if◌then◌else◌, ◌&&◌,
}
use gozero_x.Common.Int.{ℤ, negsuc, pos, int_laws, ◌+ℤ◌, +ℤ_assoc, ltb_ℤ}
use gozero_x.Json.{Message, field, to_int64}
use gozero_x.Interact.Effects.{Consumed, done, failed}
use gozero_x.Notice.Tables.{
  NoticeLike, same_target, find_by_uid_and_target, update_aggregation, like_taken, unread_like,
  count_unread_likes, aggregated,
}
use gozero_x.Notice.Counts.{count-cons, weight}
use gozero_x.Notice.Rows.{aggregated-Keeps, one_less-pos, one_less-mono, RowIsValid, IsValid}
use gozero_x.Notice.Consumer.{
  Notices, Answers, one_less, cancelled, cancel_with, handle_cancel_like,
}

-- The rows without a primary key are left alone.
aggregated-free :
    (now n u1 u2 : ℕ) (total recent : ℤ) (rs : List NoticeLike)
    → like_taken n rs ≡ false
    → map (aggregated now n u1 u2 total recent) rs ≡ rs
aggregated-free now n u1 u2 total recent [] free = refl
aggregated-free now n u1 u2 total recent (r ∷ rs) free =
    rw (aggregated-free now n u1 u2 total recent rs (ground arith)) (ground arith)

-- One unread notice less, if there is one.
abbrev pub withdrawn : ℤ → ℤ
withdrawn recent = if ltb_ℤ (pos 0) recent then negsuc 0 else pos 0

abbrev pub withdrawn_for : ℕ → Option NoticeLike → ℤ
withdrawn_for v none = pos 0
withdrawn_for v (some r) = if r.uid == v then withdrawn r.recent_count else pos 0

-- The update of a row that is found.
abbrev cancel_row : ℕ → NoticeLike → NoticeLike → NoticeLike
cancel_row now r =
    aggregated now r.snow_nid r.recent_uid1 r.recent_uid2 (one_less r.total_count)
      (one_less r.recent_count)

abbrev Lowers : ℕ → ℕ → List NoticeLike → Option NoticeLike → Type 0
Lowers now v rs none = Unit
Lowers now v rs (some r) =
    count_unread_likes v (map (cancel_row now r) rs)
    ≡ count_unread_likes v rs +ℤ withdrawn_for v (some r)

abbrev IsThere : List NoticeLike → Option NoticeLike → Type 0
IsThere rs none = Unit
IsThere rs (some r) = like_taken r.snow_nid rs ≡ true

IsThere-cons :
    (x : NoticeLike) (xs : List NoticeLike) (o : Option NoticeLike)
    → IsThere xs o
    → IsThere (x ∷ xs) o
IsThere-cons x xs none h = _
IsThere-cons x xs (some r) h = ground arith

find-IsThere : (u t i : ℕ) (rs : List NoticeLike) → IsThere rs (find_by_uid_and_target u t i rs)
unfolding find_by_uid_and_target
find-IsThere u t i [] = _
find-IsThere u t i (x ∷ xs) = elim (Bool-cases (same_target u t i x && x.status == 0)) [
  | inl here ↦ rw (here) (ground arith)
  | inr there ↦
      rw (there) (IsThere-cons x xs (find_by_uid_and_target u t i xs) (find-IsThere u t i xs))
]

cancel_row-RowIsValid : (now : ℕ) (x : NoticeLike) → RowIsValid x → RowIsValid (cancel_row now x x)
cancel_row-RowIsValid now x ok =
    (aggregated-Keeps now x.snow_nid x.recent_uid1 x.recent_uid2 (one_less x.total_count)
        (one_less x.recent_count) (one_less-pos x.recent_count)
        (one_less-mono x.recent_count x.total_count ok.1) x).4
      ok

cancel_row-weight :
    (now v : ℕ) (x : NoticeLike)
    → RowIsValid x
    → weight v (cancel_row now x x) ≡ weight v x +ℤ withdrawn_for v (some x)
unfolding ◌+ℤ◌
cancel_row-weight now v x ok = ground arith

swap-+ℤ : (a b c : ℤ) → (a +ℤ b) +ℤ c ≡ (a +ℤ c) +ℤ b
swap-+ℤ a b c = omega int_laws

head-count :
    (now v : ℕ) (x : NoticeLike) (xs : List NoticeLike)
    → RowIsValid x
    → count_unread_likes v (cancel_row now x x ∷ xs)
      ≡ count_unread_likes v (x ∷ xs) +ℤ withdrawn_for v (some x)
head-count now v x xs ok =
    count-cons v (cancel_row now x x) xs (cancel_row-RowIsValid now x ok)
    ∙ ap (λ w. w +ℤ count_unread_likes v xs) (cancel_row-weight now v x ok)
    ∙ swap-+ℤ (weight v x) (withdrawn_for v (some x)) (count_unread_likes v xs)
    ∙ ap (λ c. c +ℤ withdrawn_for v (some x)) (sym (count-cons v x xs ok))

distinct :
    (m n : ℕ) (rs : List NoticeLike)
    → like_taken m rs ≡ false
    → like_taken n rs ≡ true
    → (m == n) ≡ false
distinct m n [] free taken = ground arith
distinct m n (r ∷ rs) free taken = ground (arith, distinct m n rs)

cancel_row-other :
    (now : ℕ) (r x : NoticeLike) → (x.snow_nid == r.snow_nid) ≡ false → cancel_row now r x ≡ x
cancel_row-other now r x other = ground arith

tail-count :
    (now v : ℕ) (x : NoticeLike) (xs : List NoticeLike) (o : Option NoticeLike)
    → like_taken x.snow_nid xs ≡ false
    → IsThere xs o
    → Lowers now v xs o
    → Lowers now v (x ∷ xs) o
unfolding count_unread_likes
tail-count now v x xs none free is_there lowers = _
tail-count now v x xs (some r) free is_there lowers =
    ap (count_unread_likes v) (
      ap (λ y. y ∷ map (cancel_row now r) xs)
        (cancel_row-other now r x (distinct x.snow_nid r.snow_nid xs free is_there)))
    ∙ (elim (Bool-cases (unread_like v x)) [
      | inl new ↦
          rw (new, lowers)
            (sym (+ℤ_assoc x.recent_count (count_unread_likes v xs) (withdrawn_for v (some r))))
      | inr old ↦ rw (old) lowers
    ])

find-Lowers :
    (now v u t i : ℕ) (rs : List NoticeLike)
    → IsValid rs
    → Lowers now v rs (find_by_uid_and_target u t i rs)
unfolding find_by_uid_and_target
find-Lowers now v u t i [] h = _
find-Lowers now v u t i (x ∷ xs) h = elim (Bool-cases (same_target u t i x && x.status == 0)) [
  | inl here ↦ rw (here) (
      ap (λ ys. count_unread_likes v (cancel_row now x x ∷ ys))
        (aggregated-free now x.snow_nid x.recent_uid1 x.recent_uid2 (one_less x.total_count)
          (one_less x.recent_count) xs h.2)
      ∙ head-count now v x xs h.0)
  | inr there ↦ rw (there) (
      tail-count now v x xs (find_by_uid_and_target u t i xs) h.2 (find-IsThere u t i xs)
        (find-Lowers now v u t i xs h.3))
]

-- What a message does to the state and the unread counts: it is taken, and the count moves by
-- `delta`, or it fails and nothing changes.
abbrev pub Moves : ℕ → ℤ → Notices → Consumed × Notices → Type 0
Moves v delta s (outcome, s') =
    ((outcome ≡ done) × (count_unread_likes v s'.likes ≡ count_unread_likes v s.likes +ℤ delta))
    ⊎ ((outcome ≡ failed) × (s' ≡ s))

cancelled-Moves :
    (a : Answers) (o : Option NoticeLike) (s : Notices) (v : ℕ)
    → Lowers a.now v s.likes o
    → Moves v (withdrawn_for v o) s (cancelled a o s)
unfolding cancelled update_aggregation
cancelled-Moves a none s v lowers = inl (refl, omega int_laws)
cancelled-Moves a (some r) s v lowers = inl (refl, lowers)

-- The notice that a message takes a like back from.
abbrev pub notice_of : Message → List NoticeLike → Option NoticeLike
notice_of m rs =
    find_by_uid_and_target (to_int64 (field "recipient_uid" m)) (to_int64 (field "target_type" m))
      (to_int64 (field "target_id" m)) rs

cancel_with-Moves :
    (a : Answers) (m : Message) (s : Notices) (ok : Bool) (v : ℕ)
    → IsValid s.likes
    → Moves v (withdrawn_for v (notice_of m s.likes)) s (cancel_with a m s ok)
unfolding cancel_with
cancel_with-Moves a m s false v h = inr (refl, refl)
cancel_with-Moves a m s true v h =
    cancelled-Moves a (notice_of m s.likes) s v (find-Lowers a.now v _ _ _ s.likes h)

-- A message that takes a like back is either taken, and then the unread count of the owner of the
-- notice is one lower if the notice counts a new like, and every other count is unchanged; or it
-- fails, and nothing changes. The like notices are valid before.
pub handle_cancel_like-unread :
    (a : Answers) (m : Message) (s : Notices) (v : ℕ)
    → IsValid s.likes
    → Moves v (withdrawn_for v (notice_of m s.likes)) s (handle_cancel_like a m s)
unfolding handle_cancel_like
handle_cancel_like-unread a m s v h = cancel_with-Moves a m s a.db_ok v h
