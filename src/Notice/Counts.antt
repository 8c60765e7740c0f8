-- ===== src/Notice/Counts.antt =====
-- What a like does to the unread counts of the notice service.
use gozero_x.Common.{
  ℕ, ◌≡◌, refl, sym, ap, ◌∙◌, true, false, Bool, Bool-cases, Option, none, some, inl, inr, ◌⊎◌,
  List, [], ◌∷◌, ◌++◌, map, ◌==◌, arith, if◌then◌else◌,
}
use gozero_x.Common.Int.{ℤ, pos, int_laws, ◌+ℤ◌, +ℤ_assoc}
use gozero_x.Json.{Message, field, to_int64}
use gozero_x.Interact.Effects.{Consumed, done, failed}
use gozero_x.Notice.Tables.{
  NoticeLike, same_target, target_taken, like_taken, upsert, liked_again, unread_like,
  count_unread_likes,
}
use gozero_x.Notice.Rows.{RowIsValid, Absent, IsValid}
use gozero_x.Notice.Consumer.{Notices, Answers, like_row, set_likes, like_with, handle_like}

-- One unread notice, of one user.
abbrev pub one_for : ℕ → ℕ → ℤ
one_for uid v = if uid == v then pos 1 else pos 0

-- What a valid row adds to the count of a user.
abbrev pub weight : ℕ → NoticeLike → ℤ
weight v r = if r.uid == v then r.recent_count else pos 0

pub count-cons :
    (v : ℕ) (r : NoticeLike) (rs : List NoticeLike)
    → RowIsValid r
    → count_unread_likes v (r ∷ rs) ≡ weight v r +ℤ count_unread_likes v rs
unfolding count_unread_likes ◌+ℤ◌
count-cons v r rs ok = ground arith

same-Absent :
    (u t i : ℕ) (r : NoticeLike) (rs : List NoticeLike)
    → same_target u t i r ≡ true
    → Absent r.uid r.target_type r.target_id rs
    → Absent u t i rs
same-Absent u t i r [] same h = _
same-Absent u t i r (x ∷ xs) same h = (ground arith, same-Absent u t i r xs same h.1)

module _ (now : ℕ) (row : NoticeLike) where
  liked_again-Absent :
      (rs : List NoticeLike)
      → Absent row.uid row.target_type row.target_id rs
      → map (liked_again now row) rs ≡ rs
  liked_again-Absent [] h = refl
  liked_again-Absent (r ∷ rs) h = rw (liked_again-Absent rs h.1) (ground arith)

  liked_again-count :
      (v : ℕ) (rs : List NoticeLike)
      → IsValid rs
      → target_taken row.uid row.target_type row.target_id rs ≡ true
      → count_unread_likes v (map (liked_again now row) rs)
        ≡ count_unread_likes v rs +ℤ one_for row.uid v
  unfolding count_unread_likes ◌+ℤ◌
  liked_again-count v [] h taken = ground arith
  liked_again-count v (r ∷ rs) h taken =
      elim (Bool-cases (same_target row.uid row.target_type row.target_id r)) [
        | inl here ↦
            rw
              (liked_again-Absent rs
                (same-Absent row.uid row.target_type row.target_id r rs here h.1))
              (ground arith)
        | inr there ↦ ground (arith, liked_again-count v rs h.3)
      ]

fresh-count :
    (v : ℕ) (row : NoticeLike) (rs : List NoticeLike)
    → count_unread_likes v (rs ++ (row ∷ []))
      ≡ count_unread_likes v rs +ℤ (if unread_like v row then row.recent_count else pos 0)
unfolding count_unread_likes
fresh-count v row [] = elim (Bool-cases (unread_like v row)) [
  | inl new ↦ rw (new) (omega int_laws)
  | inr old ↦ rw (old) (omega int_laws)
]
fresh-count v row (r ∷ rs) = elim (Bool-cases (unread_like v r)) [
  | inl new ↦
      rw (new, fresh-count v row rs)
        (sym (
          +ℤ_assoc r.recent_count (count_unread_likes v rs)
            (if unread_like v row then row.recent_count else pos 0)))
  | inr old ↦ rw (old) (fresh-count v row rs)
]

-- The count of a user after a statement that succeeds is one higher for one recipient.
abbrev Rises : ℕ → ℕ → List NoticeLike → Option (List NoticeLike) → Type 0
Rises uid v rs none = Unit
Rises uid v rs (some rs') = count_unread_likes v rs' ≡ count_unread_likes v rs +ℤ one_for uid v

-- What a first like adds.
first-one :
    (v : ℕ) (row : NoticeLike)
    → row.recent_count ≡ pos 1
    → row.is_read ≡ 0
    → row.status ≡ 0
    → (if unread_like v row then row.recent_count else pos 0) ≡ one_for row.uid v
first-one v row one new live = ground arith

upsert-Rises :
    (now : ℕ) (row : NoticeLike) (v : ℕ) (rs : List NoticeLike)
    → row.recent_count ≡ pos 1
    → row.is_read ≡ 0
    → row.status ≡ 0
    → IsValid rs
    → Rises row.uid v rs (upsert now row rs)
unfolding upsert
upsert-Rises now row v rs one new live h =
    elim (Bool-cases (target_taken row.uid row.target_type row.target_id rs)) [
      | inl taken ↦ rw (taken) (liked_again-count now row v rs h taken)
      | inr free ↦ elim (Bool-cases (like_taken row.snow_nid rs)) [
        | inl collides ↦ rw (free, collides) _
        | inr fresh ↦
            rw (free, fresh)
              (fresh-count v (record row { created_at = now; updated_at = now }) rs
                ∙ ap (λ x. count_unread_likes v rs +ℤ x) (first-one v row one new live))
      ]
    ]

-- What a message does to the state and the unread counts: it is taken, and the recipient has one
-- more, or it fails and nothing changes.
abbrev pub Notifies : ℕ → ℕ → Notices → Consumed × Notices → Type 0
Notifies uid v s (outcome, s') =
    ((outcome ≡ done)
      × (count_unread_likes v s'.likes ≡ count_unread_likes v s.likes +ℤ one_for uid v))
    ⊎ ((outcome ≡ failed) × (s' ≡ s))

set_likes-Notifies :
    (uid v : ℕ) (s : Notices) (o : Option (List NoticeLike))
    → Rises uid v s.likes o
    → Notifies uid v s (set_likes s o)
unfolding set_likes
set_likes-Notifies uid v s none rises = inr (refl, refl)
set_likes-Notifies uid v s (some rs) rises = inl (refl, rises)

like_with-Notifies :
    (a : Answers) (m : Message) (s : Notices) (o : Option ℕ) (ok : Bool) (v : ℕ)
    → IsValid s.likes
    → Notifies (to_int64 (field "recipient_uid" m)) v s (like_with a m s o ok)
unfolding like_with
like_with-Notifies a m s none ok v h = inr (refl, refl)
like_with-Notifies a m s (some n) false v h = inr (refl, refl)
like_with-Notifies a m s (some n) true v h =
    set_likes-Notifies _ v s _ (upsert-Rises a.now (like_row m n) v s.likes refl refl refl h)

-- A message of a like is either taken, and then the unread count of its recipient is one higher and
-- that of every other user is unchanged, also where a notice that had been read is counted again;
-- or it fails, and nothing changes. The like notices are valid before.
pub handle_like-unread :
    (a : Answers) (m : Message) (s : Notices) (v : ℕ)
    → IsValid s.likes
    → Notifies (to_int64 (field "recipient_uid" m)) v s (handle_like a m s)
unfolding handle_like
handle_like-unread a m s v h = like_with-Notifies a m s a.new_id a.db_ok v h
