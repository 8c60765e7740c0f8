-- ===== src/Notice/Rows.antt =====
-- The invariant of the table of like notices, and that every statement keeps it.
use gozero_x.Common.{
  Bool-cases, inl, inr, map, ℕ, ◌≡◌, ◌≢◌, refl, false, Option, none, some, List, [], ◌∷◌, ◌++◌,
  ◌==◌, arith, ◌&&◌,
}
use gozero_x.Common.Int.{ℤ, pos, ◌≤ℤ◌, ◌+ℤ◌}
use gozero_x.Notice.Tables.{
  NoticeLike, same_target, find_by_uid_and_target, mark_like, aggregated, target_taken, like_taken,
  upsert, liked_again,
}
use gozero_x.Notice.Consumer.{one_less}

-- A row counts between 0 and all its likes as new, none of them where it has been read.
abbrev pub RowIsValid : NoticeLike → Type 0
RowIsValid r =
    (pos 0 ≤ℤ r.recent_count)
    × (r.recent_count ≤ℤ r.total_count)
    × (r.is_read ≢ 0 → r.recent_count ≡ pos 0)
    × (r.status ≡ 0)

-- No row has the target.
abbrev pub Absent : ℕ → ℕ → ℕ → List NoticeLike → Type 0
Absent uid target_type target_id [] = Unit
Absent uid target_type target_id (r ∷ rs) =
    (same_target uid target_type target_id r ≡ false) × Absent uid target_type target_id rs

-- Every row is valid, and no two rows have the same target or the same primary key.
abbrev pub IsValid : List NoticeLike → Type 0
IsValid [] = Unit
IsValid (r ∷ rs) =
    RowIsValid r
    × Absent r.uid r.target_type r.target_id rs
    × (like_taken r.snow_nid rs ≡ false)
    × IsValid rs

-- An update of rows that leaves the columns of both keys alone and the rows valid.
abbrev pub Keeps : (NoticeLike → NoticeLike) → Type 0
Keeps f =
    (r : NoticeLike)
    → ((f r).uid ≡ r.uid)
      × ((f r).target_type ≡ r.target_type)
      × ((f r).target_id ≡ r.target_id)
      × ((f r).snow_nid ≡ r.snow_nid)
      × (RowIsValid r → RowIsValid (f r))

module _ (f : NoticeLike → NoticeLike) (keeps : Keeps f) where
  pub map-Absent :
      (uid target_type target_id : ℕ) (rs : List NoticeLike)
      → Absent uid target_type target_id rs
      → Absent uid target_type target_id (map f rs)
  map-Absent uid target_type target_id [] h = _
  map-Absent uid target_type target_id (r ∷ rs) h =
      (ground (arith, keeps r), map-Absent uid target_type target_id rs h.1)

  pub map-taken : (n : ℕ) (rs : List NoticeLike) → like_taken n (map f rs) ≡ like_taken n rs
  map-taken n [] = refl
  map-taken n (r ∷ rs) = ground (arith, keeps r, map-taken n rs)

  pub map-IsValid : (rs : List NoticeLike) → IsValid rs → IsValid (map f rs)
  map-IsValid [] h = _
  map-IsValid (r ∷ rs) h = (
    (keeps r).4 h.0,
    rw ((keeps r).0, (keeps r).1, (keeps r).2) (map-Absent r.uid r.target_type r.target_id rs h.1),
    rw ((keeps r).3, map-taken r.snow_nid rs) h.2,
    map-IsValid rs h.3,
  )

pub mark_like-Keeps : (now uid : ℕ) → Keeps (mark_like now uid)
mark_like-Keeps now uid r =
    (ground arith, ground arith, ground arith, ground arith, λ h. ground arith)

pub one_less-pos : (n : ℤ) → pos 0 ≤ℤ one_less n
unfolding ◌+ℤ◌
one_less-pos n = ground arith

pub one_less-mono : (m n : ℤ) → m ≤ℤ n → one_less m ≤ℤ one_less n
unfolding ◌+ℤ◌
one_less-mono m n h = ground arith

pub aggregated-Keeps :
    (now n u1 u2 : ℕ) (total recent : ℤ)
    → pos 0 ≤ℤ recent
    → recent ≤ℤ total
    → Keeps (aggregated now n u1 u2 total recent)
aggregated-Keeps now n u1 u2 total recent some_new bounded r =
    (ground arith, ground arith, ground arith, ground arith, λ h. ground arith)

pub liked_again-Keeps : (now : ℕ) (row : NoticeLike) → Keeps (liked_again now row)
unfolding ◌+ℤ◌
liked_again-Keeps now row r =
    (ground arith, ground arith, ground arith, ground arith, λ h. ground arith)

pub target_free-Absent :
    (u t i : ℕ) (rs : List NoticeLike) → target_taken u t i rs ≡ false → Absent u t i rs
target_free-Absent u t i [] h = _
target_free-Absent u t i (r ∷ rs) h = (ground arith, target_free-Absent u t i rs (ground arith))

-- A row with new keys at the end.
module _ (row : NoticeLike) where
  append-Absent :
      (u t i : ℕ) (rs : List NoticeLike)
      → Absent u t i rs
      → same_target u t i row ≡ false
      → Absent u t i (rs ++ (row ∷ []))
  append-Absent u t i [] h e = (e, _)
  append-Absent u t i (r ∷ rs) h e = (h.0, append-Absent u t i rs h.1 e)

  append-taken :
      (n : ℕ) (rs : List NoticeLike)
      → like_taken n rs ≡ false
      → (row.snow_nid == n) ≡ false
      → like_taken n (rs ++ (row ∷ [])) ≡ false
  append-taken n [] h e = ground arith
  append-taken n (r ∷ rs) h e = ground (arith, append-taken n rs)

  append-IsValid :
      (rs : List NoticeLike)
      → RowIsValid row
      → Absent row.uid row.target_type row.target_id rs
      → like_taken row.snow_nid rs ≡ false
      → IsValid rs
      → IsValid (rs ++ (row ∷ []))
  append-IsValid [] ok absent free h = (ok, _, refl, _)
  append-IsValid (r ∷ rs) ok absent free h = (
    h.0,
    append-Absent r.uid r.target_type r.target_id rs h.1 (ground arith),
    append-taken r.snow_nid rs h.2 (ground arith),
    append-IsValid rs ok absent.1 (ground arith) h.3,
  )

-- What a statement leaves, if it succeeds.
abbrev pub Leaves : Option (List NoticeLike) → Type 0
Leaves none = Unit
Leaves (some rs) = IsValid rs

pub upsert-Leaves :
    (now : ℕ) (row : NoticeLike) (rs : List NoticeLike)
    → RowIsValid row
    → IsValid rs
    → Leaves (upsert now row rs)
unfolding upsert
upsert-Leaves now row rs ok h =
    elim (Bool-cases (target_taken row.uid row.target_type row.target_id rs)) [
      | inl taken ↦ rw (taken) (map-IsValid (liked_again now row) (liked_again-Keeps now row) rs h)
      | inr free ↦ elim (Bool-cases (like_taken row.snow_nid rs)) [
        | inl collides ↦ rw (free, collides) _
        | inr fresh ↦
            rw (free, fresh)
              (append-IsValid (record row { created_at = now; updated_at = now }) rs ok
                (target_free-Absent row.uid row.target_type row.target_id rs free) fresh h)
      ]
    ]

abbrev pub Found : Option NoticeLike → Type 0
Found none = Unit
Found (some r) = RowIsValid r

pub find-Found :
    (u t i : ℕ) (rs : List NoticeLike) → IsValid rs → Found (find_by_uid_and_target u t i rs)
unfolding find_by_uid_and_target
find-Found u t i [] h = _
find-Found u t i (r ∷ rs) h = elim (Bool-cases (same_target u t i r && r.status == 0)) [
  | inl here ↦ rw (here) h.0
  | inr there ↦ rw (there) (find-Found u t i rs h.3)
]
