-- ===== src/Users/Coherent/Tables.antt =====
-- The changes of the table that keep the entries right.
use Prim.Native.String.{String}
use text.Mathlib.Text.{◌==◌ as str_eq}
use text.Mathlib.TextEquality.{eq_iff}
use mathlib.Core.Path.{subst}
use gozero_x.Common.{
  ℕ, Bool, true, false, Bool-cases, ==_iff, ◌≡◌, refl, sym, ap, ◌∙◌, inl, inr, Option, none, some,
  some_inj, List, [], ◌∷◌, map, arith, ◌==◌, if◌then◌else◌,
}
use gozero_x.Common.Int.{ℤ}
use gozero_x.Users.{User, find_mobile, find_uid, is_taken, with_stats, with_login}
use gozero_x.Users.Rows.{CachedConn, IsLawful}
use gozero_x.Users.Coherent.{account, account, account_of, view, of_if, IsCoherent}

-- Rows that keep what an account is.
pub record Keeps (f : User → User) : Type 0 where
  pub uid : (u : User) → (f u).uid ≡ u.uid
  pub mobile : (u : User) → (f u).mobile ≡ u.mobile
  pub account_same : (u : User) → account (f u) ≡ account u

abbrev pub after : (User → User) → Option User → Option User
after f none = none
after f (some u) = some (f u)

module _ (f : User → User) (k : Keeps f) where
  after-if :
      (b : Bool) (u : User) (o : Option User)
      → (if b then some (f u) else after f o) ≡ after f (if b then some u else o)
  after-if true u o = refl
  after-if false u o = refl

  find_mobile-map :
      (m : String) (t : List User) → find_mobile m (map f t) ≡ after f (find_mobile m t)
  unfolding find_mobile
  find_mobile-map m [] = refl
  find_mobile-map m (u ∷ t) =
      simp (k.mobile u, find_mobile-map m t) (after-if (str_eq u.mobile m) u (find_mobile m t))

  pub find_uid-map : (n : ℕ) (t : List User) → find_uid n (map f t) ≡ after f (find_uid n t)
  unfolding find_uid
  find_uid-map n [] = refl
  find_uid-map n (u ∷ t) = simp (k.uid u, find_uid-map n t) (after-if (u.uid == n) u (find_uid n t))

  after-some :
      (o : Option User) (u : User) → after f o ≡ some u → (v : User) × (o ≡ some v) × (f v ≡ u)
  after-some none u h = absurd (ground arith)
  after-some (some v) u h = (v, refl, some_inj (f v) u h)

  pub map-IsCoherent :
      (c : CachedConn) (t : List User) (rows : c.State)
      → IsCoherent c t rows
      → IsCoherent c (map f t) rows
  map-IsCoherent c t rows v = record {
    keyed = λ m u h.
        let (w, there, same) = after-some (find_mobile m t) u (sym (find_mobile-map m t) ∙ h) in
        subst (λ x. find_uid x.uid (map f t) ≡ some x) same
          (find_uid-map (f w).uid t
            ∙ ap (after f) (ap (λ n. find_uid n t) (k.uid w) ∙ v.keyed m w there));
    index_missing = λ m h. find_mobile-map m t ∙ ap (after f) (v.index_missing m h);
    index_right = λ m n h.
        let (u, there, right) = v.index_right m n h in
        (f u, find_mobile-map m t ∙ ap (after f) there, k.uid u ∙ right);
    row_right = λ n u h.
        let (w, there, right) = v.row_right n u h in
        (f w, find_uid-map n t ∙ ap (after f) there, k.account_same w ∙ right);
    row_there = v.row_there;
  }

  pub view-map : (m : String) (t : List User) → view (map f t) m ≡ view t m
  view-map m t = ap account_of (find_mobile-map m t) ∙ same (find_mobile m t)
    where
      same : (o : Option User) → account_of (after f o) ≡ account_of o
      same none = refl
      same (some u) = ap some (k.account_same u)

pub with_stats-Keeps : (uid kind : ℕ) (delta : ℤ) (now : ℕ) → Keeps (with_stats uid kind delta now)
unfolding with_stats
with_stats-Keeps uid kind delta now = record {
  uid = λ u. ground arith;
  mobile = λ u. ground arith;
  account_same = λ u. ground arith;
}

pub with_login-Keeps : (uid now : ℕ) → Keeps (with_login uid now)
unfolding with_login
with_login-Keeps uid now = record {
  uid = λ u. ground arith;
  mobile = λ u. ground arith;
  account_same = λ u. ground arith;
}

-- A mobile that an insert finds free is in no row.
is_taken-find_mobile :
    (v : User) (t : List User) → is_taken v t ≡ false → find_mobile v.mobile t ≡ none
unfolding is_taken find_mobile
is_taken-find_mobile v [] h = refl
is_taken-find_mobile v (u ∷ t) h = ground (arith, is_taken-find_mobile v t)

-- Another mobile, and a uid that is there, are found as before.
find_mobile-cons :
    (m : String) (u : User) (t : List User)
    → str_eq m u.mobile ≡ false
    → find_mobile m (u ∷ t) ≡ find_mobile m t
unfolding find_mobile
find_mobile-cons m u t h = ground (arith, eq_iff m u.mobile, eq_iff u.mobile m)

find_uid-cons :
    (n : ℕ) (u w : User) (t : List User)
    → find_uid u.uid t ≡ none
    → find_uid n t ≡ some w
    → find_uid n (u ∷ t) ≡ some w
unfolding find_uid
find_uid-cons n u w t fresh h = elim (Bool-cases (u.uid == n)) [
  | inl same ↦ cc (fresh, h, ap (λ k. find_uid k t) ((==_iff u.uid n).0 same))
  | inr other ↦ rw other h
]

find_uid_head : (u : User) (t : List User) → find_uid u.uid (u ∷ t) ≡ some u
unfolding find_uid
find_uid_head u t = ground arith

-- What is left after entries have been dropped was there before.
kept_index :
    (c : CachedConn) (lawful : IsLawful c) (i m : String) (k : ℕ) (rows : c.State) (e : Option ℕ)
    → c.index i (c.drop m k rows) ≡ some e
    → (str_eq i m ≡ false) × (c.index i rows ≡ some e)
kept_index c lawful i m k rows e h =
    elim (of_if (str_eq i m) _ _ _ (sym (lawful.drop_index i m k rows) ∙ h)) [
      | inl (same, gone) ↦ absurd (ground arith)
      | inr old ↦ old
    ]

kept_row :
    (c : CachedConn) (lawful : IsLawful c) (j : ℕ) (m : String) (k : ℕ) (rows : c.State)
    (e : Option User)
    → c.row j (c.drop m k rows) ≡ some e
    → c.row j rows ≡ some e
kept_row c lawful j m k rows e h =
    elim (of_if (j == k) _ _ _ (sym (lawful.drop_row j m k rows) ∙ h)) [
      | inl (same, gone) ↦ absurd (ground arith)
      | inr (other, old) ↦ old
    ]

pub drop-IsCoherent :
    (c : CachedConn) (lawful : IsLawful c) (m : String) (k : ℕ) (t : List User) (rows : c.State)
    → IsCoherent c t rows
    → IsCoherent c t (c.drop m k rows)
drop-IsCoherent c lawful m k t rows v = record {
  keyed = v.keyed;
  index_missing = λ i h. v.index_missing i (kept_index c lawful i m k rows none h).1;
  index_right = λ i n h. v.index_right i n (kept_index c lawful i m k rows (some n) h).1;
  row_right = λ n u h. v.row_right n u (kept_row c lawful n m k rows (some u) h);
  row_there = λ i n h g.
      v.row_there i n (kept_index c lawful i m k rows (some n) h).1
        (kept_row c lawful n m k rows none g);
}

-- A new row with a uid that no row has, and its mobile's entry dropped.
pub insert-IsCoherent :
    (c : CachedConn) (lawful : IsLawful c) (u : User) (t : List User) (rows : c.State)
    → find_uid u.uid t ≡ none
    → is_taken u t ≡ false
    → IsCoherent c t rows
    → IsCoherent c (u ∷ t) (c.drop u.mobile 0 rows)
unfolding find_mobile
insert-IsCoherent c lawful u t rows fresh free v = record {
  keyed = λ m w h. elim (of_if (str_eq u.mobile m) _ _ _ h) [
    | inl (same, e) ↦
        subst (λ x. find_uid x.uid (u ∷ t) ≡ some x) (some_inj u w e) (find_uid_head u t)
    | inr (other, e) ↦ find_uid-cons w.uid u w t fresh (v.keyed m w e)
  ];
  index_missing = λ m h.
      let (other, old) = kept_index c lawful m u.mobile 0 rows none h in
      find_mobile-cons m u t other ∙ v.index_missing m old;
  index_right = λ m n h.
      let (other, old) = kept_index c lawful m u.mobile 0 rows (some n) h in
      let (w, there, right) = v.index_right m n old in
      (w, find_mobile-cons m u t other ∙ there, right);
  row_right = λ n w h.
      let (x, there, right) = v.row_right n w (kept_row c lawful n u.mobile 0 rows (some w) h) in
      (x, find_uid-cons n u x t fresh there, right);
  row_there = λ m n h g.
      let (other, old) = kept_index c lawful m u.mobile 0 rows (some n) h in
      v.row_there m n old (kept_row c lawful n u.mobile 0 rows none g);
}

-- The accounts after a new row.
pub view-cons :
    (u : User) (t : List User) (m : String)
    → view (u ∷ t) m ≡ (if str_eq u.mobile m then some (account u) else view t m)
unfolding find_mobile
view-cons u t m = ground arith
