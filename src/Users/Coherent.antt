-- ===== src/Users/Coherent.antt =====
-- The entries that go-zero keeps for the user table agree with the table on what Login and Register
-- ask: who has a mobile, with which password and status.
pub mod Tables
pub mod Look
use Prim.Native.String.{String}
use text.Mathlib.Text.{◌==◌ as str_eq}
use text.Mathlib.TextEquality.{eq_iff}
use gozero_x.Common.{
  ℕ, zero, Bool, true, false, Bool-cases, ==_iff, ◌≡◌, ◌≢◌, refl, sym, ap, ◌∙◌, ◌⊎◌, inl, inr,
  Option, none, some, Option-cases, some_inj, List, [], ◌∷◌, map, arith, ◌==◌, if◌then◌else◌,
}
use gozero_x.Users.{
  User, Lookup, failed, missing, found, looked_up, answered, find_mobile, find_uid,
}
use gozero_x.Users.Rows.{row_entry, index_entry, row_after, CachedConn, IsLawful}

-- What an account is: its uid, the hash of its password and its status.
pub record Account : Type 0 where
  pub uid : ℕ
  pub password : String
  pub status : ℕ

abbrev pub account : User → Account
account u = record { uid = u.uid; password = u.password; status = u.status }

abbrev pub account_of : Option User → Option Account
account_of none = none
account_of (some u) = some (account u)

-- The account that a lookup gives.
abbrev pub found_account : Lookup → Option Account
found_account failed = none
found_account missing = none
found_account (found u) = some (account u)

-- The accounts of a table, by mobile.
abbrev pub view : List User → String → Option Account
view table mobile = account_of (find_mobile mobile table)

-- What a conditional that gives a value says.
pub of_if {ℓ} :
    {A : Type ℓ} (b : Bool) (x y z : A)
    → (if b then x else y) ≡ z
    → ((b ≡ true) × (x ≡ z)) ⊎ ((b ≡ false) × (y ≡ z))
of_if true x y z h = inl (refl, h)
of_if false x y z h = inr (refl, h)

-- An entry made of a query's answer names a row that is there, or says that there is none.
row_entry-some :
    (ok : Bool) (o : Option User) (u : User)
    → row_entry (answered ok o) ≡ some (some u)
    → o ≡ some u
row_entry-some true none u h = ground arith
row_entry-some true (some v) u h = ground arith
row_entry-some false o u h = ground arith

row_entry-none : (ok : Bool) (o : Option User) → row_entry (answered ok o) ≡ some none → o ≡ none
row_entry-none true none h = refl
row_entry-none true (some v) h = ground arith
row_entry-none false o h = ground arith

index_entry-some :
    (ok : Bool) (o : Option User) (n : ℕ)
    → index_entry (answered ok o) ≡ some (some n)
    → (u : User) × (o ≡ some u) × (u.uid ≡ n)
index_entry-some true none n h = absurd (ground arith)
index_entry-some true (some v) n h = (v, refl, ground arith)
index_entry-some false o n h = absurd (ground arith)

index_entry-none :
    (ok : Bool) (o : Option User) → index_entry (answered ok o) ≡ some none → o ≡ none
index_entry-none true none h = refl
index_entry-none true (some v) h = ground arith
index_entry-none false o h = ground arith

row_after-some :
    (ok : Bool) (o : Option User) (j : ℕ) (e : Option (Option User)) (u : User)
    → row_after (answered ok o) j e ≡ some (some u)
    → ((o ≡ some u) × (j ≡ u.uid)) ⊎ (e ≡ some (some u))
row_after-some true none j e u h = inr h
row_after-some true (some v) j e u h = elim (of_if (j == v.uid) _ _ _ h) [
  | inl (same, made) ↦ inl (ground arith, ground arith)
  | inr (other, old) ↦ inr old
]
row_after-some false o j e u h = inr h

row_after-none :
    (q : Lookup) (j : ℕ) (e : Option (Option User))
    → row_after q j e ≡ some none
    → (e ≡ some none) × (index_entry q ≢ some (some j))
row_after-none failed j e h = (h, λ k. ground arith)
row_after-none missing j e h = (h, λ k. ground arith)
row_after-none (found u) j e h = elim (of_if (j == u.uid) _ _ _ h) [
  | inl (same, made) ↦ absurd (ground arith)
  | inr (other, old) ↦ (old, λ k. ground arith)
]

module _ (c : CachedConn) where
  pub record IsCoherent (table : List User) (rows : c.State) : Type 0 where
    pub keyed :
        (m : String) (u : User) → find_mobile m table ≡ some u → find_uid u.uid table ≡ some u
    pub index_missing : (m : String) → c.index m rows ≡ some none → find_mobile m table ≡ none
    pub index_right :
        (m : String) (n : ℕ)
        → c.index m rows ≡ some (some n)
        → (u : User) × (find_mobile m table ≡ some u) × (u.uid ≡ n)
    pub row_right :
        (n : ℕ) (u : User)
        → c.row n rows ≡ some (some u)
        → (v : User) × (find_uid n table ≡ some v) × (account v ≡ account u)
    pub row_there : (m : String) (n : ℕ) → c.index m rows ≡ some (some n) → c.row n rows ≢ some none

  module _ (lawful : IsLawful c) (table : List User) where
    -- The row that a mobile's entry names.
    pub indexed :
        (rows : c.State) (v : IsCoherent table rows) (m : String) (n : ℕ)
        → c.index m rows ≡ some (some n)
        → (u : User) × (find_mobile m table ≡ some u) × (find_uid n table ≡ some u)
    indexed rows v m n h =
        let (u, there, same) = v.index_right m n h in
        (u, there, ap (λ k. find_uid k table) (sym same) ∙ v.keyed m u there)

    pub query_row-IsCoherent :
        (ok : Bool) (n : ℕ) (rows : c.State)
        → IsCoherent table rows
        → IsCoherent table (c.query_row n (answered ok (find_uid n table)) rows).1
    query_row-IsCoherent ok n rows v = elim (Option-cases (c.row n rows)) [
      | inr (e, there) ↦ rw (lawful.row_hit n _ rows e there) v
      | inl empty ↦ record {
        keyed = v.keyed;
        index_missing = λ m h. v.index_missing m (sym (lawful.row_index m n _ rows) ∙ h);
        index_right = λ m k h. v.index_right m k (sym (lawful.row_index m n _ rows) ∙ h);
        row_right = λ k u h.
            elim (of_if (k == n) _ _ _ (sym (lawful.row_stored k n _ rows empty) ∙ h)) [
              | inl (same, e) ↦ (
                u,
                ap (λ i. find_uid i table) ((==_iff k n).0 same) ∙ row_entry-some ok _ u e,
                refl,
              )
              | inr (other, e) ↦ v.row_right k u e
            ];
        row_there = λ m k h g.
            let i = sym (lawful.row_index m n _ rows) ∙ h in
            elim (of_if (k == n) _ _ _ (sym (lawful.row_stored k n _ rows empty) ∙ g)) [
              | inl (same, e) ↦
                  let (u, there, right) = indexed rows v m k i in
                  cc (
                    right,
                    ap (λ i. find_uid i table) ((==_iff k n).0 same),
                    row_entry-none ok (find_uid n table) e,
                  )
              | inr (other, e) ↦ v.row_there m k i e
            ];
      }
    ]

    pub query_row_index-IsCoherent :
        (ok : Bool) (m : String) (p : ℕ → Lookup) (rows : c.State)
        → c.index m rows ≡ none
        → IsCoherent table rows
        → IsCoherent table (c.query_row_index m (answered ok (find_mobile m table)) p rows).1
    query_row_index-IsCoherent ok m p rows empty v = record {
      keyed = v.keyed;
      index_missing = λ i h.
          elim (of_if (str_eq i m) _ _ _ (sym (lawful.index_stored i m _ p rows empty) ∙ h)) [
            | inl (same, e) ↦
                ap (λ x. find_mobile x table) ((eq_iff i m).0 same) ∙ index_entry-none ok _ e
            | inr (other, e) ↦ v.index_missing i e
          ];
      index_right = λ i n h.
          elim (of_if (str_eq i m) _ _ _ (sym (lawful.index_stored i m _ p rows empty) ∙ h)) [
            | inl (same, e) ↦
                let (u, there, right) = index_entry-some ok (find_mobile m table) n e in
                (u, ap (λ x. find_mobile x table) ((eq_iff i m).0 same) ∙ there, right)
            | inr (other, e) ↦ v.index_right i n e
          ];
      row_right = λ j u h.
          elim (row_after-some ok (find_mobile m table) j _ u
            (sym (lawful.index_row j m _ p rows empty) ∙ h)) [
              | inl (there, same) ↦ (u, ap (λ x. find_uid x table) same ∙ v.keyed m u there, refl)
              | inr old ↦ v.row_right j u old
            ];
      row_there = λ i n h g.
          let (old, unnamed) =
            row_after-none _ n _ (sym (lawful.index_row n m _ p rows empty) ∙ g) in
          elim (of_if (str_eq i m) _ _ _ (sym (lawful.index_stored i m _ p rows empty) ∙ h)) [
            | inl (same, e) ↦ unnamed e
            | inr (other, e) ↦ v.row_there i n e old
          ];
    }
