-- ===== src/Users/Coherent/Look.antt =====
-- What FindOneByMobile tells, through the entries of go-zero, and that the entries stay right.
use mathlib.Core.Path.{subst}
use Prim.Native.String.{String}
use gozero_x.Common.{
  ℕ, Bool, true, false, ◌≡◌, refl, sym, ap, ◌∙◌, inl, inr, Option, none, some, Option-cases, List,
}
use gozero_x.Cache.{Redis}
use gozero_x.Users.{
  User, Lookup, failed, missing, found, looked_up, answered, find_mobile, find_uid,
}
use gozero_x.Users.Rows.{CachedConn, IsLawful, Store, find_one, find_one_by_mobile}
use gozero_x.Users.Coherent.{
  Account, account, account_of, view, IsCoherent, indexed, query_row-IsCoherent,
  query_row_index-IsCoherent,
}

-- What a lookup tells of an account; an error tells that the database failed.
abbrev pub Tells : Bool → Lookup → Option Account → Type 0
Tells ok failed a = ok ≡ false
Tells ok missing a = a ≡ none
Tells ok (found u) a = a ≡ some (account u)

answered-Tells : (ok : Bool) (o : Option User) → Tells ok (answered ok o) (account_of o)
answered-Tells true none = refl
answered-Tells true (some u) = refl
answered-Tells false o = refl

module _ (c : CachedConn) (lawful : IsLawful c) where
  -- What the row tells that a mobile's entry names.
  query_row-Tells :
      (t : List User) (rows : c.State) (ok : Bool) (m : String) (n : ℕ)
      → IsCoherent c t rows
      → c.index m rows ≡ some (some n)
      → Tells ok (c.query_row n (answered ok (find_uid n t)) rows).0 (view t m)
  query_row-Tells t rows ok m n v h = elim (Option-cases (c.row n rows)) [
    | inl empty ↦
        subst (λ l. Tells ok l (view t m)) (sym (lawful.row_miss n _ rows empty))
          (subst (Tells ok (answered ok (find_uid n t))) same (answered-Tells ok (find_uid n t)))
    | inr (e, e_there) ↦
        subst (λ p. Tells ok p.0 (view t m)) (sym (lawful.row_hit n _ rows e e_there))
          (told e e_there)
  ]
    where
      u : User
      u = (indexed c lawful t rows v m n h).0

      same : account_of (find_uid n t) ≡ view t m
      same =
          ap account_of
            ((indexed c lawful t rows v m n h).2 ∙ sym (indexed c lawful t rows v m n h).1)

      told : (e : Option User) → c.row n rows ≡ some e → Tells ok (looked_up e) (view t m)
      told none k = absurd (v.row_there m n h k)
      told (some w) k =
          let (x, there, right) = v.row_right n w k in
          sym same ∙ ap account_of there ∙ ap some right

  -- FindOneByMobile tells what the table says, or nothing, and keeps the entries right.
  look :
      (t : List User) (rows : c.State) (ok : Bool) (m : String)
      → IsCoherent c t rows
      → let (user, left) =
          c.query_row_index m
            (answered ok (find_mobile m t))
            (λ n. answered ok (find_uid n t))
            rows in
        Tells ok user (view t m) × IsCoherent c t left
  look t rows ok m v = elim (Option-cases (c.index m rows)) [
    | inl empty ↦ (
      subst (λ l. Tells ok l (view t m)) (sym (lawful.index_miss m _ _ rows empty))
          (answered-Tells ok (find_mobile m t)),
      query_row_index-IsCoherent c lawful t ok m _ rows empty v,
    )
    | inr (e, there) ↦ at e there
  ]
    where
      at :
          (e : Option ℕ)
          → c.index m rows ≡ some e
          → let (user, left) =
              c.query_row_index m
                (answered ok (find_mobile m t))
                (λ n. answered ok (find_uid n t))
                rows in
            Tells ok user (view t m) × IsCoherent c t left
      at none h =
          subst (λ p. Tells ok p.0 (view t m) × IsCoherent c t p.1)
            (sym (
              lawful.index_none m (answered ok (find_mobile m t)) (λ n. answered ok (find_uid n t))
                rows h))
            (ap account_of (v.index_missing m h), v)
      at (some n) h =
          subst (λ p. Tells ok p.0 (view t m) × IsCoherent c t p.1)
            (sym (
              lawful.index_hit m (answered ok (find_mobile m t)) (λ n. answered ok (find_uid n t))
                rows n h))
            (query_row-Tells t rows ok m n v h, query_row-IsCoherent c lawful t ok n rows v)

  module _ (r : Redis) where
    pub find_one_by_mobile-Tells :
        (ok : Bool) (m : String) (s : Store c r)
        → IsCoherent c s.table s.rows
        → Tells ok (find_one_by_mobile c r ok m s).0 (view s.table m)
          × IsCoherent c s.table (find_one_by_mobile c r ok m s).1.rows
    unfolding find_one_by_mobile
    find_one_by_mobile-Tells ok m s v = look s.table s.rows ok m v

    pub find_one-IsCoherent :
        (ok : Bool) (n : ℕ) (s : Store c r)
        → IsCoherent c s.table s.rows
        → IsCoherent c s.table (find_one c r ok n s).1.rows
    unfolding find_one
    find_one-IsCoherent ok n s v = query_row-IsCoherent c lawful s.table ok n s.rows v
