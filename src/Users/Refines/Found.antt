-- ===== src/Users/Refines/Found.antt =====
-- Login and Register after their lookup do what the directory of accounts allows.
use Prim.Native.String.{String}
use gozero_x.Common.{
  Bool, true, false, Bool-cases, ◌&&◌, ◌≡◌, refl, ◌⊎◌, inl, inr, Option, none, some, Option-cases,
  List, ◌∷◌, arith, ◌==◌, if◌then◌else◌,
}
use gozero_x.Cache.{Redis}
use gozero_x.Users.{
  User, Lookup, failed, missing, found, find_uid, is_taken, insert_user, with_login,
}
use gozero_x.Users.Rows.{CachedConn, IsLawful, Store}
use gozero_x.Users.Accounts.{
  JwtToken, Answers, AccountReq, refuse, new_user, with_token, insert, insert_into, register_hashed,
  register_found, logged_in, login_found,
}
use gozero_x.Users.Coherent.{Account, account, view, IsCoherent}
use gozero_x.Users.Coherent.Tables.{
  map-IsCoherent, view-map, with_login-Keeps, insert-IsCoherent, view-cons,
}
use gozero_x.Users.Coherent.Look.{Tells}
use gozero_x.Users.Refines.{
  Directory, granted, unavailable, Same, login_outcome, Adds, Registers, has_token, outcome,
}

module _ (c : CachedConn) (lawful : IsLawful c) (r : Redis) (check : String → String → Bool) where
  -- Entries that are right, over a table with the accounts of another.
  abbrev pub Keeping : Store c r → Store c r → Type 0
  Keeping s left = Same (view s.table) (view left.table) × IsCoherent c left.table left.rows

  logged_in-Keeping :
      (a : Answers) (u : User) (s : Store c r)
      → IsCoherent c s.table s.rows
      → Keeping s (logged_in c r a u s)
  unfolding logged_in
  logged_in-Keeping a u s v = elim (Bool-cases a.exec_ok) [
    | inl fine ↦ rw fine (
      λ m. view-map (with_login u.uid a.now) (with_login-Keeps u.uid a.now) m s.table,
      map-IsCoherent (with_login u.uid a.now) (with_login-Keeps u.uid a.now) c s.table s.rows v,
    )
    | inr broken ↦ rw broken (λ m. refl, v)
  ]

  login_found-outcome :
      (a : Answers) (req : AccountReq) (u : User) (s : Store c r)
      → let o = outcome (login_found c r check a req (found u) s).0 in
        (o ≡ login_outcome check (some (account u)) req.password)
        ⊎ ((o ≡ unavailable) × ((a.query_ok && has_token a) ≡ false))
  unfolding login_found
  login_found-outcome a req u s = elim (Bool-cases (check u.password req.password)) [
    | inr wrong ↦ rw wrong (inl refl)
    | inl right ↦ elim (Bool-cases (u.status == 0)) [
      | inl disabled ↦ rw (right, disabled) (inl refl)
      | inr enabled ↦ elim (Option-cases a.token) [
        | inl no_token ↦ rw (right, enabled, no_token) (inr (refl, ground arith))
        | inr (t, made) ↦ rw (right, enabled, made) (inl refl)
      ]
    ]
  ]

  pub login_found-Keeping :
      (a : Answers) (req : AccountReq) (l : Lookup) (s : Store c r)
      → IsCoherent c s.table s.rows
      → Keeping s (login_found c r check a req l s).1
  unfolding login_found
  login_found-Keeping a req missing s v = (λ m. refl, v)
  login_found-Keeping a req failed s v = (λ m. refl, v)
  login_found-Keeping a req (found u) s v = elim (Bool-cases (check u.password req.password)) [
    | inr wrong ↦ rw wrong (λ m. refl, v)
    | inl right ↦ elim (Bool-cases (u.status == 0)) [
      | inl disabled ↦ rw (right, disabled) (λ m. refl, v)
      | inr enabled ↦ rw (right, enabled) (logged_in-Keeping a u s v)
    ]
  ]

  pub login_found-answers :
      (a : Answers) (req : AccountReq) (l : Lookup) (o : Option Account) (s : Store c r)
      → Tells a.query_ok l o
      → let answer = outcome (login_found c r check a req l s).0 in
        (answer ≡ login_outcome check o req.password)
        ⊎ ((answer ≡ unavailable) × ((a.query_ok && has_token a) ≡ false))
  unfolding login_found
  login_found-answers a req missing o s h = rw h (inl refl)
  login_found-answers a req failed o s h = inr (refl, ground arith)
  login_found-answers a req (found u) o s h = rw h (login_found-outcome a req u s)

  -- Whatever else fails, nothing is changed.
  nothing-Registers :
      (o : Option Account) (m : String) (hashed : Option String) (d : Directory)
      → Registers o m hashed d unavailable d
  nothing-Registers (some a) m hashed d = (inr refl, λ i. refl)
  nothing-Registers none m hashed d = inl (refl, λ i. refl)

  new_user-Adds :
      (a : Answers) (req : AccountReq) (hash : String) (t : List User)
      → Adds req.mobile
          (record { uid = a.new_uid; password = hash; status = 1 })
          (view t)
          (view (new_user a req hash ∷ t))
  new_user-Adds a req hash t m = view-cons (new_user a req hash) t m

  insert_lem :
      (a : Answers) (u : User) (s : Store c r)
      → (insert c r a u s ≡ (false, s))
        ⊎ ((is_taken u s.table ≡ false)
            × (insert c r a u s
                ≡ (a.uid_ok, record s { table = u ∷ s.table; rows = c.drop u.mobile 0 s.rows })))
  unfolding insert insert_into insert_user
  insert_lem a u s = elim (Bool-cases (is_taken u s.table)) [
    | inl taken ↦ rw taken (inl refl)
    | inr free ↦ elim (Bool-cases a.exec_ok) [
      | inr broken ↦ rw (free, broken) (inl refl)
      | inl stored ↦ inr (free, rw (free, stored) refl)
    ]
  ]

  -- After the insert the account is there, whether the handler can say so or not.
  added :
      (a : Answers) (req : AccountReq) (hash : String) (s : Store c r)
      → find_uid a.new_uid s.table ≡ none
      → is_taken (new_user a req hash) s.table ≡ false
      → IsCoherent c s.table s.rows
      → (known : Bool) (token : Option JwtToken)
      → let user = new_user a req hash in
        let resp = if known then with_token token user else refuse "创建用户失败" in
        Registers none req.mobile (some hash) (view s.table) (outcome resp) (view (user ∷ s.table))
        × IsCoherent c (user ∷ s.table) (c.drop req.mobile 0 s.rows)
  added a req hash s fresh free v known token = (
    inr (a.new_uid, hash, refl, (answer known token), new_user-Adds a req hash s.table),
    insert-IsCoherent c lawful (new_user a req hash) s.table s.rows fresh free v,
  )
    where
      answer :
          (known : Bool) (token : Option JwtToken)
          → let o =
              outcome (if known then with_token token (new_user a req hash) else refuse "创建用户失败") in
            (o ≡ granted a.new_uid) ⊎ (o ≡ unavailable)
      answer false token = inr refl
      answer true none = inr refl
      answer true (some t) = inl refl

  -- A registration of a free mobile.
  register_hashed-Registers :
      (a : Answers) (req : AccountReq) (hashed : Option String) (s : Store c r)
      → find_uid a.new_uid s.table ≡ none
      → IsCoherent c s.table s.rows
      → let (resp, left) = register_hashed c r a req hashed s in
        Registers none req.mobile hashed (view s.table) (outcome resp) (view left.table)
        × IsCoherent c left.table left.rows
  unfolding register_hashed
  register_hashed-Registers a req none s fresh v = (inl (refl, λ m. refl), v)
  register_hashed-Registers a req (some hash) s fresh v =
      elim (insert_lem a (new_user a req hash) s) [
        | inl unchanged ↦ rw unchanged (inl (refl, λ m. refl), v)
        | inr (free, stored) ↦ rw stored (added a req hash s fresh free v a.uid_ok a.token)
      ]

  pub register_found-Registers :
      (a : Answers) (req : AccountReq) (l : Lookup) (s : Store c r)
      → find_uid a.new_uid s.table ≡ none
      → IsCoherent c s.table s.rows
      → Tells a.query_ok l (view s.table req.mobile)
      → let (resp, left) = register_found c r a req l s in
        Registers
          (view s.table req.mobile)
          req.mobile
          a.hashed
          (view s.table)
          (outcome resp)
          (view left.table)
        × IsCoherent c left.table left.rows
  unfolding register_found
  register_found-Registers a req (found u) s fresh v h = rw h ((inl refl, λ m. refl), v)
  register_found-Registers a req failed s fresh v h =
      (nothing-Registers (view s.table req.mobile) req.mobile a.hashed (view s.table), v)
  register_found-Registers a req missing s fresh v h =
      rw h (register_hashed-Registers a req a.hashed s fresh v)
