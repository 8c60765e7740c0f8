-- ===== src/Users/Rows.antt =====
-- `sqlc.CachedConn` of go-zero in front of the user table: entries for rows, by uid, and entries
-- for mobiles, which name a uid; FindOne, FindOneByMobile and Insert of
-- app/usercenter/model/usermodel_gen.go.
use Prim.Native.String.{String}
use text.Mathlib.Text.{◌==◌ as str_eq}
use gozero_x.Common.{ℕ, Bool, ◌≡◌, Option, none, some, List, ◌==◌, if◌then◌else◌}
use gozero_x.Cache.{Redis}
use gozero_x.Users.{
  User, Lookup, failed, missing, found, looked_up, answered, find_mobile, find_uid,
}

-- The entry that QueryRowCtx makes of what its query gives; `some none` says that there is no row.
abbrev pub row_entry : Lookup → Option (Option User)
row_entry failed = none
row_entry missing = some none
row_entry (found u) = some (some u)

-- The entry of a mobile: the primary key of the row.
abbrev pub index_entry : Lookup → Option (Option ℕ)
index_entry failed = none
index_entry missing = some none
index_entry (found u) = some (some u.uid)

-- The entries for rows after `QueryRowIndexCtx` has made its index query.
abbrev pub row_after : Lookup → ℕ → Option (Option User) → Option (Option User)
row_after failed j e = e
row_after missing j e = e
row_after (found u) j e = if j == u.uid then some (some u) else e

-- `index` and `row` are the entries; `query_row` is QueryRowCtx, `query_row_index`
-- QueryRowIndexCtx, each given what its queries would give; `drop` deletes the entries of a mobile
-- and of a uid, as ExecCtx does with its keys, and as time does.
pub record CachedConn : Type 1 where
  pub State : Type 0
  pub index : String → State → Option (Option ℕ)
  pub row : ℕ → State → Option (Option User)
  pub query_row : ℕ → Lookup → State → Lookup × State
  pub query_row_index : String → Lookup → (ℕ → Lookup) → State → Lookup × State
  pub drop : String → ℕ → State → State

-- The documented behaviour. An entry answers in place of the query; a query's answer becomes an
-- entry, unless it is an error; an index query that finds a row makes its two entries; a dropped
-- entry is gone, and every other entry stays.
pub record IsLawful (c : CachedConn) : Type 0 where
  pub row_hit :
      (k : ℕ) (q : Lookup) (s : c.State) (e : Option User)
      → c.row k s ≡ some e
      → c.query_row k q s ≡ (looked_up e, s)
  pub row_miss : (k : ℕ) (q : Lookup) (s : c.State) → c.row k s ≡ none → (c.query_row k q s).0 ≡ q
  pub row_stored :
      (j k : ℕ) (q : Lookup) (s : c.State)
      → c.row k s ≡ none
      → c.row j (c.query_row k q s).1 ≡ (if j == k then row_entry q else c.row j s)
  pub row_index :
      (m : String) (k : ℕ) (q : Lookup) (s : c.State)
      → c.index m (c.query_row k q s).1 ≡ c.index m s
  pub index_none :
      (m : String) (q : Lookup) (p : ℕ → Lookup) (s : c.State)
      → c.index m s ≡ some none
      → c.query_row_index m q p s ≡ (missing, s)
  pub index_hit :
      (m : String) (q : Lookup) (p : ℕ → Lookup) (s : c.State) (n : ℕ)
      → c.index m s ≡ some (some n)
      → c.query_row_index m q p s ≡ c.query_row n (p n) s
  pub index_miss :
      (m : String) (q : Lookup) (p : ℕ → Lookup) (s : c.State)
      → c.index m s ≡ none
      → (c.query_row_index m q p s).0 ≡ q
  pub index_stored :
      (i m : String) (q : Lookup) (p : ℕ → Lookup) (s : c.State)
      → c.index m s ≡ none
      → c.index i (c.query_row_index m q p s).1
        ≡ (if str_eq i m then index_entry q else c.index i s)
  pub index_row :
      (j : ℕ) (m : String) (q : Lookup) (p : ℕ → Lookup) (s : c.State)
      → c.index m s ≡ none
      → c.row j (c.query_row_index m q p s).1 ≡ row_after q j (c.row j s)
  pub drop_index :
      (i m : String) (k : ℕ) (s : c.State)
      → c.index i (c.drop m k s) ≡ (if str_eq i m then none else c.index i s)
  pub drop_row :
      (j : ℕ) (m : String) (k : ℕ) (s : c.State)
      → c.row j (c.drop m k s) ≡ (if j == k then none else c.row j s)

module _ (c : CachedConn) (r : Redis) where
  -- The table, the cache of its rows, and the hashes of CacheManager.
  pub record Store : Type 0 where
    pub table : List User
    pub rows : c.State
    pub hashes : r.State

  -- `FindOne`
  unfoldable pub find_one : Bool → ℕ → Store → Lookup × Store
  find_one ok uid s =
      let (user, rows) = c.query_row uid (answered ok (find_uid uid s.table)) s.rows in
      (user, record s { rows = rows })

  -- `FindOneByMobile` with `queryPrimary`
  unfoldable pub find_one_by_mobile : Bool → String → Store → Lookup × Store
  find_one_by_mobile ok mobile s =
      let (user, rows) =
        c.query_row_index mobile (answered ok (find_mobile mobile s.table))
          (λ n. answered ok (find_uid n s.table)) s.rows in
      (user, record s { rows = rows })
