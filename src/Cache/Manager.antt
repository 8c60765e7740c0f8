-- ===== src/Cache/Manager.antt =====
-- Values, sets and lists of ids in pkg/cache/manager.go. The Redis client, which keeps texts, and
-- the JSON of a value are parameters.
pub mod Pushed
use Prim.Native.String.{String}
use gozero_x.Common.{ℕ, ◌≡◌, Bool, true, false, Option, none, some, List, [], ◌∷◌, ◌++◌, map}
use gozero_x.Common.Int.{ℤ, pos, negsuc}
use gozero_x.Cache.{Key, key}
use gozero_x.Cache.Decimal.{Text, format_int, parse_int}

-- The `if err != nil { return err }` after a call.
infixl 5 ◌>>=◌
abbrev ◌>>=◌ {ℓ κ} : {A : Type ℓ} {B : Type κ} → Option A → (A → Option B) → Option B
none >>= f = none
some a >>= f = f a

-- The client. A reply `none` is a command that failed, which leaves the state alone. `items` is the
-- list that the server keeps at a key, and `[]` where there is none.
pub record Client : Type 1 where
  pub State : Type 0
  pub items : Key → State → List Text
  pub get : Key → State → Option Text
  pub setex : Key → Text → ℤ → State → Option State
  pub del : Key → State → Option State
  pub sadd : Key → List Text → State → Option State
  pub srem : Key → List Text → State → Option State
  pub smembers : Key → State → Option (List Text)
  pub lrange : Key → ℤ → ℤ → State → Option (List Text)
  pub ltrim : Key → ℤ → ℤ → State → Option State
  pub rpush : Key → Text → State → Option State

-- The documented behaviour of the list commands: LRANGE from 0 to -1 tells the whole list, and RPUSH
-- puts its text at the end.
pub record IsLawful (c : Client) : Type 0 where
  pub lrange_all :
      (k : Key) (s : c.State) (ts : List Text)
      → c.lrange k (pos 0) (negsuc 0) s ≡ some ts
      → ts ≡ c.items k s
  pub rpush_appends :
      (k : Key) (x : Text) (s t : c.State)
      → c.rpush k x s ≡ some t
      → c.items k t ≡ c.items k s ++ (x ∷ [])

-- The loop of SMembers: a text that is no int64 is an error.
unfoldable pub parse_all : List Text → Option (List ℤ)
parse_all [] = some []
parse_all (t ∷ ts) = do v ← parse_int t; vs ← parse_all ts; some (v ∷ vs)

abbrev keep : Option ℤ → List ℤ → List ℤ
keep none vs = vs
keep (some v) vs = v ∷ vs

-- The loop of LRange: a text that is no int64 is left out.
unfoldable pub parse_each : List Text → List ℤ
parse_each [] = []
parse_each (t ∷ ts) = keep (parse_int t) (parse_each ts)

module _ (c : Client) where
  unfoldable pub s_add : String → String → ℕ → List ℤ → c.State → Option c.State
  s_add m d i values s = c.sadd (key m d i) (map format_int values) s

  unfoldable pub s_rem : String → String → ℕ → List ℤ → c.State → Option c.State
  s_rem m d i values s = c.srem (key m d i) (map format_int values) s

  unfoldable pub s_members : String → String → ℕ → c.State → Option (List ℤ)
  s_members m d i s = do ts ← c.smembers (key m d i) s; parse_all ts

  unfoldable pub l_range : String → String → ℕ → ℤ → ℤ → c.State → Option (List ℤ)
  l_range m d i start stop s = do ts ← c.lrange (key m d i) start stop s; some (parse_each ts)

  unfoldable pub l_trim : String → String → ℕ → ℤ → ℤ → c.State → Option c.State
  l_trim m d i start stop s = c.ltrim (key m d i) start stop s

  -- One command for each value; the first one that fails ends it, with `true` for its error.
  unfoldable push_each : Key → List ℤ → c.State → Bool × c.State
  push_each k [] s = (false, s)
  push_each k (v ∷ vs) s = elim (c.rpush k (format_int v) s) [
    | none ↦ (true, s)
    | some t ↦ push_each k vs t
  ]

  unfoldable pub r_push : String → String → ℕ → List ℤ → c.State → Bool × c.State
  unfolding push_each
  r_push m d i values s = push_each (key m d i) values s

  unfoldable pub del : String → String → ℕ → c.State → Option c.State
  del m d i s = c.del (key m d i) s

  module _ {ℓ} {A : Type ℓ} (marshal : A → Option Text) (unmarshal : Text → Option A) where
    unfoldable pub set : String → String → ℕ → A → ℤ → c.State → Option c.State
    set m d i value expire_seconds s = do
      data_text ← marshal value
      c.setex (key m d i) data_text expire_seconds s

    -- An empty text is what the client replies where nothing is kept, and the error `redis.Nil` here.
    unfoldable read : Text → Option A
    read [] = none
    read (b ∷ bs) = unmarshal (b ∷ bs)

    unfoldable pub get : String → String → ℕ → c.State → Option A
    unfolding read
    get m d i s = do t ← c.get (key m d i) s; read t
