-- ===== src/Cache.antt =====
-- pkg/cache/manager.go as its callers use it: keys, the values of a Redis hash, and the Redis
-- client, which is a parameter with the documented behaviour of its hash commands.
pub mod Comments
pub mod Replies
pub mod Tweets
pub mod Partial
pub mod Decimal
pub mod Manager
use Prim.Native.String.{String}
use text.Mathlib.Text.{◌==◌ as str_eq}
use gozero_x.Common.{
  ℕ, ◌≡◌, Bool, true, false, ◌&&◌, Option, none, some, List, [], ◌∷◌, ◌==◌, if◌then◌else◌,
}
use gozero_x.Common.Int.{ℤ, pos, ◌+ℤ◌}

-- `Key`: the module, the data type and the id that `fmt.Sprintf("%s:%s:%v", …)` joins.
pub record Key : Type 0 where
  pub module_name : String
  pub data_type : String
  pub id : ℕ

abbrev pub key : String → String → ℕ → Key
key m d i = record { module_name = m; data_type = d; id = i }

abbrev pub key_eq : Key → Key → Bool
key_eq a b = str_eq a.module_name b.module_name && str_eq a.data_type b.data_type && a.id == b.id

-- The text of a hash field: what `%v` prints for an integer or a Boolean, the JSON text of a list of
-- texts, or a text as it is. `nat` is an id, a time or a state, `shown` a counter. The
-- setters and HINCRBY write every field with one kind, and the readers read it with that kind; the
-- mixed cases of the readers, which would parse or print, are not reached and give Go's zero value.
pub data Cell : Type 0 where
  nat : ℕ → Cell
  shown : ℤ → Cell
  flag : Bool → Cell
  json_list : List String → Cell
  raw : String → Cell

abbrev pub Hash : Type 0
Hash = List (String × Cell)

unfoldable pub get : String → Hash → Option Cell
get k [] = none
get k ((j, v) ∷ h) = if str_eq j k then some v else get k h

-- `if v, ok := fields[k]; ok { x, _ = strconv.ParseInt(v, 10, 64) }` on a zeroed `x`. A text that
-- is no number leaves 0, as does a key that is not there.
unfoldable pub int_cell : Option Cell → ℤ
int_cell (some (nat n)) = pos 0
int_cell (some (shown n)) = n
int_cell (some (flag b)) = pos 0
int_cell (some (json_list l)) = pos 0
int_cell (some (raw s)) = pos 0
int_cell none = pos 0

unfoldable pub nat_cell : Option Cell → ℕ
nat_cell (some (nat n)) = n
nat_cell (some (shown n)) = 0
nat_cell (some (flag b)) = 0
nat_cell (some (json_list l)) = 0
nat_cell (some (raw s)) = 0
nat_cell none = 0

-- The same for a text field.
unfoldable pub text_cell : Option Cell → String
text_cell (some (nat n)) = ""
text_cell (some (raw s)) = s
text_cell (some (shown n)) = ""
text_cell (some (flag b)) = ""
text_cell (some (json_list l)) = ""
text_cell none = ""

-- The same with `strconv.ParseBool`.
unfoldable pub flag_cell : Option Cell → Bool
flag_cell (some (nat n)) = false
flag_cell (some (flag b)) = b
flag_cell (some (shown n)) = false
flag_cell (some (json_list l)) = false
flag_cell (some (raw s)) = false
flag_cell none = false

-- The same with `json.Unmarshal` into a list.
unfoldable pub list_cell : Option Cell → List String
list_cell (some (nat n)) = []
list_cell (some (json_list l)) = l
list_cell (some (shown n)) = []
list_cell (some (flag b)) = []
list_cell (some (raw s)) = []
list_cell none = []

-- The Redis client. A reply `none` is a command that failed; HGETALL of a missing key is an empty
-- reply. A command that fails leaves the state alone.
pub record Redis : Type 1 where
  pub State : Type 0
  pub hgetall : Key → State → Option Hash
  pub hmset : Key → Hash → State → Option State
  pub hincrby : Key → String → ℤ → State → Option State

-- The documented behaviour that the proofs use. HMSET overwrites the named fields and keeps the
-- others. HINCRBY adds to the field, or creates it, and the key, with the increment as its value.
pub record IsLawful (r : Redis) : Type 0 where
  pub hmset_sets :
      (k : Key) (h : Hash) (s t : r.State) (g : Hash) (f : String) (v : Cell)
      → r.hmset k h s ≡ some t
      → r.hgetall k t ≡ some g
      → get f h ≡ some v
      → get f g ≡ some v
  pub hincrby_creates :
      (k : Key) (f : String) (d : ℤ) (s t : r.State) (g : Hash)
      → r.hgetall k s ≡ some []
      → r.hincrby k f d s ≡ some t
      → r.hgetall k t ≡ some g
      → g ≡ (f, shown d) ∷ []
