-- ===== src/Json.antt =====
-- What becomes of a message on its way through Kafka: `json.Marshal` of a `map[string]interface{}`
-- by the sender, `json.Unmarshal` into another by the consumer, and the consumer's `toInt64` and
-- `toString` (app/interactService/cmd/mq/internal/consumer/helper.go and its copy in
-- app/noticeService). Unmarshal reads every JSON number as a float64.
pub mod Exact
use Prim.Native.String.{String}
use text.Mathlib.Text.{◌==◌ as str_eq}
use gozero_x.Common.{
  ℕ, zero, suc, ◌+◌, ◌*◌, ◌/◌, ◌%◌, ◌^◌, ◌≡◌, true, false, Option, none, some, List, [], ◌∷◌, ltb,
  ◌==◌, if◌then◌else◌,
}

-- A value that a sender puts into a message. The integers sent are ids, times, counts and flags.
pub data Scalar : Type 0 where
  int : ℕ → Scalar
  str : String → Scalar
  texts : List String → Scalar

abbrev pub Message : Type 0
Message = List (String × Scalar)

-- A value as the consumer finds it; `null` is also a key that is not there.
pub data Json : Type 0 where
  null : Json
  number : ℕ → Json
  quoted : String → Json
  array : List String → Json

-- The distance of two float64 neighbours at `n`: 53 binary digits, so 1 up to 2^53, then doubling.
-- Eleven doublings reach 2^64.
ulp_from : ℕ → ℕ → ℕ → ℕ
ulp_from zero u n = u
ulp_from (suc fuel) u n = elim (ltb n (2 ^ 53 * u)) [ true ↦ u | false ↦ ulp_from fuel (2 * u) n ]

ulp : ℕ → ℕ
unfolding ulp_from
ulp n = ulp_from 11 1 n

-- To the nearest multiple of `u`, ties to the even one.
round_even : ℕ → ℕ → ℕ
round_even u n =
    if ltb (2 * (n % u)) u
    then n / u * u
    else if ltb u (2 * (n % u))
    then (n / u + 1) * u
    else if n / u % 2 == 0
    then n / u * u
    else (n / u + 1) * u

-- The float64 nearest to an integer, itself an integer.
unfoldable pub float64 : ℕ → ℕ
unfolding ulp round_even
float64 n = round_even (ulp n) n

unfoldable pub deliver : Scalar → Json
deliver (int n) = number (float64 n)
deliver (str s) = quoted s
deliver (texts l) = array l

-- `msg[key]` after the message has been sent and decoded.
unfoldable pub field : String → Message → Json
field k [] = null
field k ((j, v) ∷ m) = if str_eq j k then deliver v else field k m

unfoldable pub to_int64 : Json → ℕ
to_int64 null = 0
to_int64 (number n) = n
to_int64 (quoted _) = 0
to_int64 (array _) = 0

unfoldable pub to_string : Json → String
to_string null = ""
to_string (number _) = ""
to_string (quoted s) = s
to_string (array _) = ""

-- An integer that a message carries unchanged.
abbrev pub Survives : ℕ → Type 0
Survives n = float64 n ≡ n
