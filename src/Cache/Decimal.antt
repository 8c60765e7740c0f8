-- ===== src/Cache/Decimal.antt =====
-- Decimal texts of int64, as strconv.FormatInt and strconv.ParseInt with base 10 write and read them
-- for pkg/cache/manager.go.
use gozero_x.Common.{
  ℕ, zero, suc, ◌+◌, ◌-◌, ◌*◌, ◌/◌, ◌%◌, ◌^◌, ◌<◌, ◌≡◌, refl, ap, ◌∙◌, inl, inr, Bool, true, false,
  ◌&&◌, Option, none, some, List, [], ◌∷◌, arith, ◌==◌, ltb, leb, if◌then◌else◌, Bool-cases,
}
use gozero_x.Common.Int.{ℤ, pos, negsuc}

-- A text as the list of its bytes.
abbrev pub Text : Type 0
Text = List ℕ

-- The digits of a number before a text, the lowest one last. The fuel is a bound on their number.
unfoldable pub format_digits : ℕ → ℕ → Text → Text
format_digits zero n t = t
format_digits (suc fuel) n t =
    if ltb n 10 then (48 + n) ∷ t else format_digits fuel (n / 10) ((48 + n % 10) ∷ t)

-- `strconv.FormatInt(v, 10)`; an int64 has 19 digits at most.
unfoldable pub format_int : ℤ → Text
format_int (pos n) = format_digits 20 n []
format_int (negsuc n) = 45 ∷ format_digits 20 (suc n) []

abbrev is_digit : ℕ → Bool
is_digit c = leb 48 c && leb c 57

abbrev starts_digit : Text → Bool
starts_digit [] = false
starts_digit (c ∷ cs) = is_digit c

unfoldable pub parse_digits : ℕ → Text → Option ℕ
parse_digits n [] = some n
parse_digits n (c ∷ cs) = if is_digit c then parse_digits (n * 10 + (c - 48)) cs else none

-- An empty text is an error, before a sign or after it.
unfoldable pub parse_unsigned : Text → Option ℕ
parse_unsigned [] = none
parse_unsigned (c ∷ cs) = parse_digits 0 (c ∷ cs)

-- A number outside int64 is an error.
unfoldable pub in_range : Bool → Option ℕ → Option ℤ
in_range negative none = none
in_range false (some n) = if ltb n (2 ^ 63) then some (pos n) else none
in_range true (some zero) = some (pos 0)
in_range true (some (suc n)) = if ltb n (2 ^ 63) then some (negsuc n) else none

-- `strconv.ParseInt(s, 10, 64)`, where `none` is an error.
unfoldable pub parse_int : Text → Option ℤ
parse_int [] = none
parse_int (c ∷ cs) =
    if c == 45
    then in_range true (parse_unsigned cs)
    else if c == 43
    then in_range false (parse_unsigned cs)
    else in_range false (parse_unsigned (c ∷ cs))

-- The int64.
abbrev pub IsInt64 : ℤ → Type 0
IsInt64 (pos n) = n < 2 ^ 63
IsInt64 (negsuc n) = n < 2 ^ 63

parse-format :
    (fuel n : ℕ) (t : Text)
    → n < 10 ^ fuel
    → parse_digits 0 (format_digits fuel n t) ≡ parse_digits n t
unfolding parse_digits format_digits
parse-format zero n t h = ap (λ m. parse_digits m t) (omega arith)
parse-format (suc fuel) n t h = elim (Bool-cases (ltb n 10)) [
  | inl small ↦ rw small (ground arith)
  | inr large ↦
      rw large (parse-format fuel (n / 10) ((48 + n % 10) ∷ t) (ground arith) ∙ ground arith)
]

format-starts :
    (fuel n : ℕ) (t : Text) → starts_digit t ≡ true → starts_digit (format_digits fuel n t) ≡ true
unfolding format_digits
format-starts zero n t h = h
format-starts (suc fuel) n t h = elim (Bool-cases (ltb n 10)) [
  | inl small ↦ rw small (ground arith)
  | inr large ↦ rw large (format-starts fuel (n / 10) ((48 + n % 10) ∷ t) (ground arith))
]

format-starts_once : (fuel n : ℕ) (t : Text) → starts_digit (format_digits (suc fuel) n t) ≡ true
unfolding format_digits
format-starts_once fuel n t = elim (Bool-cases (ltb n 10)) [
  | inl small ↦ rw small (ground arith)
  | inr large ↦ rw large (format-starts fuel (n / 10) ((48 + n % 10) ∷ t) (ground arith))
]

unsigned-starts : (t : Text) → starts_digit t ≡ true → parse_unsigned t ≡ parse_digits 0 t
unfolding parse_unsigned
unsigned-starts [] h = ground arith
unsigned-starts (c ∷ cs) h = refl

parse-starts : (t : Text) → starts_digit t ≡ true → parse_int t ≡ in_range false (parse_unsigned t)
unfolding parse_int
parse-starts [] h = ground arith
parse-starts (c ∷ cs) h = ground arith

parse-minus : (t : Text) → parse_int (45 ∷ t) ≡ in_range true (parse_unsigned t)
unfolding parse_int
parse-minus t = refl

-- The text of a number below 10^20 starts with a digit and is read back.
unsigned-format :
    (n : ℕ)
    → n < 10 ^ 20
    → (starts_digit (format_digits 20 n []) ≡ true)
      × (parse_unsigned (format_digits 20 n []) ≡ some n)
unfolding parse_digits
unsigned-format n h =
    let starts = format-starts_once 19 n [] in
    (starts, unsigned-starts (format_digits 20 n []) starts ∙ parse-format 20 n [] h)

-- An int64 is read back from its text.
pub parse_int-format_int : (v : ℤ) → IsInt64 v → parse_int (format_int v) ≡ some v
unfolding format_int in_range
parse_int-format_int (pos n) h =
    let (starts, read) = unsigned-format n (omega arith) in
    parse-starts (format_digits 20 n []) starts ∙ ap (in_range false) read ∙ ground arith
parse_int-format_int (negsuc n) h =
    let (starts, read) = unsigned-format (suc n) (omega arith) in
    parse-minus (format_digits 20 (suc n) []) ∙ ap (in_range true) read ∙ ground arith
