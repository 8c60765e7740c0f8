-- ===== src/Tests/Texts.antt =====
-- A list of ids as texts, at concrete inputs.
use gozero_x.Common.{
  ◌-◌, ◌+◌, ◌≡◌, refl, inl, inr, sym, ◌∙◌, true, ◌||◌, Option, none, some, some_inj, List, [], ◌∷◌,
  ◌++◌, arith, length, take, ◌==◌, ltb, if◌then◌else◌, Bool-cases,
}
use gozero_x.Common.Int.{ℤ, pos, negsuc}
use gozero_x.Cache.Decimal.{
  Text, format_int, parse_int, format_digits, in_range, parse_unsigned, parse_digits,
}
use gozero_x.Cache.Manager.{Client, IsLawful, r_push, l_range, parse_each}
use gozero_x.Cache.Manager.Pushed.{l_range-r_push}

-- The lists of a server that keeps one of them, for every key, and three texts in it at most.
abbrev appended : Text → List Text → Option (List Text)
appended x s = if ltb (length s) 3 then some (s ++ (x ∷ [])) else none

-- Only the commands on lists are of use here; the other ones fail.
abbrev short_lists : Client
short_lists = record {
  State = List Text;
  items = λ k s. s;
  get = λ k s. none;
  setex = λ k x n s. none;
  del = λ k s. none;
  sadd = λ k ts s. none;
  srem = λ k ts s. none;
  smembers = λ k s. none;
  lrange = λ k start stop s. some s;
  ltrim = λ k start stop s. none;
  rpush = λ k x s. appended x s;
}

appended-append : (x : Text) (s t : List Text) → appended x s ≡ some t → t ≡ s ++ (x ∷ [])
appended-append x s t done = elim (Bool-cases (ltb (length s) 3)) [
  | inl room ↦ some_inj t (s ++ (x ∷ [])) (sym done ∙ rw room refl)
  | inr full ↦ ground (arith, full)
]

short_lists-IsLawful : IsLawful short_lists
short_lists-IsLawful = record {
  lrange_all = λ k s ts told. some_inj ts s (sym told);
  rpush_appends = λ k x s t done. appended-append x s t done;
}

abbrev one_id : List Text
one_id = format_int (pos 5) ∷ []

abbrev pushed_ids : List ℤ
pushed_ids = pos 17 ∷ negsuc 0 ∷ pos 9 ∷ []

read_back :
    l_range short_lists "recommend" "feed" 3
      (pos 0)
      (negsuc 0)
      (r_push short_lists "recommend" "feed" 3 pushed_ids one_id).1
    ≡ some (pos 5 ∷ pos 17 ∷ negsuc 0 ∷ [])
unfolding l_range parse_each r_push parse_int format_int format_digits in_range parse_unsigned
    parse_digits
read_back = refl

l_range-r_push_example :
    (pos 5 ∷ pos 17 ∷ negsuc 0 ∷ [] ≡ (pos 5 ∷ []) ++ take (3 - 1) pushed_ids)
    × ((r_push short_lists "recommend" "feed" 3 pushed_ids one_id).0 || 3 == 1 + 3 ≡ true)
l_range-r_push_example =
    l_range-r_push short_lists short_lists-IsLawful "recommend" "feed" 3 (pos 5 ∷ []) pushed_ids
      (pos 5 ∷ pos 17 ∷ negsuc 0 ∷ []) one_id (omega arith, _)
      (omega arith, (omega arith, (omega arith, _))) refl read_back
