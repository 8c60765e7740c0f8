-- ===== src/Users/Shown.antt =====
-- What a lookup and a hash of a user say of the user.
use Prim.Native.String.{String}
use gozero_x.Common.{
  ℕ, Bool, true, false, Bool-cases, ==_iff, ◌≡◌, refl, sym, ap, ◌∙◌, inl, inr, Option, none, some,
  some_inj, List, [], ◌∷◌, arith, ◌==◌, if◌then◌else◌,
}
use gozero_x.Cache.{Cell, nat, shown, raw, Hash, get, nat_cell, int_cell, text_cell}
use gozero_x.Users.{User, found, looked_up, answered, find_uid}
use gozero_x.Users.Hashes.{user_hash, hit, parse_user_info, parse_status, build_user_info}
use gozero_x.Users.Info.{success, info_of_hash}

-- A hash with the fields of a user gives that user.
pub info_of_hash-user :
    (uid : ℕ) (u : User) (g : Hash)
    → ((f : String) (v : Cell) → get f (user_hash u) ≡ some v → get f g ≡ some v)
    → u.uid ≡ uid
    → (u.status == 0) ≡ false
    → info_of_hash uid g ≡ success (build_user_info u)
unfolding info_of_hash parse_user_info parse_status user_hash get nat_cell int_cell text_cell
info_of_hash-user uid u g holds same enabled = rw (
  holds "nickname" (raw u.nickname) refl,
  holds "avatar" (raw u.avatar) refl,
  holds "bio" (raw u.bio) refl,
  holds "status" (nat u.status) refl,
  holds "follow_count" (shown u.follow_count) refl,
  holds "fans_count" (shown u.fans_count) refl,
  holds "post_count" (shown u.post_count) refl,
  enabled,
  same,
)

pub find_uid-uid : (n : ℕ) (t : List User) (u : User) → find_uid n t ≡ some u → u.uid ≡ n
unfolding find_uid
find_uid-uid n [] u h = absurd (ground arith)
find_uid-uid n (w ∷ t) u h = elim (Bool-cases (w.uid == n)) [
  | inl same ↦
      ap (λ x. x.uid)
        (sym (some_inj w u (ap (λ b. if b then some w else find_uid n t) (sym same) ∙ h)))
      ∙ (==_iff w.uid n).0 same
  | inr other ↦ find_uid-uid n t u (ap (λ b. if b then some w else find_uid n t) (sym other) ∙ h)
]

pub looked_up-found : (o : Option User) (u : User) → looked_up o ≡ found u → o ≡ some u
looked_up-found none u h = absurd (ground arith)
looked_up-found (some w) u h = ground arith

pub answered-found : (ok : Bool) (o : Option User) (u : User) → answered ok o ≡ found u → o ≡ some u
answered-found true o u h = looked_up-found o u h
answered-found false o u h = absurd (ground arith)

pub hit-some : (o : Option Hash) (g : Hash) → hit o ≡ some g → o ≡ some g
hit-some none g h = absurd (ground arith)
hit-some (some []) g h = absurd (ground arith)
hit-some (some (f ∷ h)) g e = e
