-- ===== src/Tests/Accounts.antt =====
-- The user service at concrete events, over entries that are functions.
use mathlib.Core.Path.{subst}
use Prim.Native.String.{String}
use text.Mathlib.Text.{◌==◌ as str_eq}
use gozero_x.Common.{
  ℕ, ◌≤◌, ◌<◌, ◌≡◌, refl, sym, ap, ◌∙◌, inl, inr, Bool, true, false, ◌&&◌, Option, none, some,
  some_inj, List, [], ◌∷◌, map, arith, ltb, ◌==◌, if◌then◌else◌,
}
use gozero_x.Common.Int.{pos}
use gozero_x.Json.{Json, int, deliver}
use gozero_x.Users.{
  User, Lookup, missing, looked_up, find_mobile, find_uid, insert_user, is_taken, with_stats,
}
use gozero_x.Users.Rows.{
  row_entry, index_entry, row_after, CachedConn, IsLawful, Store, find_one, find_one_by_mobile,
}
use gozero_x.Users.Hashes.{user_hash, set_user}
use gozero_x.Users.Accounts.{
  Answers, AccountReq, insert, insert_into, register_hashed, register_found, register, logged_in,
  login_found, login,
}
use gozero_x.Users.Info.{
  UpdateUserStatsReq, info_with, info_found, info_of_hash, get_user_info, update_user_stats,
}
use gozero_x.Users.Coherent.{view, of_if, IsCoherent}
use gozero_x.Users.Coherent.Tables.{after}
use gozero_x.Users.Refines.{
  Event, logs_in, registers, asks, counts, expires, action, act, run, Meets, AllFresh,
}
use gozero_x.Users.Refines.Steps.{run-Meets}
use gozero_x.Users.Brief.{batch_get_user_brief, success}
use gozero_x.Users.Brief.InOrder.{brief_of, batch_get_user_brief-map}
use gozero_x.Users.Token.{
  Claims, Jwt, IsLawful as IsLawfulJwt, handle, passes, denied, generate_jwt_token,
}
use gozero_x.Users.Token.Laws.{bearer, handle-generate_jwt_token}
use gozero_x.Users.Stale.{get_user_info-update_user_stats}
use gozero_x.Tests.Hashes.{one_key, one_key-IsLawful}

-- Entries for mobiles and for rows.
abbrev Entries : Type 0
Entries = (String → Option (Option ℕ)) × (ℕ → Option (Option User))

abbrev ask_row : Option (Option User) → ℕ → Lookup → Entries → Lookup × Entries
ask_row none k q (ix, rw') = (q, (ix, λ j. if j == k then row_entry q else rw' j))
ask_row (some e) k q s = (looked_up e, s)

abbrev query_row : ℕ → Lookup → Entries → Lookup × Entries
query_row k q s = ask_row (s.1 k) k q s

abbrev ask_index : Option (Option ℕ) → String → Lookup → (ℕ → Lookup) → Entries → Lookup × Entries
ask_index none m q p (ix, rw') =
    (q, ((λ i. if str_eq i m then index_entry q else ix i), λ j. row_after q j (rw' j)))
ask_index (some none) m q p s = (missing, s)
ask_index (some (some n)) m q p s = query_row n (p n) s

abbrev entries : CachedConn
entries = record {
  State = Entries;
  index = λ m s. s.0 m;
  row = λ k s. s.1 k;
  query_row = query_row;
  query_row_index = λ m q p s. ask_index (s.0 m) m q p s;
  drop = λ m k s. ((λ i. if str_eq i m then none else s.0 i), λ j. if j == k then none else s.1 j);
}

row-index :
    (e : Option (Option User)) (m : String) (k : ℕ) (q : Lookup) (s : Entries)
    → (ask_row e k q s).1.0 m ≡ s.0 m
row-index none m k q s = refl
row-index (some e) m k q s = refl

entries-IsLawful : IsLawful entries
entries-IsLawful = record {
  row_hit = λ k q s e h. ap (λ o. ask_row o k q s) h;
  row_miss = λ k q s h. ap (λ o. (ask_row o k q s).0) h;
  row_stored = λ j k q s h. ap (λ o. (ask_row o k q s).1.1 j) h;
  row_index = λ m k q s. row-index (s.1 k) m k q s;
  index_none = λ m q p s h. ap (λ o. ask_index o m q p s) h;
  index_hit = λ m q p s n h. ap (λ o. ask_index o m q p s) h;
  index_miss = λ m q p s h. ap (λ o. (ask_index o m q p s).0) h;
  index_stored = λ i m q p s h. ap (λ o. (ask_index o m q p s).1.0 i) h;
  index_row = λ j m q p s h. ap (λ o. (ask_index o m q p s).1.1 j) h;
  drop_index = λ i m k s. refl;
  drop_row = λ j m k s. refl;
}

abbrev compare_hash : String → String → Bool
compare_hash hash password = str_eq hash password

abbrev nobody : Store entries one_key
nobody = record { table = []; rows = ((λ i. none), λ j. none); hashes = [] }

nobody-IsCoherent : IsCoherent entries [] (nobody.rows)
unfolding find_mobile
nobody-IsCoherent = record {
  keyed = λ m u h. absurd (ground arith);
  index_missing = λ m h. absurd (ground arith);
  index_right = λ m n h. absurd (ground arith);
  row_right = λ n u h. absurd (ground arith);
  row_there = λ m n h. absurd (ground arith);
}

abbrev told : Answers
told = record {
  query_ok = true;
  hashed = some "secret";
  now = 1700000000;
  db_now = 1700000001;
  new_uid = 7;
  exec_ok = true;
  uid_ok = true;
  token = some (record { access_token = "t"; access_expire = 1700086400 });
}

abbrev told_later : Answers
told_later = record told { new_uid = 8 }

abbrev right_one : AccountReq
right_one = record { mobile = "139"; password = "secret" }

abbrev wrong_one : AccountReq
wrong_one = record { mobile = "139"; password = "guess" }

abbrev a_post : UpdateUserStatsReq
a_post = record { uid = 7; update_type = 3; delta = pos 1 }

abbrev a_day : List Event
a_day =
    logs_in told right_one
    ∷ asks true 7
    ∷ registers told right_one
    ∷ registers told_later wrong_one
    ∷ counts true 1700000001 a_post
    ∷ logs_in told right_one
    ∷ expires "139" 7
    ∷ logs_in told wrong_one
    ∷ []

a_day_fresh : AllFresh entries one_key compare_hash a_day nobody
unfolding act login login_found find_one_by_mobile find_mobile find_uid logged_in set_user user_hash
    get_user_info info_with info_found find_one info_of_hash register register_found register_hashed
    insert insert_into insert_user is_taken
a_day_fresh = (tt, (tt, (refl, (refl, (tt, (tt, (tt, (tt, tt))))))))

run-Meets_example :
    Meets compare_hash
      (view [])
      (map action a_day)
      (run entries one_key compare_hash a_day nobody).0
      (view (run entries one_key compare_hash a_day nobody).1.table)
run-Meets_example =
    run-Meets entries entries-IsLawful one_key compare_hash a_day nobody a_day_fresh
      nobody-IsCoherent

abbrev a_user : User
a_user = record {
  uid = 7;
  mobile = "139";
  password = "secret";
  nickname = "用户139";
  avatar = "";
  bio = "";
  follow_count = pos 0;
  fans_count = pos 0;
  post_count = pos 0;
  status = 1;
  last_login_at = 1700000000;
  created_at = 1700000000;
  updated_at = 1700000000;
}

batch_get_user_brief-map_example :
    (batch_get_user_brief one_key (some (a_user ∷ [])) (7 ∷ 8 ∷ 7 ∷ []) []).0
    ≡ success (map (λ uid. some (brief_of one_key (a_user ∷ []) [] uid)) (7 ∷ 8 ∷ 7 ∷ []))
batch_get_user_brief-map_example =
    batch_get_user_brief-map one_key (a_user ∷ []) (7 ∷ 8 ∷ 7 ∷ []) []

-- A JWT library that signs one token.
abbrev one_token : Jwt
one_token = record {
  sign = λ secret c. if c.user_id == 7 && (c.exp == 1100 && c.iat == 1000) then some "t" else none;
  parse = λ secret now token. if ltb now 1100 then some (deliver (int 7)) else none;
}

signed_fields :
    (c : Claims) (token : String)
    → one_token.sign "" c ≡ some token
    → (c.user_id ≡ 7) × (c.exp ≡ 1100)
signed_fields c token h = ground arith

in_time :
    (now exp : ℕ) (o : Option Json)
    → exp ≡ 1100
    → now < exp
    → (if ltb now 1100 then o else none) ≡ o
in_time now exp o e h = ground arith

too_late :
    (now exp : ℕ) (o : Option Json)
    → exp ≡ 1100
    → exp ≤ now
    → (if ltb now 1100 then o else none) ≡ none
too_late now exp o e h = ground arith

one_token-IsLawful : IsLawfulJwt one_token
one_token-IsLawful = record {
  accepts = λ secret c token now signed made valid.
      let (user, until) = signed_fields c token signed in
      in_time now c.exp (some (deliver (int 7))) until valid
      ∙ ap (λ n. some (deliver (int n))) (sym user);
  rejects = λ secret c token now signed late.
      too_late now c.exp (some (deliver (int 7))) (signed_fields c token signed).1 late;
}

made_one :
    generate_jwt_token one_token "key" 100 1000 7
    ≡ some (record { access_token = "t"; access_expire = 1100 })
unfolding generate_jwt_token
made_one = refl

handle-generate_jwt_token_example :
    handle one_token "key" 1050 (bearer "t")
    ≡ (if ltb 1050 1100 then passes 7 else denied "无效token")
handle-generate_jwt_token_example =
    handle-generate_jwt_token one_token one_token-IsLawful "key" 100 1000 7 1050
      (record { access_token = "t"; access_expire = 1100 }) made_one (omega arith) (omega arith)

abbrev one_user : Store entries one_key
one_user = record { table = a_user ∷ []; rows = ((λ i. none), λ j. none); hashes = [] }

one_user-IsCoherent : IsCoherent entries (a_user ∷ []) (one_user.rows)
unfolding find_mobile find_uid
one_user-IsCoherent = record {
  keyed = λ m u h. elim (of_if (str_eq "139" m) _ _ _ h) [
    | inl (same, e) ↦ subst (λ x. find_uid x.uid (a_user ∷ []) ≡ some x) (some_inj a_user u e) refl
    | inr (other, e) ↦ absurd (ground arith)
  ];
  index_missing = λ m h. absurd (ground arith);
  index_right = λ m n h. absurd (ground arith);
  row_right = λ n u h. absurd (ground arith);
  row_there = λ m n h. absurd (ground arith);
}

shows : (get_user_info entries one_key true 7 one_user).0.code ≡ 0
unfolding get_user_info info_with info_found find_one find_uid
shows = refl

counted :
    (update_user_stats entries one_key true 5 a_post
      (get_user_info entries one_key true 7 one_user).1).0.code
    ≡ 0
unfolding get_user_info info_with info_found find_one find_uid update_user_stats
counted = refl

get_user_info-update_user_stats_example :
    ((get_user_info entries one_key false 7
        (update_user_stats entries one_key true 5 a_post
          (get_user_info entries one_key true 7 one_user).1).1).0
      ≡ (get_user_info entries one_key true 7 one_user).0)
    × (find_uid 7
          (update_user_stats entries one_key true 5 a_post
            (get_user_info entries one_key true 7 one_user).1).1.table
        ≡ after
            (with_stats 7 3 (pos 1) 5)
            (find_uid 7 (get_user_info entries one_key true 7 one_user).1.table))
get_user_info-update_user_stats_example =
    get_user_info-update_user_stats entries entries-IsLawful one_key one_key-IsLawful true false
      true 5 7 a_post one_user one_user-IsCoherent shows counted
