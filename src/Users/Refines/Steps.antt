-- ===== src/Users/Refines/Steps.antt =====
-- Every event does what the directory of accounts allows, and so does a run of events.
use Prim.Native.String.{String}
use gozero_x.Common.{
  ℕ, Bool, Bool-cases, ◌||◌, ◌&&◌, ◌≡◌, refl, inl, inr, Option, none, some, List, [], ◌∷◌, map,
  ◌==◌,
}
use gozero_x.Cache.{Redis, Hash}
use gozero_x.Users.{Lookup, failed, missing, found, find_uid, with_stats}
use gozero_x.Users.Rows.{CachedConn, IsLawful, Store, find_one, find_one_by_mobile}
use gozero_x.Users.Hashes.{user_key, hit}
use gozero_x.Users.Accounts.{Answers, AccountReq, register, login}
use gozero_x.Users.Info.{
  UpdateUserStatsReq, get_user_info, info_with, info_found, update_user_stats,
}
use gozero_x.Users.Coherent.{view, IsCoherent}
use gozero_x.Users.Coherent.Tables.{map-IsCoherent, view-map, with_stats-Keeps, drop-IsCoherent}
use gozero_x.Users.Coherent.Look.{find_one_by_mobile-Tells, find_one-IsCoherent}
use gozero_x.Users.Refines.{
  Allowed, Meets, done, next, Event, logs_in, registers, asks, counts, expires, action, outcome,
  act, run, Fresh, AllFresh,
}
use gozero_x.Users.Refines.Found.{
  Keeping, login_found-Keeping, login_found-answers, register_found-Registers,
}

module _ (c : CachedConn) (lawful : IsLawful c) (r : Redis) (check : String → String → Bool) where
  login-Allowed :
      (a : Answers) (req : AccountReq) (s : Store c r)
      → IsCoherent c s.table s.rows
      → let (resp, left) = login c r check a req s in
        Allowed check (view s.table) (action (logs_in a req)) (outcome resp) (view left.table)
        × IsCoherent c left.table left.rows
  unfolding login find_one_by_mobile
  login-Allowed a req s v =
      let (tells, right) = find_one_by_mobile-Tells c lawful r a.query_ok req.mobile s v in
      let (user, left) = find_one_by_mobile c r a.query_ok req.mobile s in
      let (same, kept) = login_found-Keeping c lawful r check a req user left right in
      (
        (
          login_found-answers c lawful r check a req user (view s.table req.mobile) left tells,
          same,
        ),
        kept,
      )

  register-Allowed :
      (a : Answers) (req : AccountReq) (s : Store c r)
      → find_uid a.new_uid s.table ≡ none
      → IsCoherent c s.table s.rows
      → let (resp, left) = register c r a req s in
        Allowed check (view s.table) (action (registers a req)) (outcome resp) (view left.table)
        × IsCoherent c left.table left.rows
  unfolding register find_one_by_mobile
  register-Allowed a req s fresh v =
      let (tells, right) = find_one_by_mobile-Tells c lawful r a.query_ok req.mobile s v in
      let (user, left) = find_one_by_mobile c r a.query_ok req.mobile s in
      register_found-Registers c lawful r check a req user left fresh right tells

  info_found-Keeping :
      (l : Lookup) (s : Store c r)
      → IsCoherent c s.table s.rows
      → Keeping c lawful r check s (info_found c r l s).1
  unfolding info_found
  info_found-Keeping missing s v = (λ m. refl, v)
  info_found-Keeping failed s v = (λ m. refl, v)
  info_found-Keeping (found u) s v = elim (Bool-cases (u.status == 0)) [
    | inl disabled ↦ rw disabled (λ m. refl, v)
    | inr enabled ↦ rw enabled (λ m. refl, v)
  ]

  info_with-Keeping :
      (ok : Bool) (uid : ℕ) (h : Option Hash) (s : Store c r)
      → IsCoherent c s.table s.rows
      → Keeping c lawful r check s (info_with c r ok uid h s).1
  unfolding info_with find_one
  info_with-Keeping ok uid (some h) s v = (λ m. refl, v)
  info_with-Keeping ok uid none s v =
      let (user, left) = find_one c r ok uid s in
      info_found-Keeping user left (find_one-IsCoherent c lawful r ok uid s v)

  get_user_info-Keeping :
      (ok : Bool) (uid : ℕ) (s : Store c r)
      → IsCoherent c s.table s.rows
      → Keeping c lawful r check s (get_user_info c r ok uid s).1
  unfolding get_user_info
  get_user_info-Keeping ok uid s v =
      info_with-Keeping ok uid (hit (r.hgetall (user_key uid) s.hashes)) s v

  update_user_stats-Keeping :
      (ok : Bool) (now : ℕ) (req : UpdateUserStatsReq) (s : Store c r)
      → IsCoherent c s.table s.rows
      → Keeping c lawful r check s (update_user_stats c r ok now req s).1
  unfolding update_user_stats
  update_user_stats-Keeping ok now req s v =
      let f = with_stats req.uid req.update_type req.delta now in
      let k = with_stats-Keeps req.uid req.update_type req.delta now in
      elim (Bool-cases
        ((req.update_type == 1 || req.update_type == 2 || req.update_type == 3) && ok)) [
          | inl fine ↦ rw fine (λ m. view-map f k m s.table, map-IsCoherent f k c s.table s.rows v)
          | inr broken ↦ rw broken (λ m. refl, v)
        ]

  -- A step of the service: its answer and its accounts are what the directory allows.
  act-Allowed :
      (e : Event) (s : Store c r)
      → Fresh c r check e s
      → IsCoherent c s.table s.rows
      → let (o, left) = act c r check e s in
        Allowed check (view s.table) (action e) o (view left.table)
        × IsCoherent c left.table left.rows
  unfolding act
  act-Allowed (logs_in a req) s fresh v = login-Allowed a req s v
  act-Allowed (registers a req) s fresh v = register-Allowed a req s fresh v
  act-Allowed (asks ok uid) s fresh v =
      let (same, right) = get_user_info-Keeping ok uid s v in ((refl, same), right)
  act-Allowed (counts ok now req) s fresh v =
      let (same, right) = update_user_stats-Keeping ok now req s v in ((refl, same), right)
  act-Allowed (expires mobile uid) s fresh v =
      ((refl, λ m. refl), drop-IsCoherent c lawful mobile uid s.table s.rows v)

  -- The service implements the directory. From entries that agree with the table, and with uids that
  -- the table gives to one row only, every run of logins, registrations, lookups, counts and expiring
  -- entries answers what the directory of its accounts allows: each login exactly as the accounts
  -- say, or that the service is unavailable where the database or the token fails; a registration of
  -- a mobile that is taken never changes an account, and one of a free mobile adds that account or
  -- nothing; and nothing else ever changes an account.
  pub run-Meets :
      (es : List Event) (s : Store c r)
      → AllFresh c r check es s
      → IsCoherent c s.table s.rows
      → let (outs, left) = run c r check es s in
        Meets check (view s.table) (map action es) outs (view left.table)
  unfolding run
  run-Meets [] s fresh v = done
  run-Meets (e ∷ es) s (fresh, later) v =
      let (allowed, right) = act-Allowed e s fresh v in
      next allowed (run-Meets es (act c r check e s).1 later right)
