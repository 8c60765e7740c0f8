-- ===== src/Users/Stale.antt =====
-- UpdateUserStats leaves the hash and the entry of the user: GetUserInfo goes on with the old counts.
use gozero_x.Common.{
  ℕ, Bool, true, false, Bool-cases, ◌≡◌, refl, sym, ap, ◌∙◌, inl, inr, Option, none, some,
  Option-cases, List, map, arith, ◌==◌, if◌then◌else◌,
}
use gozero_x.Cache.{Redis, Hash, IsLawful as IsLawfulRedis}
use gozero_x.Users.{User, Lookup, failed, missing, found, answered, find_uid, with_stats}
use gozero_x.Users.Rows.{CachedConn, IsLawful, Store, find_one, row_entry}
use gozero_x.Users.Hashes.{user_key, user_hash, hit, set_user, or_same, build_user_info}
use gozero_x.Users.Info.{
  UpdateUserStatsReq, success, info_of_hash, get_user_info, info_with, info_found,
  update_user_stats,
}
use gozero_x.Users.Coherent.{IsCoherent}
use gozero_x.Users.Coherent.Tables.{after, find_uid-map, with_stats-Keeps}
use gozero_x.Users.Shown.{
  info_of_hash-user, find_uid-uid, answered-found, looked_up-found, hit-some,
}

module _ (c : CachedConn) (lawful : IsLawful c) (r : Redis) (redis : IsLawfulRedis r) where
  -- UpdateUserStats touches the table only.
  update_user_stats-kept :
      (ok : Bool) (now : ℕ) (req : UpdateUserStatsReq) (s : Store c r)
      → let left = (update_user_stats c r ok now req s).1 in
        (left.rows ≡ s.rows) × (left.hashes ≡ s.hashes)
  unfolding update_user_stats
  update_user_stats-kept ok now req s = (ground arith, ground arith)

  -- A row that was found is found again, whatever the table holds now.
  query_row-again :
      (k : ℕ) (q q' : Lookup) (s : c.State) (u : User)
      → (c.query_row k q s).0 ≡ found u
      → (c.query_row k q' (c.query_row k q s).1).0 ≡ found u
  query_row-again k q q' s u h = elim (Option-cases (c.row k s)) [
    | inl empty ↦
        let asked = sym (lawful.row_miss k q s empty) ∙ h in
        let entry =
          lawful.row_stored k k q s empty
          ∙ ap (λ b. if b then row_entry q else c.row k s) (same k)
          ∙ ap row_entry asked in
        ap (λ p. p.0) (lawful.row_hit k q' (c.query_row k q s).1 (some u) entry)
    | inr (e, there) ↦
        let hit_once = lawful.row_hit k q s e there in
        ap (λ p. (c.query_row k q' p.1).0) hit_once
        ∙ ap (λ p. p.0) (lawful.row_hit k q' s e there)
        ∙ sym (ap (λ p. p.0) hit_once)
        ∙ h
  ]
    where
      same : (n : ℕ) → (n == n) ≡ true
      same n = ground arith

  -- A hash that is read after a user was shown, where none was read before, gives the user.
  hash_after :
      (uid : ℕ) (u : User) (s : r.State) (g : Hash)
      → u.uid ≡ uid
      → (u.status == 0) ≡ false
      → hit (r.hgetall (user_key uid) s) ≡ none
      → hit (r.hgetall (user_key uid) (set_user r u s)) ≡ some g
      → info_of_hash uid g ≡ success (build_user_info u)
  unfolding set_user
  hash_after uid u s g same enabled empty h =
      elim (Option-cases (r.hmset (user_key u.uid) (user_hash u) s)) [
        | inl refused ↦
            let unread =
              sym empty
              ∙ ap (λ o. hit (r.hgetall (user_key uid) (or_same s o))) (sym refused)
              ∙ h in
            absurd (ground arith)
        | inr (t, stored) ↦
            let written = ap (λ o. hit (r.hgetall (user_key uid) (or_same s o))) (sym stored) ∙ h in
            let read =
              ap (λ n. r.hgetall (user_key n) t) same
              ∙ hit-some (r.hgetall (user_key uid) t) g written in
            info_of_hash-user uid u g
              (λ f v e. redis.hmset_sets (user_key u.uid) (user_hash u) s t g f v stored read e)
              same enabled
      ]

  -- GetUserInfo in two steps: what it answers, from the hash or from FindOne.
  info_with-again :
      (uid : ℕ) (u : User) (ok : Bool) (o : Option Hash) (s : Store c r)
      → ((g : Hash) → o ≡ some g → info_of_hash uid g ≡ success (build_user_info u))
      → (find_one c r ok uid s).0 ≡ found u
      → (u.status == 0) ≡ false
      → (info_with c r ok uid o s).0 ≡ success (build_user_info u)
  unfolding info_with info_found
  info_with-again uid u ok (some g) s hashed there enabled = hashed g refl
  info_with-again uid u ok none s hashed there enabled = rw (there, enabled) refl

  -- A first answer that shows a user comes from the hash, or from a row that is found.
  info_found-shown :
      (l : Lookup) (s : Store c r)
      → (info_found c r l s).0.code ≡ 0
      → (u : User) × (l ≡ found u)
        × ((u.status == 0) ≡ false)
        × (info_found c r l s
            ≡ (success (build_user_info u), record s { hashes = set_user r u s.hashes }))
  unfolding info_found
  info_found-shown missing s h = absurd (ground arith)
  info_found-shown failed s h = absurd (ground arith)
  info_found-shown (found u) s h = elim (Bool-cases (u.status == 0)) [
    | inl disabled ↦ absurd (ground arith)
    | inr enabled ↦ (u, refl, enabled, rw enabled refl)
  ]

  -- FindOne finds the row once more, over any table.
  find_one-again :
      (asks again : Bool) (uid : ℕ) (s : Store c r) (u : User) (t : List User) (h : r.State)
      → (find_one c r asks uid s).0 ≡ found u
      → (find_one c r again uid
          (record { table = t; rows = (find_one c r asks uid s).1.rows; hashes = h })).0
        ≡ found u
  unfolding find_one
  find_one-again asks again uid s u t h there = query_row-again uid _ _ s.rows u there

  find_one-hashes :
      (asks : Bool) (uid : ℕ) (s : Store c r) → (find_one c r asks uid s).1.hashes ≡ s.hashes
  unfolding find_one
  find_one-hashes asks uid s = refl

  -- The row that FindOne finds under a uid has this uid.
  find_one-uid :
      (asks : Bool) (uid : ℕ) (s : Store c r) (u : User)
      → IsCoherent c s.table s.rows
      → (find_one c r asks uid s).0 ≡ found u
      → u.uid ≡ uid
  unfolding find_one
  find_one-uid asks uid s u v there = elim (Option-cases (c.row uid s.rows)) [
    | inl empty ↦
        find_uid-uid uid s.table u
          (answered-found asks _ u (sym (lawful.row_miss uid _ s.rows empty) ∙ there))
    | inr (e, entry) ↦
        let same = ap (λ p. p.0) (lawful.row_hit uid _ s.rows e entry) in
        let (x, row, right) =
          v.row_right uid u (entry ∙ ap some (looked_up-found e u (sym same ∙ there))) in
        sym (ap (λ a. a.uid) right) ∙ find_uid-uid uid s.table x row
  ]

  shown_again :
      (asks again : Bool) (uid : ℕ) (s : Store c r) (t : List User)
      → IsCoherent c s.table s.rows
      → (o : Option Hash) → hit (r.hgetall (user_key uid) s.hashes) ≡ o
      → (info_with c r asks uid o s).0.code ≡ 0
      → let (first, seen) = info_with c r asks uid o s in
        (get_user_info c r again uid
          (record { table = t; rows = seen.rows; hashes = seen.hashes })).0
        ≡ first
  unfolding info_with get_user_info
  shown_again asks again uid s t v (some h) read answered = rw read refl
  shown_again asks again uid s t v none read answered =
      let (u, there, enabled, answer) =
        info_found-shown (find_one c r asks uid s).0 (find_one c r asks uid s).1 answered in
      rw answer (
        info_with-again uid u again
          (hit (r.hgetall (user_key uid) (set_user r u (find_one c r asks uid s).1.hashes))) _
          (λ g h.
            hash_after uid u (find_one c r asks uid s).1.hashes g
              (find_one-uid asks uid s u v there) enabled
              (ap (λ x. hit (r.hgetall (user_key uid) x)) (find_one-hashes asks uid s) ∙ read) h)
          (find_one-again asks again uid s u t _ there) enabled)

  update_user_stats-table :
      (ok : Bool) (now : ℕ) (req : UpdateUserStatsReq) (s : Store c r)
      → let (resp, left) = update_user_stats c r ok now req s in
        resp.code ≡ 0 → left.table ≡ map (with_stats req.uid req.update_type req.delta now) s.table
  unfolding update_user_stats
  update_user_stats-table ok now req s h = ground arith

  -- With entries that agree with the table, a user whom GetUserInfo shows is shown with the same
  -- counts after UpdateUserStats has succeeded, though the row has the new ones, also where the
  -- hash could not be written or is lost: the entry of the row is not dropped either.
  pub get_user_info-update_user_stats :
      (asks again ok : Bool) (now uid : ℕ) (req : UpdateUserStatsReq) (s : Store c r)
      → IsCoherent c s.table s.rows
      → (get_user_info c r asks uid s).0.code ≡ 0
      → (update_user_stats c r ok now req (get_user_info c r asks uid s).1).0.code ≡ 0
      → let (first, seen) = get_user_info c r asks uid s in
        let left = (update_user_stats c r ok now req seen).1 in
        ((get_user_info c r again uid left).0 ≡ first)
        × (find_uid uid left.table
            ≡ after (with_stats req.uid req.update_type req.delta now) (find_uid uid seen.table))
  get_user_info-update_user_stats asks again ok now uid req s v answered counted =
      let seen = (get_user_info c r asks uid s).1 in
      let left = (update_user_stats c r ok now req seen).1 in
      let (rows, hashes) = update_user_stats-kept ok now req seen in
      let whole : Path (Store c r) left
          (record { table = left.table; rows = seen.rows; hashes = seen.hashes }) =
        λ i. record { table = left.table; rows = rows i; hashes = hashes i } in
      (
        ap (λ x. (get_user_info c r again uid x).0) whole
            ∙ unfold get_user_info in
              shown_again asks again uid s left.table v (hit (r.hgetall (user_key uid) s.hashes))
                refl answered,
        ap (find_uid uid) (update_user_stats-table ok now req seen counted)
            ∙ find_uid-map (with_stats req.uid req.update_type req.delta now)
                (with_stats-Keeps req.uid req.update_type req.delta now) uid seen.table,
      )
