-- ===== src/Content/Laws.antt =====
-- Deleting a tweet twice: what the cache of rows in front of FindOne does to the second call, with and
-- without an update of the counts between the two.
use gozero_x.Common.{
  ℕ, ◌≡◌, refl, sym, ap, ◌∙◌, inl, inr, true, some, Option-cases, List, [], ◌∷◌, ◌++◌, arith,
  if◌then◌else◌,
}
use gozero_x.Common.Int.{ℤ, negsuc, ◌+ℤ◌}
use gozero_x.Cache.Tweets.{Tweet}
use gozero_x.Content.{
  Lookup, failed, missing, found, CachedConn, IsLawful, find_normal, with_status, update_status,
  counted, update_count, post_delta, DeleteTweetReq, UpdateTweetStatsReq, Answers, delete_calls,
  refuse, delete_found, Store, find_one, delete_tweet, update_tweet_stats,
}

-- A row that was found is found again, whatever the table holds now.
pub query_row-again :
    (c : CachedConn) (lawful : IsLawful c) (k : ℕ) (q r : Lookup) (s : c.State) (t : Tweet)
    → (c.query_row k q s).0 ≡ found t
    → (c.query_row k r (c.query_row k q s).1).0 ≡ found t
query_row-again c lawful k q r s t h = elim (Option-cases (c.peek k s)) [
  | inl empty ↦
      let asked = sym (lawful.miss k q s empty) ∙ h in
      let entry = ap (λ x. c.peek k (c.query_row k x s).1) asked ∙ lawful.stored k t s empty in
      ap (λ p. p.0) (lawful.hit k r (c.query_row k q s).1 (some t) entry)
  | inr (e, there) ↦
      let same = lawful.hit k q s e there in
      ap (λ p. (c.query_row k r p.1).0) same
      ∙ ap (λ p. p.0) (lawful.hit k r s e there)
      ∙ sym (ap (λ p. p.0) same)
      ∙ h
]

-- A row that is marked as deleted is not in the view.
pub find_normal-update_status :
    (snow_tid : ℕ) (ts : List Tweet) → find_normal snow_tid (update_status snow_tid 1 ts) ≡ missing
unfolding find_normal update_status with_status
find_normal-update_status snow_tid [] = refl
find_normal-update_status snow_tid (t ∷ ts) = ground (arith, find_normal-update_status snow_tid ts)

-- Counting changes neither the id nor the status of a row: what is missing stays missing.
find_normal-update_count :
    (snow_tid tid kind : ℕ) (delta : ℤ) (ts : List Tweet)
    → find_normal snow_tid ts ≡ missing
    → find_normal snow_tid (update_count tid kind delta ts) ≡ missing
unfolding find_normal update_count counted
find_normal-update_count snow_tid tid kind delta [] h = refl
find_normal-update_count snow_tid tid kind delta (t ∷ ts) h =
    ground (arith, find_normal-update_count snow_tid tid kind delta ts)

-- A normal tweet of the user is deleted.
delete_found-own :
    (a : Answers) (req : DeleteTweetReq) (t : Tweet) (table : List Tweet)
    → t.uid ≡ req.uid
    → t.status ≡ 0
    → a.update_ok ≡ true
    → delete_found a req (found t) table
      ≡ (record { code = 0; msg = "删除成功" }, delete_calls req, update_status req.snow_tid 1 table)
unfolding delete_found
delete_found-own a req t table owner normal ok = ground arith

delete_calls-posts : (req : DeleteTweetReq) → post_delta req.uid (delete_calls req) ≡ negsuc 0
unfolding delete_calls ◌+ℤ◌
delete_calls-posts req = ground arith

delete_calls-posts_twice :
    (req : DeleteTweetReq) → post_delta req.uid (delete_calls req ++ delete_calls req) ≡ negsuc 1
unfolding delete_calls ◌+ℤ◌
delete_calls-posts_twice req = ground arith

module _ (c : CachedConn) (lawful : IsLawful c) where
  -- What is left after a deletion, and what the query of FindOne gives.
  abbrev pub without : Store c → DeleteTweetReq → c.State → Store c
  without s req rows = record { table = update_status req.snow_tid 1 s.table; rows = rows }

  abbrev counted_store : UpdateTweetStatsReq → Store c → Store c
  counted_store stats s = record {
    table = update_count stats.snow_tid stats.update_type stats.delta s.table;
    rows = c.del stats.snow_tid s.rows;
  }

  abbrev pub asked : Answers → DeleteTweetReq → Store c → Lookup
  asked a req s = if a.query_ok then find_normal req.snow_tid s.table else failed

  -- What DeleteTweet does with a normal tweet of the user that FindOne finds.
  pub delete_tweet-own :
      (a : Answers) (req : DeleteTweetReq) (s : Store c) (t : Tweet)
      → (find_one c a.query_ok req.snow_tid s).0 ≡ found t
      → t.uid ≡ req.uid
      → t.status ≡ 0
      → a.update_ok ≡ true
      → delete_tweet c a req s ≡ (
        record { code = 0; msg = "删除成功" },
        delete_calls req,
        without s req (find_one c a.query_ok req.snow_tid s).1,
      )
  unfolding delete_tweet
  delete_tweet-own a req s t there owner normal ok =
      rw (there, delete_found-own a req t s.table owner normal ok)

  -- A user whose normal tweet FindOne finds, and who deletes it twice with updates that succeed and
  -- nothing in between, is told twice that it was deleted, and the post count goes down by two:
  -- UpdateStatus leaves the entry of the row, so the second FindOne still finds a normal tweet.
  pub delete_tweet-twice :
      (a b : Answers) (req : DeleteTweetReq) (s : Store c) (t : Tweet)
      → (find_one c a.query_ok req.snow_tid s).0 ≡ found t
      → t.uid ≡ req.uid
      → t.status ≡ 0
      → a.update_ok ≡ true
      → b.update_ok ≡ true
      → let (first, first_calls, left) = delete_tweet c a req s in
        let (second, second_calls, after) = delete_tweet c b req left in
        (first.msg ≡ "删除成功")
        × (second ≡ first)
        × (post_delta req.uid (first_calls ++ second_calls) ≡ negsuc 1)
  unfolding find_one
  delete_tweet-twice a b req s t there owner normal ok again =
      let left = without s req (find_one c a.query_ok req.snow_tid s).1 in
      rw
        (
          delete_tweet-own a req s t there owner normal ok,
          delete_tweet-own b req left t
              (query_row-again c lawful req.snow_tid (asked a req s) (asked b req left) s.rows t
                there)
              owner normal again,
        )
        (refl, refl, delete_calls-posts_twice req)

  -- An update of the counts that succeeds updates any table, and drops the entry.
  update_tweet_stats-done :
      (u : Answers) (stats : UpdateTweetStatsReq) (s left : Store c)
      → (update_tweet_stats c u stats s).0.code ≡ 0
      → (update_tweet_stats c u stats left).1 ≡ counted_store stats left
  unfolding update_tweet_stats
  update_tweet_stats-done u stats s left h = ground arith

  -- Where FindOne finds nothing, nothing is done.
  delete_tweet-missing :
      (b : Answers) (req : DeleteTweetReq) (s : Store c)
      → (find_one c b.query_ok req.snow_tid s).0 ≡ missing
      → ((delete_tweet c b req s).0 ≡ record { code = 0; msg = "推文不存在" })
        × ((delete_tweet c b req s).1 ≡ [])
  unfolding delete_tweet delete_found refuse
  delete_tweet-missing b req s h = rw h (refl, refl)

  -- After a deletion and an update of the counts FindOne finds nothing.
  find_one-counted :
      (stats : UpdateTweetStatsReq) (req : DeleteTweetReq) (s : Store c) (rows : c.State)
      → stats.snow_tid ≡ req.snow_tid
      → (find_one c true req.snow_tid (counted_store stats (without s req rows))).0 ≡ missing
  unfolding find_one
  find_one-counted stats req s rows same =
      lawful.miss req.snow_tid _ (c.del stats.snow_tid rows)
        (rw same (lawful.deleted req.snow_tid rows))
      ∙ find_normal-update_count req.snow_tid stats.snow_tid stats.update_type stats.delta _
          (find_normal-update_status req.snow_tid s.table)

  -- Where the counts of the tweet are updated between the two calls, with success, the entry is gone:
  -- the second call, if its query succeeds, finds no tweet and does nothing, and the post count goes
  -- down by one.
  pub delete_tweet-update_tweet_stats-delete_tweet :
      (a u b : Answers) (req : DeleteTweetReq) (stats : UpdateTweetStatsReq) (s : Store c)
      (t : Tweet)
      → (find_one c a.query_ok req.snow_tid s).0 ≡ found t
      → t.uid ≡ req.uid
      → t.status ≡ 0
      → a.update_ok ≡ true
      → stats.snow_tid ≡ req.snow_tid
      → (update_tweet_stats c u stats s).0.code ≡ 0
      → b.query_ok ≡ true
      → let (first, first_calls, left) = delete_tweet c a req s in
        let (second, second_calls, after) =
          delete_tweet c b req (update_tweet_stats c u stats left).1 in
        (first.msg ≡ "删除成功")
        × (second ≡ record { code = 0; msg = "推文不存在" })
        × (post_delta req.uid (first_calls ++ second_calls) ≡ negsuc 0)
  unfolding delete_calls
  delete_tweet-update_tweet_stats-delete_tweet a u b req stats s t there owner normal ok same done
        asks =
      let rows = (find_one c a.query_ok req.snow_tid s).1 in
      let left = without s req rows in
      let nothing =
        delete_tweet-missing b req (counted_store stats left)
          (rw asks (find_one-counted stats req s rows same)) in
      rw
        (
          delete_tweet-own a req s t there owner normal ok,
          update_tweet_stats-done u stats s left done,
          nothing.1,
        )
        (refl, nothing.0, delete_calls-posts req)
