-- ===== src/Feed/Laws.antt =====
-- What the feed shows and what it leaves in the queue, for a Redis that keeps to its documentation.
use gozero_x.Common.{
  ℕ, zero, suc, ◌+◌, ◌^◌, ◌≤◌, ◌<◌, min, ◌≡◌, refl, true, false, some, List, [], ◌∷◌, ◌++◌, map,
  arith, length, take, drop, length-take,
}
use gozero_x.Common.Int.{ℤ, pos, ◌+ℤ◌, wrap64}
use gozero_x.Feed.{
  feed_from, Tweet, TweetInfo, Call, del, call_recall, Answers, accepted, serve, from_cache, merge,
  from_recall, cached_ids, recommend_feed,
}
use gozero_x.Feed.Queue.{
  Queue, IsLawful, after, shown, serve-shown, serve-trims, serve-pushes, fetch_count-min,
}
use gozero_x.Feed.Build.{present, info_id}

-- How many candidates are taken from a queue that is long enough.
abbrev pub window : ℕ → List ℕ → ℕ
window n tids = min (n + n) (length tids)

map-take-drop :
    (n : ℕ) (infos : List TweetInfo)
    → map info_id (take n infos) ++ drop n (map info_id infos) ≡ map info_id infos
map-take-drop zero infos = refl
map-take-drop (suc n) [] = refl
map-take-drop (suc n) (x ∷ xs) = rw (map-take-drop n xs)

pub from_queue :
    (a : Answers) (uid n : ℕ) (tids : List ℕ)
    → n < 2 ^ 62
    → n ≤ length tids
    → feed_from a uid (pos n) tids
      ≡ serve a (pos n) (window n tids) false (take (window n tids) tids)
unfolding feed_from from_cache
from_queue a uid n tids small enough = rw (fetch_count-min n (length tids) small) (ground arith)

-- The calls before those of the later steps.
abbrev asked : ℕ → ℕ → List Call → List Call
asked uid n calls =
    call_recall uid (wrap64 (pos n +ℤ pos n +ℤ (pos n +ℤ pos n) +ℤ pos n)) ∷ del ∷ calls

merge-some :
    (a : Answers) (limit : ℤ) (tids recalled : List ℕ)
    → merge a limit tids (some recalled) ≡ (
      (serve a limit (length tids) true (tids ++ recalled)).0,
      del ∷ (serve a limit (length tids) true (tids ++ recalled)).1,
    )
unfolding merge
merge-some a limit tids recalled = refl

from_merged :
    (a : Answers) (uid n : ℕ) (tids recalled : List ℕ)
    → length tids < n
    → accepted a.recall ≡ some recalled
    → let (outcome, calls) = serve a (pos n) (length tids) true (tids ++ recalled) in
      feed_from a uid (pos n) tids ≡ (outcome, asked uid n calls)
unfolding feed_from from_recall
from_merged a uid n tids recalled few recall =
    rw (recall, merge-some a (pos n) tids recalled) (ground arith)

pub is_cached :
    (q : Queue) (a : Answers) (s : q.State)
    → a.cached ≡ some (q.lrange s)
    → cached_ids a ≡ q.lrange s
unfolding cached_ids
is_cached q a s read = rw (read)

module _ (q : Queue) (lawful : IsLawful q) (a : Answers) (uid n : ℕ) (s : q.State)
    (read : a.cached ≡ some (q.lrange s)) where
  -- With enough ids in the queue, the tweets shown are the first `n` that are there among the first
  -- 2 * n ids of the queue, and all of those ids leave the queue, also the ones of tweets that are
  -- there and are not shown. The content service answers, and the limit is below 2^62.
  pub recommend_feed-cached :
      (ts : List Tweet)
      → n < 2 ^ 62
      → n ≤ length (q.lrange s)
      → accepted a.batch ≡ some ts
      → let (outcome, calls) = recommend_feed a (record { uid = uid; limit = pos n }) in
        (shown outcome ≡ take n (present ts (take (window n (q.lrange s)) (q.lrange s))))
        × (q.lrange (after q calls s) ≡ drop (window n (q.lrange s)) (q.lrange s))
  unfolding recommend_feed
  recommend_feed-cached ts small enough batch =
      rw (is_cached q a s read, from_queue a uid n (q.lrange s) small enough)
        (
          serve-shown a n ts batch (window n (q.lrange s)) false
              (take (window n (q.lrange s)) (q.lrange s)),
          serve-trims q lawful a s (pos n) (window n (q.lrange s))
              (take (window n (q.lrange s)) (q.lrange s)),
        )

  -- With too few ids in the queue, a recall that is answered, the content service too, and no RPUSH
  -- that fails: the ids shown and then the new queue are together the ids of the queue and of the
  -- recall whose tweets are there, in order and each as often as before; and at most `n` are shown.
  pub recommend_feed-recalled :
      (ts : List Tweet) (recalled : List ℕ)
      → length (q.lrange s) < n
      → accepted a.recall ≡ some recalled
      → accepted a.batch ≡ some ts
      → length (q.lrange s ++ recalled) ≤ a.pushes
      → let (outcome, calls) = recommend_feed a (record { uid = uid; limit = pos n }) in
        (map info_id (shown outcome) ++ q.lrange (after q calls s)
          ≡ map info_id (present ts (q.lrange s ++ recalled)))
        × (length (shown outcome) ≤ n)
  unfolding recommend_feed
  recommend_feed-recalled ts recalled few recall batch pushes =
      rw (is_cached q a s read, from_merged a uid n (q.lrange s) recalled few recall)
        (
          rw
              (
                serve-shown a n ts batch (length (q.lrange s)) true (q.lrange s ++ recalled),
                serve-pushes q lawful a (q.del_key s) n (length (q.lrange s))
                    (q.lrange s ++ recalled) ts batch pushes,
                lawful.del_empties s,
              )
              (map-take-drop n (present ts (q.lrange s ++ recalled))),
          rw (serve-shown a n ts batch (length (q.lrange s)) true (q.lrange s ++ recalled))
              (omega (arith, length-take n (present ts (q.lrange s ++ recalled)))),
        )
