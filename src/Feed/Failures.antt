-- ===== src/Feed/Failures.antt =====
-- What fails in the feed: the content service, and limits below 0.
use gozero_x.Common.{
  ◌⊎◌, inl, inr, ap, ◌∙◌, ℕ, ◌^◌, ◌≤◌, ◌<◌, ◌≡◌, ◌≢◌, refl, Bool, true, false, inl, inr, Option,
  none, some, List, [], ◌∷◌, ◌++◌, arith, length, take, drop,
}
use gozero_x.Common.Int.{ℤ, pos, negsuc, ◌+ℤ◌}
use gozero_x.Feed.{
  feed_from, Tweet, panics, Answers, accepted, respond, fill, serve, fetch_count, from_cache,
  fall_back, merge, from_recall, cached_ids, recommend_feed,
}
use gozero_x.Feed.Queue.{consume-called, Queue, IsLawful, after, shown, serve-trims}
use gozero_x.Feed.Laws.{is_cached, window, from_queue}

drop-length : {A : Type 0} (xs : List A) → drop (length xs) xs ≡ []
drop-length [] = refl
drop-length (x ∷ xs) = drop-length xs

leb-cases : (m n : ℕ) → (m ≤ n) ⊎ (n < m)
leb-cases m n = ground arith

feed_from-panics :
    (a : Answers) (uid n : ℕ) (tids : List ℕ)
    → n < 2 ^ 62
    → feed_from a uid (negsuc n) tids ≡ (panics, [])
unfolding feed_from from_cache fetch_count ◌+ℤ◌
feed_from-panics a uid n tids small = ground arith

fill-replies :
    (a : Answers) (limit : ℤ) (called : Bool) (tids : List ℕ) (o : Option (List Tweet))
    → (fill a limit called tids o).0 ≢ panics
unfolding fill respond
fill-replies a limit called tids none = ground arith
fill-replies a limit called tids (some ts) = ground arith

module _ (a : Answers) (batch : accepted a.batch ≡ none) where
  fill-fails :
      (limit : ℤ) (called : Bool) (tids : List ℕ) → shown (fill a limit called tids none).0 ≡ []
  unfolding fill respond
  fill-fails limit called tids = refl

  serve-fails :
      (limit : ℤ) (consumed : ℕ) (called : Bool) (tids : List ℕ)
      → shown (serve a limit consumed called tids).0 ≡ []
  unfolding serve respond
  serve-fails limit consumed called [] = refl
  serve-fails limit consumed called (tid ∷ tids) = rw (batch) (fill-fails limit called (tid ∷ tids))

  merge-fails :
      (limit : ℤ) (tids : List ℕ) (o : Option (List ℕ)) → shown (merge a limit tids o).0 ≡ []
  unfolding merge fall_back respond
  merge-fails limit [] none = refl
  merge-fails limit (tid ∷ tids) none = serve-fails limit (length (tid ∷ tids)) false (tid ∷ tids)
  merge-fails limit tids (some recalled) = serve-fails limit (length tids) true (tids ++ recalled)

  module _ (q : Queue) (lawful : IsLawful q) where
    fill-keeps :
        (limit : ℤ) (tids : List ℕ) (s : q.State) → after q (fill a limit true tids none).1 s ≡ s
    unfolding fill
    fill-keeps limit tids s = refl

    serve-keeps :
        (limit : ℤ) (consumed : ℕ) (tids : List ℕ) (s : q.State)
        → after q (serve a limit consumed true tids).1 s ≡ s
    unfolding serve
    serve-keeps limit consumed [] s = rw (consume-called consumed)
    serve-keeps limit consumed (tid ∷ tids) s =
        rw (consume-called consumed, batch) (fill-keeps limit (tid ∷ tids) s)

    fall_back-empties :
        (limit : ℤ) (tids : List ℕ) (s : q.State)
        → q.lrange s ≡ tids
        → q.lrange (after q (fall_back a limit tids).1 s) ≡ []
    unfolding fall_back
    fall_back-empties limit [] s e = e
    fall_back-empties limit (tid ∷ tids) s e =
        serve-trims q lawful a s limit (length (tid ∷ tids)) (tid ∷ tids)
        ∙ ap (drop (length (tid ∷ tids))) e
        ∙ drop-length (tid ∷ tids)

    merge-empties :
        (limit : ℤ) (o : Option (List ℕ)) (s : q.State)
        → q.lrange (after q (merge a limit (q.lrange s) o).1 s) ≡ []
    unfolding merge
    merge-empties limit none s = fall_back-empties limit (q.lrange s) s refl
    merge-empties limit (some recalled) s =
        rw (serve-keeps limit (length (q.lrange s)) (q.lrange s ++ recalled) (q.del_key s))
          (lawful.del_empties s)

module _ (a : Answers) (uid n : ℕ) (small : n < 2 ^ 62) where
  few :
      (tids : List ℕ)
      → length tids < n
      → feed_from a uid (pos n) tids ≡ from_recall a uid (pos n) tids
  unfolding feed_from
  few tids h = ground arith

  feed_from-fails :
      (tids : List ℕ) → accepted a.batch ≡ none → shown (feed_from a uid (pos n) tids).0 ≡ []
  unfolding from_recall
  feed_from-fails tids batch = elim (leb-cases n (length tids)) [
    | inl enough ↦
        rw (from_queue a uid n tids small enough)
          (serve-fails a batch (pos n) (window n tids) false (take (window n tids) tids))
    | inr less ↦ rw (few tids less) (merge-fails a batch (pos n) tids (accepted a.recall))
  ]

  -- Where the content service fails, nothing is shown, and the ids that were read are gone from the
  -- queue all the same: the window of a queue that is long enough, and the whole of one that is not,
  -- whether the recall answers or fails. The limit is below 2^62.
  pub recommend_feed-batch_fails :
      (q : Queue)
      → IsLawful q
      → (s : q.State) → a.cached ≡ some (q.lrange s)
      → accepted a.batch ≡ none
      → let (outcome, calls) = recommend_feed a (record { uid = uid; limit = pos n }) in
        (shown outcome ≡ [])
        × (((n ≤ length (q.lrange s))
              × (q.lrange (after q calls s) ≡ drop (window n (q.lrange s)) (q.lrange s)))
            ⊎ ((length (q.lrange s) < n) × (q.lrange (after q calls s) ≡ [])))
  unfolding recommend_feed from_recall
  recommend_feed-batch_fails q lawful s read batch = rw (is_cached q a s read) (
    feed_from-fails (q.lrange s) batch,
    elim (leb-cases n (length (q.lrange s))) [
      | inl enough ↦ inl (
        enough,
        rw (from_queue a uid n (q.lrange s) small enough) (
            serve-trims q lawful a s (pos n) (window n (q.lrange s))
              (take (window n (q.lrange s)) (q.lrange s))),
      )
      | inr less ↦ inr (
        less,
        rw (few (q.lrange s) less) (merge-empties a batch q lawful (pos n) (accepted a.recall) s),
      )
    ],
  )

  serve-replies :
      (limit : ℤ) (consumed : ℕ) (called : Bool) (tids : List ℕ)
      → (serve a limit consumed called tids).0 ≢ panics
  unfolding serve respond
  serve-replies limit consumed called [] = ground arith
  serve-replies limit consumed called (tid ∷ tids) =
      fill-replies a limit called (tid ∷ tids) (accepted a.batch)

  merge-replies :
      (limit : ℤ) (tids : List ℕ) (o : Option (List ℕ)) → (merge a limit tids o).0 ≢ panics
  unfolding merge fall_back respond
  merge-replies limit [] none = ground arith
  merge-replies limit (tid ∷ tids) none =
      serve-replies limit (length (tid ∷ tids)) false (tid ∷ tids)
  merge-replies limit tids (some recalled) =
      serve-replies limit (length tids) true (tids ++ recalled)

  feed_from-replies : (tids : List ℕ) → (feed_from a uid (pos n) tids).0 ≢ panics
  unfolding from_recall
  feed_from-replies tids = elim (leb-cases n (length tids)) [
    | inl enough ↦
        rw (from_queue a uid n tids small enough)
          (serve-replies (pos n) (window n tids) false (take (window n tids) tids))
    | inr less ↦ rw (few tids less) (merge-replies (pos n) tids (accepted a.recall))
  ]

-- A limit below 0 makes the handler panic before it calls anything but the LRANGE that reads the queue,
-- and another limit never does; the limit is at least -2^62 and less than 2^62.
pub recommend_feed-panics :
    (a : Answers) (uid n : ℕ)
    → n < 2 ^ 62
    → (recommend_feed a (record { uid = uid; limit = negsuc n }) ≡ (panics, []))
      × ((recommend_feed a (record { uid = uid; limit = pos n })).0 ≢ panics)
unfolding recommend_feed
recommend_feed-panics a uid n small =
    (feed_from-panics a uid n (cached_ids a) small, feed_from-replies a uid n small (cached_ids a))
