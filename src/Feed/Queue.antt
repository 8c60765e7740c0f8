-- ===== src/Feed/Queue.antt =====
-- The queue of the feed in Redis, and what the later steps of the handler do to it.
use gozero_x.Common.{
  ap, ◌∙◌, ℕ, zero, suc, ◌+◌, ◌^◌, ◌≤◌, ◌<◌, min, ◌≡◌, refl, sym, Bool, true, false, Option, none,
  some, List, [], ◌∷◌, ◌++◌, map, arith, length, take, drop, ++_nil, ++_assoc,
}
use gozero_x.Common.Int.{ℤ, pos, ◌+ℤ◌}
use gozero_x.Feed.{
  Tweet, TweetInfo, Outcome, reply, panics, Call, del, ltrim, rpush, expire, call_recall,
  batch_get_tweets, Answers, accepted, build_tweet_info_list, extra_valid_ids, push_ids,
  cache_extra_ids, respond, consume, fill, serve, fetch_count,
}
use gozero_x.Feed.Build.{length-extra_le, present, info_id, build_from-present, extra-present}

-- The list commands of Redis on the queue of one user.
pub record Queue : Type 1 where
  pub State : Type 0
  pub lrange : State → List ℕ
  pub del_key : State → State
  pub ltrim_from : ℕ → State → State
  pub rpush_to : ℕ → State → State

pub record IsLawful (q : Queue) : Type 0 where
  pub del_empties : (s : q.State) → q.lrange (q.del_key s) ≡ []
  pub ltrim_drops : (n : ℕ) (s : q.State) → q.lrange (q.ltrim_from n s) ≡ drop n (q.lrange s)
  pub rpush_appends :
      (tid : ℕ) (s : q.State) → q.lrange (q.rpush_to tid s) ≡ q.lrange s ++ (tid ∷ [])

-- The queue after the calls of a request, before its expiry.
abbrev pub after : (q : Queue) → List Call → q.State → q.State
after q [] s = s
after q (del ∷ cs) s = after q cs (q.del_key s)
after q (ltrim n ∷ cs) s = after q cs (q.ltrim_from n s)
after q (rpush tid ∷ cs) s = after q cs (q.rpush_to tid s)
after q (expire n ∷ cs) s = after q cs s
after q (call_recall uid n ∷ cs) s = after q cs s
after q (batch_get_tweets tids ∷ cs) s = after q cs s

abbrev pub shown : Outcome → List TweetInfo
shown (reply r) = r.tweets
shown panics = []

module _ (q : Queue) (lawful : IsLawful q) where
  push_ids-after :
      (pushes : ℕ) (tids : List ℕ) (s : q.State)
      → length tids ≤ pushes
      → q.lrange (after q (push_ids pushes tids) s) ≡ q.lrange s ++ tids
  unfolding push_ids
  push_ids-after pushes [] s h = sym (++_nil (q.lrange s))
  push_ids-after zero (tid ∷ tids) s h = elim h [ ]
  push_ids-after (suc pushes) (tid ∷ tids) s h = rw (
    push_ids-after pushes tids (q.rpush_to tid s) (omega arith),
    lawful.rpush_appends tid s,
    ++_assoc (q.lrange s) (tid ∷ []) tids,
  )

  extra-after :
      (pushes : ℕ) (tids : List ℕ) (s : q.State)
      → length tids ≤ pushes
      → q.lrange (after q (cache_extra_ids pushes tids) s) ≡ q.lrange s ++ tids
  unfolding cache_extra_ids
  extra-after pushes [] s h = sym (++_nil (q.lrange s))
  extra-after pushes (tid ∷ tids) s h = push_ids-after pushes (tid ∷ tids) s h

pub fetch_count-min : (n len : ℕ) → n < 2 ^ 62 → fetch_count (pos n) len ≡ pos (min (n + n) len)
unfolding fetch_count ◌+ℤ◌
fetch_count-min n len h = ground arith

take_nil : {A : Type 0} (n : ℕ) → take {A = A} n [] ≡ []
take_nil zero = refl
take_nil (suc n) = refl

drop_nil : {A : Type 0} (n : ℕ) → drop {A = A} n [] ≡ []
drop_nil zero = refl
drop_nil (suc n) = refl

module _ (a : Answers) (n : ℕ) (ts : List Tweet) (batch : accepted a.batch ≡ some ts) where
  fill-shown :
      (called : Bool) (tids : List ℕ)
      → shown (fill a (pos n) called tids (some ts)).0 ≡ take n (present ts tids)
  unfolding fill respond build_tweet_info_list
  fill-shown called tids = build_from-present 0 n n ts tids (omega arith)

  pub serve-shown :
      (consumed : ℕ) (called : Bool) (tids : List ℕ)
      → shown (serve a (pos n) consumed called tids).0 ≡ take n (present ts tids)
  unfolding serve respond
  serve-shown consumed called [] = sym (take_nil n)
  serve-shown consumed called (tid ∷ tids) = rw (batch) (fill-shown called (tid ∷ tids))

pub consume-called : (consumed : ℕ) → consume consumed true ≡ []
unfolding consume
consume-called consumed = ground arith

consume-suc : (consumed : ℕ) → consume (suc consumed) false ≡ ltrim (suc consumed) ∷ []
unfolding consume
consume-suc consumed = ground arith

module _ (q : Queue) (lawful : IsLawful q) (a : Answers) (s : q.State) where
  fill-after :
      (limit : ℤ) (tids : List ℕ) (o : Option (List Tweet)) (t : q.State)
      → after q (fill a limit false tids o).1 t ≡ t
  unfolding fill
  fill-after limit tids none t = refl
  fill-after limit tids (some ts) t = refl

  -- Without a recall only the trim touches the queue, whatever the content service answers.
  pub serve-trims :
      (limit : ℤ) (consumed : ℕ) (tids : List ℕ)
      → q.lrange (after q (serve a limit consumed false tids).1 s) ≡ drop consumed (q.lrange s)
  unfolding serve
  serve-trims limit zero [] = refl
  serve-trims limit (suc consumed) [] =
      rw (consume-suc consumed) (lawful.ltrim_drops (suc consumed) s)
  serve-trims limit zero (tid ∷ tids) = rw (fill-after limit (tid ∷ tids) (accepted a.batch) s)
  serve-trims limit (suc consumed) (tid ∷ tids) =
      rw
        (
          consume-suc consumed,
          fill-after limit (tid ∷ tids) (accepted a.batch) (q.ltrim_from (suc consumed) s),
        )
        (lawful.ltrim_drops (suc consumed) s)

  fill-pushes :
      (n : ℕ) (tids : List ℕ) (ts : List Tweet)
      → length tids ≤ a.pushes
      → q.lrange (after q (fill a (pos n) true tids (some ts)).1 s)
        ≡ q.lrange s ++ drop n (map info_id (present ts tids))
  unfolding fill
  fill-pushes n tids ts pushes =
      extra-after q lawful a.pushes (extra_valid_ids 0 (pos n) ts tids) s
        (omega (arith, length-extra_le 0 (pos n) ts tids))
      ∙ ap (λ x. q.lrange s ++ x) (extra-present 0 n n ts tids (omega arith))

  -- With a recall that is answered, the ids of tweets that are not shown are pushed.
  pub serve-pushes :
      (n consumed : ℕ) (tids : List ℕ) (ts : List Tweet)
      → accepted a.batch ≡ some ts
      → length tids ≤ a.pushes
      → q.lrange (after q (serve a (pos n) consumed true tids).1 s)
        ≡ q.lrange s ++ drop n (map info_id (present ts tids))
  unfolding serve
  serve-pushes n consumed [] ts batch pushes =
      rw (consume-called consumed, drop_nil n) (sym (++_nil (q.lrange s)))
  serve-pushes n consumed (tid ∷ tids) ts batch pushes =
      rw (consume-called consumed, batch) (fill-pushes n (tid ∷ tids) ts pushes)
