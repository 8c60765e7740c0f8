-- ===== src/Tests/Tweets.antt =====
-- DeleteTweet at a concrete tweet, over a cache of rows that is a list of entries.
use gozero_x.Common.{
  ℕ, ◌≡◌, refl, ap, ◌∙◌, true, Option, none, some, List, [], ◌∷◌, arith, ◌==◌, if◌then◌else◌,
}
use gozero_x.Common.Int.{pos}
use gozero_x.Cache.Tweets.{Tweet}
use gozero_x.Content.{
  Lookup, failed, missing, found, cached, CachedConn, IsLawful, find_normal, DeleteTweetReq,
  Answers, Store, find_one,
}

abbrev pub Entries : Type 0
Entries = List (ℕ × Option Tweet)

abbrev pub entry : ℕ → Entries → Option (Option Tweet)
entry k [] = none
entry k ((j, e) ∷ s) = if j == k then some e else entry k s

abbrev pub drop_entry : ℕ → Entries → Entries
drop_entry k [] = []
drop_entry k ((j, e) ∷ s) = if j == k then drop_entry k s else (j, e) ∷ drop_entry k s

abbrev pub ask : ℕ → Lookup → Entries → Lookup × Entries
ask k failed s = (failed, s)
ask k missing s = (missing, (k, none) ∷ s)
ask k (found t) s = (found t, (k, some t) ∷ s)

abbrev pub answer : Option (Option Tweet) → ℕ → Lookup → Entries → Lookup × Entries
answer none k q s = ask k q s
answer (some e) k q s = (cached e, s)

abbrev pub list_cache : CachedConn
list_cache = record {
  State = Entries;
  peek = entry;
  query_row = λ k q s. answer (entry k s) k q s;
  del = drop_entry;
}

drop_entry-gone : (k : ℕ) (s : Entries) → entry k (drop_entry k s) ≡ none
drop_entry-gone k [] = refl
drop_entry-gone k ((j, e) ∷ s) = ground (arith, drop_entry-gone k s)

ask_lem : (k : ℕ) (q : Lookup) (s : Entries) → (ask k q s).0 ≡ q
ask_lem k failed s = refl
ask_lem k missing s = refl
ask_lem k (found t) s = refl

entry-head : (k : ℕ) (e : Option Tweet) (s : Entries) → entry k ((k, e) ∷ s) ≡ some e
entry-head k e s = ground arith

pub list_cache-IsLawful : IsLawful list_cache
list_cache-IsLawful = record {
  hit = λ k q s e h. ap (λ o. answer o k q s) h;
  miss = λ k q s h. ap (λ o. (answer o k q s).0) h ∙ ask_lem k q s;
  stored = λ k t s h. ap (λ o. entry k (answer o k (found t) s).1) h ∙ entry-head k (some t) s;
  deleted = drop_entry-gone;
}

abbrev pub a_tweet : Tweet
a_tweet = record {
  snow_tid = 5;
  tid = 1;
  uid = 3;
  content = "hello";
  media_urls = [];
  tags = [];
  is_public = true;
  like_count = pos 2;
  comment_count = pos 1;
  created_at = 1700000000;
  status = 0;
}

abbrev pub before : Store list_cache
before = record { table = record a_tweet { snow_tid = 4 } ∷ a_tweet ∷ []; rows = (4, none) ∷ [] }

abbrev pub all_well : Answers
all_well = record { query_ok = true; update_ok = true }

abbrev pub a_request : DeleteTweetReq
a_request = record { snow_tid = 5; uid = 3 }

pub finds_tweet : (find_one list_cache true 5 before).0 ≡ found a_tweet
unfolding find_one find_normal
finds_tweet = refl
