-- ===== src/Interact/Create/Adds.antt =====
-- What a comment that is made adds to the sets of ids.
use gozero_x.Common.{
  ℕ, ◌≡◌, refl, sym, ap, ◌∙◌, true, inl, inr, Bool-cases, some, List, [], ◌∷◌, ◌++◌, arith,
}
use gozero_x.Cache.{key}
use gozero_x.Interact.Effects.{Effect, adds}
use gozero_x.Interact.Shared.{CacheAnswers, set_comment_to_cache, send_recommend_interaction}
use gozero_x.Interact.Create.{
  CreateCommentReq, Answers, count_comment, send_create_comment, send_tweet_comment_notification,
  created, respond, new_comment, create_with, create_comment,
}

adds-append : (xs ys : List Effect) → adds (xs ++ ys) ≡ adds xs ++ adds ys
adds-append [] ys = refl
adds-append (x ∷ xs) ys = ground (arith, adds-append xs ys)

written-adds :
    (a : CacheAnswers) (req : CreateCommentReq) (id now : ℕ)
    → adds (set_comment_to_cache a id (new_comment req id now)).1 ≡ []
unfolding set_comment_to_cache
written-adds a req id now = ground arith

sent-adds :
    (a : Answers) (req : CreateCommentReq) (id : ℕ) → adds (send_create_comment a req id) ≡ []
unfolding send_create_comment
sent-adds a req id = ground arith

notified-adds :
    (a : Answers) (req : CreateCommentReq) (id : ℕ)
    → adds (send_tweet_comment_notification a req id) ≡ []
unfolding send_tweet_comment_notification
notified-adds a req id = ground arith

created-adds :
    (a : Answers) (req : CreateCommentReq) (id : ℕ)
    → adds (created a req id) ≡ (key "tweet" "top_comments" req.snow_tid, id ∷ []) ∷ []
unfolding created count_comment send_recommend_interaction
created-adds a req id = rw (
  adds-append (send_create_comment a req id) _,
  adds-append (send_tweet_comment_notification a req id) _,
  sent-adds a req id,
  notified-adds a req id,
)

with-adds :
    (a : Answers) (req : CreateCommentReq) (snow_cid : ℕ)
    → (create_with a req (some snow_cid)).0.code ≡ 0
    → adds (create_with a req (some snow_cid)).1
      ≡ (key "tweet" "top_comments" req.snow_tid, snow_cid ∷ []) ∷ []
unfolding create_with
with-adds a req snow_cid made =
    let (cached, written) =
      set_comment_to_cache a.cache snow_cid (new_comment req snow_cid a.now) in
    elim (Bool-cases cached) [
      | inl kept ↦ rw kept (
          adds-append written (created a req snow_cid)
          ∙ ap (λ l. l ++ adds (created a req snow_cid)) (written-adds a.cache req snow_cid a.now)
          ∙ created-adds a req snow_cid)
      | inr lost ↦
          let code : (create_with a req (some snow_cid)).0.code ≡ 120103 = rw lost refl in
          absurd (omega arith)
    ]

-- A comment that is made adds its id to the set of the tweet, once.
pub create_comment-adds :
    (a : Answers) (req : CreateCommentReq) (snow_cid : ℕ)
    → a.new_id ≡ some snow_cid
    → (create_comment a req).0.code ≡ 0
    → adds (create_comment a req).1 ≡ (key "tweet" "top_comments" req.snow_tid, snow_cid ∷ []) ∷ []
unfolding create_comment
create_comment-adds a req snow_cid id made =
    ap (λ o. adds (create_with a req o).1) id
    ∙ with-adds a req snow_cid (sym (ap (λ o. (create_with a req o).0.code) id) ∙ made)

-- CreateComment succeeds with an id and a comment that is cached.
pub create_comment_success :
    (a : Answers) (req : CreateCommentReq) (snow_cid : ℕ)
    → a.new_id ≡ some snow_cid
    → a.cache.set_ok ≡ true
    → a.cache.expire_ok ≡ true
    → (create_comment a req).0.code ≡ 0
unfolding create_comment create_with respond set_comment_to_cache
create_comment_success a req snow_cid id set expires =
    ap (λ o. (create_with a req o).0.code) id ∙ rw (set, expires) refl
