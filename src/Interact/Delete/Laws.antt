-- ===== src/Interact/Delete/Laws.antt =====
-- Who may delete a comment or a reply, and what the handler does to the counters.
use gozero_x.Common.{
  ◌⊎◌, inl, inr, Bool-cases, ℕ, ◌≡◌, ◌≢◌, true, false, Bool, ◌&&◌, Option, none, some, List, [],
  ◌∷◌, arith, ◌==◌, if◌then◌else◌,
}
use gozero_x.Cache.Comments.{Comment}
use gozero_x.Cache.Replies.{Reply}
use gozero_x.Interact.Effects.{Effect, update_comment, update_reply}
use gozero_x.Interact.Shared.{set_comment_to_cache, set_reply_to_cache}
use gozero_x.Interact.Delete.{
  Answers, DeleteCommentReq, reply_deleted, comment_deleted, delete_comment, refuse,
}

-- What is to be deleted: its id, its author and its status.
abbrev pub target : Answers → DeleteCommentReq → Option (ℕ × ℕ × ℕ)
target a req =
    if req.is_reply == 0
    then elim a.comment [ none ↦ none | some c ↦ some (c.snow_cid, c.uid, c.status) ]
    else elim a.reply [ none ↦ none | some r ↦ some (r.snow_cid, r.uid, r.status) ]

-- Only what is there, is not deleted yet and is the user's own is deleted.
abbrev pub allowed : ℕ → Option (ℕ × ℕ × ℕ) → Bool
allowed uid none = false
allowed uid (some (snow_cid, owner, status)) = status == 0 && owner == uid

-- The row with the status of a deleted one.
abbrev pub marked : Option (ℕ × ℕ × ℕ) → List (ℕ × ℕ × ℕ)
marked none = []
marked (some (snow_cid, owner, status)) = (snow_cid, owner, 1) ∷ []

-- The rows that are written: id, author and status.
abbrev pub updated : List Effect → List (ℕ × ℕ × ℕ)
updated [] = []
updated (update_comment c ∷ es) = (c.snow_cid, c.uid, c.status) ∷ updated es
updated (update_reply r ∷ es) = (r.snow_cid, r.uid, r.status) ∷ updated es
updated (_ ∷ es) = updated es

comment_deleted-updated :
    (a : Answers) (req : DeleteCommentReq) (c : Comment)
    → updated (comment_deleted a req c) ≡ (c.snow_cid, c.uid, 1) ∷ []
unfolding comment_deleted set_comment_to_cache
comment_deleted-updated a req c = ground arith

reply_deleted-updated :
    (a : Answers) (req : DeleteCommentReq) (r : Reply)
    → updated (reply_deleted a req r) ≡ (r.snow_cid, r.uid, 1) ∷ []
unfolding reply_deleted set_reply_to_cache
reply_deleted-updated a req r = ground arith

-- The handler reports success exactly if the comment or the reply is found, is not deleted yet,
-- belongs to the user and its row can be written. Then it answers with the code 0, and the one row
-- that is written is that row with the status of a deleted one; otherwise it answers with another
-- code, and makes no call that writes at all.
pub delete_comment-allowed :
    (a : Answers) (req : DeleteCommentReq)
    → let (resp, calls) = delete_comment a req in
      (resp.success ≡ (allowed req.uid (target a req) && a.update_ok))
      × (((resp.success ≡ true) × (resp.code ≡ 0) × (updated calls ≡ marked (target a req)))
          ⊎ ((resp.success ≡ false) × (resp.code ≢ 0) × (calls ≡ [])))
unfolding delete_comment refuse
delete_comment-allowed a req = (
  ground arith,
  (elim (Bool-cases (delete_comment a req).0.success) [
    | inl done ↦
        inl (done, ground arith, grind (arith, comment_deleted-updated, reply_deleted-updated))
    | inr refused ↦ inr (refused, ground arith, ground arith)
  ]),
)
