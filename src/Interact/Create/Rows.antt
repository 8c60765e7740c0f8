-- ===== src/Interact/Create/Rows.antt =====
-- The row that the consumer writes for a comment that is made.
use gozero_x.Common.{
  ℕ, ◌≡◌, refl, sym, ap, ◌∙◌, true, inl, inr, Bool-cases, some, [], ◌∷◌, ◌++◌, arith,
}
use gozero_x.Json.{field, deliver, to_string}
use gozero_x.Interact.Effects.{pushed, comment_rows}
use gozero_x.Interact.Effects.Sums.{pushed-append}
use gozero_x.Interact.Shared.{set_comment_to_cache}
use gozero_x.Interact.CommentConsumer.{comment_row, consume_comment, consume_all}
use gozero_x.Interact.Create.{
  CreateCommentReq, Answers, create_message, created, new_comment, create_with, create_comment,
}
use gozero_x.Interact.Create.Counts.{written-IsQuiet, created-pushed}

with-pushed :
    (a : Answers) (req : CreateCommentReq) (snow_cid : ℕ)
    → a.push_ok ≡ true
    → (create_with a req (some snow_cid)).0.code ≡ 0
    → pushed "comment_create" (create_with a req (some snow_cid)).1
      ≡ create_message req snow_cid a.now ∷ []
unfolding create_with
with-pushed a req snow_cid push_ok made =
    let (cached, written) =
      set_comment_to_cache a.cache snow_cid (new_comment req snow_cid a.now) in
    elim (Bool-cases cached) [
      | inl kept ↦ rw kept (
          pushed-append "comment_create" written (created a req snow_cid)
          ∙ ap (λ l. l ++ pushed "comment_create" (created a req snow_cid))
              (written-IsQuiet a.cache req snow_cid a.now).1
          ∙ created-pushed a req snow_cid push_ok)
      | inr lost ↦
          let code : (create_with a req (some snow_cid)).0.code ≡ 120103 = rw lost refl in
          absurd (omega arith)
    ]

-- The message of a comment that is made, and that Kafka takes, makes the consumer insert one row.
pub create_comment_rows :
    (a : Answers) (req : CreateCommentReq) (snow_cid : ℕ)
    → a.new_id ≡ some snow_cid
    → a.push_ok ≡ true
    → (create_comment a req).0.code ≡ 0
    → comment_rows (consume_all (pushed "comment_create" (create_comment a req).1))
      ≡ comment_row (create_message req snow_cid a.now) ∷ []
unfolding create_comment consume_all consume_comment field to_string deliver
create_comment_rows a req snow_cid id push_ok made =
    ap (λ ms. comment_rows (consume_all ms))
      (ap (λ o. pushed "comment_create" (create_with a req o).1) id
        ∙ with-pushed a req snow_cid push_ok
            (sym (ap (λ o. (create_with a req o).0.code) id) ∙ made))
    ∙ ground arith
