-- ===== src/Paging/Laws.antt =====
-- What the pages of comments and replies show.
use gozero_x.Common.{
  ℕ, suc, ◌≡◌, ◌≢◌, ◌≤◌, refl, sym, ap, ◌∙◌, Bool, Option, none, some, List, map, arith, length,
  drop, select, All, length-take, length-map,
}
use gozero_x.Common.Int.{ℤ, pos, negsuc}
use gozero_x.Cache.Comments.{Comment}
use gozero_x.Interact.Create.{CommentInfo}
use gozero_x.Paging.{
  clamp_limit, cursor_page, slice_from, start_idx, older, comment_shown, Answers, UserBrief,
  GetCommentsReq, comment_info, sort_comments, get_comments,
}
use gozero_x.Paging.Query.{desc, order_by}
use gozero_x.Paging.Query.Ordered.{
  Different, length-order_by, order_by-Ordered, order_by-All, Ordered-Chain,
}
use gozero_x.Paging.Slice.{IsSlice, sort_comments_newest, length-sort_comments}
use gozero_x.Paging.Reading.{read, read_complete}

pub clamp_limit-bounds : (limit : ℤ) → (clamp_limit limit ≢ 0) × (clamp_limit limit ≤ 50)
clamp_limit-bounds (negsuc n) = (ground arith, ground arith)
clamp_limit-bounds (pos n) = (ground arith, ground arith)

slice_from-length :
    {A : Type 0} (starts : A → Bool) (limit : ℕ) (xs : List A) (o : Option ℕ)
    → length (slice_from starts limit xs o) ≤ limit
unfolding slice_from
slice_from-length starts limit xs none = omega arith
slice_from-length starts limit xs (some i) = omega (arith, length-take limit (drop i xs))

page-length :
    {A : Type 0} (starts : ℤ → A → Bool) (limit : ℕ) (cursor : ℤ) (xs : List A)
    → length (cursor_page starts limit cursor xs) ≤ limit
unfolding cursor_page
page-length starts limit cursor xs = ground (
  arith,
  length-take limit xs,
  slice_from-length (starts cursor) limit xs (start_idx (starts cursor) xs),
)

-- A page of comments has at most as many entries as the request asks for, or 20 where it asks for
-- less than one or for more than 50; and the total counts all comments that are not deleted.
pub get_comments-bounded :
    (slice : (Comment → Comment → Bool) → List Comment → List Comment) (rows : List Comment)
    (us : List UserBrief) (req : GetCommentsReq)
    → IsSlice slice
    → let resp = get_comments slice (record { rows = some rows; users = us }) req in
      (length resp.comments ≤ clamp_limit req.limit)
      × (clamp_limit req.limit ≤ 50)
      × (resp.total ≡ length (select comment_shown rows))
unfolding get_comments
get_comments-bounded slice rows us req lawful =
    let valid = sort_comments slice req.sort (select comment_shown rows) in
    (
      omega (
        arith,
        length-map (comment_info us) (cursor_page older (clamp_limit req.limit) req.cursor valid),
        page-length older (clamp_limit req.limit) req.cursor valid,
      ),
      (clamp_limit-bounds req.limit).1,
      length-sort_comments slice lawful req.sort (select comment_shown rows),
    )

abbrev comment_time : Comment → ℕ
comment_time c = c.created_at

-- The comments that are not deleted, the newest first.
abbrev pub newest_first : List Comment → List Comment
newest_first rows = order_by desc comment_time (select comment_shown rows)

-- Reading the comments page by page, each from the time of the last one on, until a page is empty.
abbrev pub read_comments :
    ((Comment → Comment → Bool) → List Comment → List Comment)
    → Answers Comment
    → GetCommentsReq
    → ℕ
    → ℤ
    → List CommentInfo
read_comments slice a req =
    read (λ c. c.create_time)
      (λ cursor. (get_comments slice a (record req { cursor = cursor })).comments)

comment_info-time :
    (us : List UserBrief) (c : Comment) → (comment_info us c).create_time ≡ c.created_at
unfolding comment_info
comment_info-time us c = refl

module _ (slice : (Comment → Comment → Bool) → List Comment → List Comment) (lawful : IsSlice slice)
    (rows : List Comment) (us : List UserBrief) (req : GetCommentsReq) where
  get_comments-page :
      Different comment_time (select comment_shown rows)
      → (n : ℕ)
      → (get_comments slice
          (record { rows = some rows; users = us })
          (record req { cursor = pos n })).comments
        ≡ map
            (comment_info us)
            (cursor_page older (clamp_limit req.limit) (pos n) (newest_first rows))
  unfolding get_comments
  get_comments-page different n =
      ap (λ cs. map (comment_info us) (cursor_page older (clamp_limit req.limit) (pos n) cs))
        (sort_comments_newest slice lawful req.sort (select comment_shown rows) different)

  -- With a `sort.Slice` that permutes and sorts, and where no two comments that are not deleted have
  -- the same time, and none has the time 0, reading the pages in a row by the times of their last
  -- comments shows every comment that is not deleted, once, the newest first, whatever sort the
  -- request asks for; one page more than there are comments is enough.
  pub read_comments_complete :
      Different (λ c. c.created_at) (select comment_shown rows)
      → All (λ c. c.created_at ≢ 0) (select comment_shown rows)
      → read_comments slice
          (record { rows = some rows; users = us })
          req
          (suc (length (select comment_shown rows)))
          (pos 0)
        ≡ map (comment_info us) (newest_first rows)
  read_comments_complete different times =
      let valid = select comment_shown rows in
      let sorted = newest_first rows in
      ap (λ n. read_comments slice (record { rows = some rows; users = us }) req (suc n) (pos 0))
        (sym (length-order_by desc comment_time valid))
      ∙ read_complete older comment_time (λ c. c.create_time) (comment_info us) _ sorted
          (comment_info-time us) (clamp_limit req.limit) (clamp_limit-bounds req.limit).0
          (get_comments-page different)
          (Ordered-Chain desc comment_time (clamp_limit req.limit) sorted
            (order_by-Ordered desc comment_time valid different))
          (order_by-All desc comment_time (λ c. c.created_at ≢ 0) valid times)
