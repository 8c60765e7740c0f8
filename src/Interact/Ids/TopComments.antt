-- ===== src/Interact/Ids/TopComments.antt =====
-- The set of the comments of a tweet after a comment has been made.
use gozero_x.Common.{
  map, ℕ, ◌≡◌, refl, sym, ap, ◌∙◌, true, Bool, ◌&&◌, ◌||◌, Option, some, List, [], ◌∷◌, ◌++◌,
  select, arith, ◌==◌,
}
use gozero_x.Cache.Comments.{Comment}
use gozero_x.Content.Batch.{any, has}
use gozero_x.Json.{Survives, field, to_int64, deliver}
use gozero_x.Json.Exact.{float64-exact}
use gozero_x.Interact.CommentConsumer.{comment_row, consume_all}
use gozero_x.Interact.Create.Rows.{create_comment_rows}
use gozero_x.Interact.Effects.{adds, pushed, comment_rows}
use gozero_x.Interact.Create.{CreateCommentReq, Answers, create_message, create_comment}
use gozero_x.Interact.Create.Adds.{create_comment-adds}
use gozero_x.Interact.Ids.{
  Sets, IsLawful, top_key, top_comment, find_top_snow_cids, add, ids_with, get_top_comments,
  add_all,
}
use gozero_x.Paging.Query.{desc, order_by}
use gozero_x.Paging.Query.Any.{any-map, any-order_by, any-select}

-- The comments of a tweet that are to be listed: the normal ones.
abbrev pub listed : ℕ → List Comment → ℕ → Bool
listed snow_tid rows n = any (λ c. top_comment snow_tid c && c.snow_cid == n) rows

has-find :
    (snow_tid n : ℕ) (rows : List Comment)
    → has n (find_top_snow_cids snow_tid rows) ≡ listed snow_tid rows n
unfolding find_top_snow_cids
has-find snow_tid n rows =
    any-map (λ m. m == n) (λ c. c.snow_cid)
      (order_by desc (λ c. c.created_at) (select (top_comment snow_tid) rows))
    ∙ any-order_by desc (λ c. c.created_at) (λ c. c.snow_cid == n)
        (select (top_comment snow_tid) rows)
    ∙ any-select (λ c. c.snow_cid == n) (top_comment snow_tid) rows

-- One more comment of the tweet that is to be listed.
listed-append :
    (snow_tid n : ℕ) (rows : List Comment) (c : Comment)
    → top_comment snow_tid c ≡ true
    → listed snow_tid (rows ++ (c ∷ [])) n ≡ (c.snow_cid == n || listed snow_tid rows n)
listed-append snow_tid n [] c h = ground (arith, h)
listed-append snow_tid n (r ∷ rs) c h = ground (arith, listed-append snow_tid n rs c h)

-- A row as the comment table has it: the database gives its serial number and its times.
abbrev pub stored : ℕ → ℕ → Comment → Comment
stored cid db_now c = record c { cid = cid; created_at = db_now; updated_at = db_now }

-- The comment table after CreateComment and the consumer of its message.
abbrev pub table_after : Answers → CreateCommentReq → ℕ → ℕ → List Comment → List Comment
table_after a req cid db_now rows =
    rows
    ++ map (stored cid db_now)
        (comment_rows (consume_all (pushed "comment_create" (create_comment a req).1)))

-- The row of the message, of ids that survive.
row-listed :
    (req : CreateCommentReq) (snow_cid now cid db_now : ℕ)
    → Survives snow_cid
    → Survives req.snow_tid
    → let c = stored cid db_now (comment_row (create_message req snow_cid now)) in
      (top_comment req.snow_tid c ≡ true) × (c.snow_cid ≡ snow_cid)
unfolding comment_row field to_int64 deliver
row-listed req snow_cid now cid db_now id tid =
    (rw (tid, float64-exact 0 (omega arith)) (ground arith), id)

listed-after :
    (a : Answers) (req : CreateCommentReq) (snow_cid cid db_now n : ℕ) (rows : List Comment)
    → a.new_id ≡ some snow_cid
    → a.push_ok ≡ true
    → (create_comment a req).0.code ≡ 0
    → Survives snow_cid
    → Survives req.snow_tid
    → listed req.snow_tid (table_after a req cid db_now rows) n
      ≡ (snow_cid == n || listed req.snow_tid rows n)
listed-after a req snow_cid cid db_now n rows id push_ok made survives tweet =
    let c = stored cid db_now (comment_row (create_message req snow_cid a.now)) in
    let (top, same) = row-listed req snow_cid a.now cid db_now survives tweet in
    ap (λ l. listed req.snow_tid (rows ++ map (stored cid db_now) l) n)
      (create_comment_rows a req snow_cid id push_ok made)
    ∙ listed-append req.snow_tid n rows c top
    ∙ ap (λ m. m == n || listed req.snow_tid rows n) same

-- The sets after CreateComment.
abbrev pub after : (r : Sets) → Answers → CreateCommentReq → r.State → r.State
after r a req s = add_all r (adds (create_comment a req).1) s

module _ (r : Sets) (lawful : IsLawful r) where
  -- A set that is there answers, whatever the table holds.
  get_top-hit :
      (snow_tid n : ℕ) (rows : Option (List Comment)) (s : r.State) (ids : List ℕ)
      → r.smembers (top_key snow_tid) s ≡ some ids
      → has n ids ≡ true
      → (get_top_comments r snow_tid rows s).0 ≡ some ids
  unfolding get_top_comments ids_with
  get_top-hit snow_tid n rows s [] there in_ids = ground (arith, in_ids)
  get_top-hit snow_tid n rows s (i ∷ ids) there in_ids = rw there refl

  after-add :
      (a : Answers) (req : CreateCommentReq) (snow_cid : ℕ) (s t : r.State)
      → a.new_id ≡ some snow_cid
      → (create_comment a req).0.code ≡ 0
      → r.sadd (top_key req.snow_tid) (snow_cid ∷ []) s ≡ some t
      → after r a req s ≡ t
  unfolding add_all add
  after-add a req snow_cid s t id made added =
      ap (λ l. add_all r l s) (create_comment-adds a req snow_cid id made) ∙ rw added refl

  -- The members after the id has been added.
  members-after :
      (snow_tid snow_cid n : ℕ) (old new : List ℕ) (s t : r.State)
      → r.sadd (top_key snow_tid) (snow_cid ∷ []) s ≡ some t
      → r.smembers (top_key snow_tid) s ≡ some old
      → r.smembers (top_key snow_tid) t ≡ some new
      → has n new ≡ (snow_cid == n || has n old)
  members-after snow_tid snow_cid n old new s t added before now =
      lawful.sadd_members (top_key snow_tid) (top_key snow_tid) (snow_cid ∷ []) old new s t n added
        before now
      ∙ ground arith

  -- Where the set of the comments of a tweet is gone, as after its half hour, and CreateComment makes
  -- a comment and adds it, GetTopCommentsBySnowTid lists this comment and no other one, whatever
  -- comments the table has: the others are not shown any more.
  pub get_top_comments_alone :
      (a : Answers) (req : CreateCommentReq) (snow_cid : ℕ) (rows : Option (List Comment))
      (s t : r.State) (ids : List ℕ)
      → a.new_id ≡ some snow_cid
      → (create_comment a req).0.code ≡ 0
      → r.smembers (top_key req.snow_tid) s ≡ some []
      → r.sadd (top_key req.snow_tid) (snow_cid ∷ []) s ≡ some t
      → r.smembers (top_key req.snow_tid) t ≡ some ids
      → ((get_top_comments r req.snow_tid rows (after r a req s)).0 ≡ some ids)
        × ((n : ℕ) → has n ids ≡ (snow_cid == n))
  get_top_comments_alone a req snow_cid rows s t ids id made gone added now =
      let alone : (n : ℕ) → has n ids ≡ (snow_cid == n) =
        λ n. members-after req.snow_tid snow_cid n [] ids s t added gone now ∙ ground arith in
      (
        ap (λ x. (get_top_comments r req.snow_tid rows x).0)
              (after-add a req snow_cid s t id made added)
            ∙ get_top-hit req.snow_tid snow_cid rows t ids now (alone snow_cid ∙ ground arith),
        alone,
      )

  -- Where the set is there and holds the ids of the normal comments of the tweet, it does after
  -- CreateComment, whose id is added and whose message Kafka takes, and after the consumer has written
  -- the row that it reads in the message; the ids of the comment and of the tweet are ones that survive
  -- the float64 of the JSON. GetTopCommentsBySnowTid answers with this set.
  pub get_top_comments_complete :
      (a : Answers) (req : CreateCommentReq) (snow_cid cid db_now : ℕ) (rows : List Comment)
      (s t : r.State) (old ids : List ℕ)
      → a.new_id ≡ some snow_cid
      → a.push_ok ≡ true
      → (create_comment a req).0.code ≡ 0
      → Survives snow_cid
      → Survives req.snow_tid
      → r.smembers (top_key req.snow_tid) s ≡ some old
      → ((n : ℕ) → has n old ≡ listed req.snow_tid rows n)
      → r.sadd (top_key req.snow_tid) (snow_cid ∷ []) s ≡ some t
      → r.smembers (top_key req.snow_tid) t ≡ some ids
      → let table = table_after a req cid db_now rows in
        ((get_top_comments r req.snow_tid (some table) (after r a req s)).0 ≡ some ids)
        × ((n : ℕ) → has n ids ≡ has n (find_top_snow_cids req.snow_tid table))
  get_top_comments_complete a req snow_cid cid db_now rows s t old ids id push_ok made survives
        tweet before complete added now =
      let table = table_after a req cid db_now rows in
      let members : (n : ℕ) → has n ids ≡ (snow_cid == n || has n old) =
        λ n. members-after req.snow_tid snow_cid n old ids s t added before now in
      (
        ap (λ x. (get_top_comments r req.snow_tid (some table) x).0)
              (after-add a req snow_cid s t id made added)
            ∙ get_top-hit req.snow_tid snow_cid _ t ids now (members snow_cid ∙ ground arith),
        λ n.
            members n
            ∙ ap (λ b. snow_cid == n || b) (complete n)
            ∙ sym (
                has-find req.snow_tid n table
                ∙ listed-after a req snow_cid cid db_now n rows id push_ok made survives tweet),
      )
