-- ===== src/Tests/Inbox.antt =====
-- Pages of notices at concrete inputs.
use gozero_x.Common.{ℕ, suc, ◌≡◌, refl, true, Option, some, List, [], ◌∷◌, map, arith, length, leb}
use gozero_x.Common.Int.{ℤ, pos}
use gozero_x.Content.Batch.{UserBrief, any}
use gozero_x.Notice.Tables.{NoticeComment}
use gozero_x.Notice.Consumer.{Notices}
use gozero_x.Notice.Handlers.{get_unread_count}
use gozero_x.Notice.Listing.{GetNoticesReq, like_info, comment_info, find_comments, get_notices}
use gozero_x.Notice.Listing.Names.{known}
use gozero_x.Notice.Listing.Complete.{all_likes, all_comments, page, works, read_notices_complete}
use gozero_x.Notice.Listing.OneCursor.{get_notices-repeats}
use gozero_x.Paging.Query.{insert_row, order_by, from_cursor}
use gozero_x.Paging.Reading.{read}
use gozero_x.Tests.Notices.{read_notice, answered}

abbrev a_comment : ℕ → NoticeComment
a_comment n = record {
  snow_nid = n;
  target_type = 0;
  commenter_uid = 9;
  uid = 4;
  snow_tid = 5;
  snow_cid = n;
  root_id = 0;
  parent_id = 0;
  content = "hello";
  replied_content = "";
  is_read = 0;
  created_at = n;
  updated_at = n;
  status = 0;
}

abbrev inbox : Notices
inbox = record { likes = read_notice ∷ []; comments = a_comment 1000 ∷ a_comment 1002 ∷ [] }

abbrev look : ℕ → UserBrief
look n = record { uid = n; nickname = "somebody"; avatar = "" }

abbrev a_page : GetNoticesReq
a_page = record { uid = 4; cursor = pos 0; limit = pos 1 }

read_notices_complete_example :
    (read
        (λ r. r.updated_at)
        (λ c. (page look (λ ns. ns) a_page inbox c).like_notices)
        (suc (length (all_likes 4 inbox)))
        (pos 0)
      ≡ map (like_info (known look)) (all_likes 4 inbox))
    × (read
          (λ r. r.created_at)
          (λ c. (page look (λ ns. ns) a_page inbox c).comment_notices)
          (suc (length (all_comments 4 inbox)))
          (pos 0)
        ≡ map (comment_info (known look)) (all_comments 4 inbox))
    × ((cursor : ℤ)
        → (page look (λ ns. ns) a_page inbox cursor).unread_count
          ≡ (get_unread_count answered 4 inbox).total_unread)
read_notices_complete_example =
    read_notices_complete look (λ n. refl) (λ ns. ns) (λ n ns. refl) a_page inbox
      (omega arith, (omega arith, _)) (_, _) (omega arith, _) ((omega arith, _), (_, _))
      (omega arith, (omega arith, _)) answered refl refl

brief : List ℕ → Option (List UserBrief)
brief ns = some (map look ns)

-- The page from the cursor 1003 on shows the comment of time 1002.
a_comment_seen :
    any
      (λ k. leb 1001 k.created_at)
      (get_notices brief
        (λ ns. ns)
        works
        (record a_page { cursor = pos 1003 })
        inbox).comment_notices
    ≡ true
unfolding get_notices find_comments order_by insert_row from_cursor comment_info
a_comment_seen = refl

get_notices-repeats_example :
    any
      (λ r. leb 1001 r.updated_at)
      (get_notices brief (λ ns. ns) works (record a_page { cursor = pos 1003 }) inbox).like_notices
    ≡ true
get_notices-repeats_example =
    get_notices-repeats brief (λ ns. ns) works (record a_page { cursor = pos 1003 }) inbox 1001 refl
      refl refl a_comment_seen
