-- ===== src/Notice/Tables.antt =====
-- The tables of notices and the SQL of app/noticeService/model/noticelikemodel.go and
-- noticecommentmodel.go. A table is the list of its rows, and time is an argument where a statement
-- reads the clock. Counts are whole numbers that do not wrap: a row is reached by fewer than 2^63
-- likes.
use Prim.Native.String.{String}
use gozero_x.Common.{
  map, ℕ, Bool, true, false, ◌&&◌, Option, none, some, List, [], ◌∷◌, ◌++◌, ◌==◌, if◌then◌else◌,
  select, map, length,
}
use gozero_x.Common.Int.{ℤ, pos, ◌+ℤ◌}

pub record NoticeLike : Type 0 where
  pub snow_nid : ℕ
  pub target_type : ℕ
  pub target_id : ℕ
  pub snow_tid : ℕ
  pub root_id : ℕ
  pub recent_uid1 : ℕ
  pub recent_uid2 : ℕ
  pub uid : ℕ
  pub total_count : ℤ
  pub recent_count : ℤ
  pub is_read : ℕ
  pub created_at : ℕ
  pub updated_at : ℕ
  pub status : ℕ

pub record NoticeComment : Type 0 where
  pub snow_nid : ℕ
  pub target_type : ℕ
  pub commenter_uid : ℕ
  pub uid : ℕ
  pub snow_tid : ℕ
  pub snow_cid : ℕ
  pub root_id : ℕ
  pub parent_id : ℕ
  pub content : String
  pub replied_content : String
  pub is_read : ℕ
  pub created_at : ℕ
  pub updated_at : ℕ
  pub status : ℕ

-- The columns of the index uk_notice_like_uid_target of deploy/script/postgre/init.
abbrev pub same_target : ℕ → ℕ → ℕ → NoticeLike → Bool
same_target uid target_type target_id r =
    r.uid == uid && (r.target_type == target_type && r.target_id == target_id)

-- `FindByUidAndTarget`: `none` is ErrNotFound
unfoldable pub find_by_uid_and_target : ℕ → ℕ → ℕ → List NoticeLike → Option NoticeLike
find_by_uid_and_target uid target_type target_id [] = none
find_by_uid_and_target uid target_type target_id (r ∷ rs) =
    if same_target uid target_type target_id r && r.status == 0
    then some r
    else find_by_uid_and_target uid target_type target_id rs

abbrev pub unread : ℕ → ℕ → ℕ → ℕ → Bool
unread uid owner is_read status = owner == uid && (is_read == 0 && status == 0)

abbrev pub unread_like : ℕ → NoticeLike → Bool
unread_like uid r = unread uid r.uid r.is_read r.status

abbrev pub unread_comment : ℕ → NoticeComment → Bool
unread_comment uid r = unread uid r.uid r.is_read r.status

-- `CountUnreadByUid` of the likes: the sum of recent_count
unfoldable pub count_unread_likes : ℕ → List NoticeLike → ℤ
count_unread_likes uid [] = pos 0
count_unread_likes uid (r ∷ rs) =
    let rest = count_unread_likes uid rs in
    if unread_like uid r then r.recent_count +ℤ rest else rest

-- `CountUnreadByUid` of the comments
unfoldable pub count_unread_comments : ℕ → List NoticeComment → ℕ
count_unread_comments uid rs = length (select (unread_comment uid) rs)

-- `MarkReadByUid` of the likes
abbrev pub mark_like : ℕ → ℕ → NoticeLike → NoticeLike
mark_like now uid r =
    if unread_like uid r
    then record r { is_read = 1; recent_count = pos 0; updated_at = now }
    else r

unfoldable pub mark_likes : ℕ → ℕ → List NoticeLike → List NoticeLike
mark_likes now uid rs = map (mark_like now uid) rs

-- `MarkReadByUid` of the comments
abbrev pub mark_comment : ℕ → ℕ → NoticeComment → NoticeComment
mark_comment now uid r =
    if unread_comment uid r then record r { is_read = 1; updated_at = now } else r

unfoldable pub mark_comments : ℕ → ℕ → List NoticeComment → List NoticeComment
mark_comments now uid rs = map (mark_comment now uid) rs

-- `UpdateAggregation`
abbrev pub aggregated : ℕ → ℕ → ℕ → ℕ → ℤ → ℤ → NoticeLike → NoticeLike
aggregated now snow_nid recent_uid1 recent_uid2 total_count recent_count r =
    if r.snow_nid == snow_nid
    then record r {
      recent_uid1 = recent_uid1;
      recent_uid2 = recent_uid2;
      total_count = total_count;
      recent_count = recent_count;
      is_read = 0;
      updated_at = now;
    }
    else r

unfoldable pub update_aggregation : ℕ → ℕ → ℕ → ℕ → ℤ → ℤ → List NoticeLike → List NoticeLike
update_aggregation now snow_nid recent_uid1 recent_uid2 total_count recent_count rs =
    map (aggregated now snow_nid recent_uid1 recent_uid2 total_count recent_count) rs

-- What ON CONFLICT DO UPDATE makes of the rows that have the target of the new row.
abbrev pub liked_again : ℕ → NoticeLike → NoticeLike → NoticeLike
liked_again now row r =
    if same_target row.uid row.target_type row.target_id r
    then record r {
      recent_uid1 = row.recent_uid1;
      recent_uid2 = r.recent_uid1;
      total_count = r.total_count +ℤ pos 1;
      recent_count = r.recent_count +ℤ pos 1;
      is_read = 0;
      updated_at = now;
    }
    else r

-- Whether a row has the target.
abbrev pub target_taken : ℕ → ℕ → ℕ → List NoticeLike → Bool
target_taken uid target_type target_id [] = false
target_taken uid target_type target_id (r ∷ rs) =
    if same_target uid target_type target_id r
    then true
    else target_taken uid target_type target_id rs

-- Whether a primary key is taken.
abbrev pub like_taken : ℕ → List NoticeLike → Bool
like_taken snow_nid [] = false
like_taken snow_nid (r ∷ rs) = if r.snow_nid == snow_nid then true else like_taken snow_nid rs

abbrev pub comment_taken : ℕ → List NoticeComment → Bool
comment_taken snow_nid [] = false
comment_taken snow_nid (r ∷ rs) = if r.snow_nid == snow_nid then true else comment_taken snow_nid rs

-- `Upsert`: `none` is an error, of a primary key that is taken. The times are the defaults.
unfoldable pub upsert : ℕ → NoticeLike → List NoticeLike → Option (List NoticeLike)
upsert now row rs =
    if target_taken row.uid row.target_type row.target_id rs
    then some (map (liked_again now row) rs)
    else if like_taken row.snow_nid rs
    then none
    else some (rs ++ (record row { created_at = now; updated_at = now } ∷ []))

-- `Insert` of the comments, from noticecommentmodel_gen.go: the times are not among its columns.
unfoldable pub insert_comment : ℕ → NoticeComment → List NoticeComment → Option (List NoticeComment)
insert_comment now row rs =
    if comment_taken row.snow_nid rs
    then none
    else some (rs ++ (record row { created_at = now; updated_at = now } ∷ []))
