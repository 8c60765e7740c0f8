-- ===== src/Tests/Notices.antt =====
-- The notice service at concrete inputs.
use gozero_x.Common.{◌≡◌, refl, true, none, some, [], ◌∷◌, arith}
use gozero_x.Common.Int.{pos, ◌≤ℤ◌}
use gozero_x.Json.{Message, int, str, field, to_int64, deliver, float64}
use gozero_x.Notice.Tables.{find_by_uid_and_target, NoticeLike}
use gozero_x.Notice.Rows.{IsValid}
use gozero_x.Notice.Consumer.{Notices, Answers, consume, handle_like, handle_cancel_like}
use gozero_x.Notice.Handlers.{ReadAnswers, MarkReadReq, mark_read, get_unread_count}
use gozero_x.Notice.Reach.{Reach, here, next, consumes, reads, Reach-IsValid}
use gozero_x.Notice.Counts.{Notifies, handle_like-unread}
use gozero_x.Notice.Cancel.{Moves, notice_of, withdrawn_for, handle_cancel_like-unread}
use gozero_x.Notice.Read.{
  mark_read-own, mark_read-other, nothing_unread, taken_back, handle_cancel_like-reopens,
}

-- A notice of two likes of tweet 5 to user 4, who has read it.
abbrev pub read_notice : NoticeLike
read_notice = record {
  snow_nid = 70;
  target_type = 0;
  target_id = 5;
  snow_tid = 5;
  root_id = 0;
  recent_uid1 = 3;
  recent_uid2 = 2;
  uid = 4;
  total_count = pos 2;
  recent_count = pos 0;
  is_read = 1;
  created_at = 1000;
  updated_at = 1001;
  status = 0;
}

abbrev state : Notices
state = record { likes = read_notice ∷ []; comments = [] }

state-IsValid : IsValid (read_notice ∷ [])
state-IsValid = ((ground arith, ground arith, ground arith, refl), _, refl, _)

abbrev told : Answers
told = record { new_id = some 71; retry_id = none; now = 2000; db_ok = true }

abbrev message : Message
message =
    ("action", str "like_tweet")
    ∷ ("target_type", int 0)
    ∷ ("target_id", int 5)
    ∷ ("snow_tid", int 5)
    ∷ ("root_id", int 0)
    ∷ ("liker_uid", int 9)
    ∷ ("recipient_uid", int 4)
    ∷ []

handle_like-unread_example :
    Notifies (to_int64 (field "recipient_uid" message)) 4 state (handle_like told message state)
handle_like-unread_example = handle_like-unread told message state 4 state-IsValid

handle_cancel_like-unread_example :
    Moves 4
      (withdrawn_for 4 (notice_of message (read_notice ∷ [])))
      state
      (handle_cancel_like told message state)
handle_cancel_like-unread_example = handle_cancel_like-unread told message state 4 state-IsValid

notice_found : notice_of message (read_notice ∷ []) ≡ some read_notice
unfolding find_by_uid_and_target field to_int64 deliver float64
notice_found = refl

handle_cancel_like-reopens_example :
    notice_of message (handle_cancel_like told message state).1.likes
    ≡ some (taken_back 2000 read_notice)
handle_cancel_like-reopens_example =
    handle_cancel_like-reopens told message state read_notice refl notice_found

abbrev pub answered : ReadAnswers
answered = record { likes_ok = true; comments_ok = true; likes_now = 3000; comments_now = 3001 }

abbrev mark_all : MarkReadReq
mark_all = record { uid = 4; notice_type = 0 }

mark_read-own_example :
    get_unread_count answered 4 (mark_read answered mark_all state).1 ≡ nothing_unread
mark_read-own_example = mark_read-own answered answered mark_all state refl refl refl refl refl

mark_read-other_example :
    get_unread_count answered 8 (mark_read answered mark_all state).1
    ≡ get_unread_count answered 8 state
mark_read-other_example = mark_read-other answered answered mark_all state 8 (omega arith)

-- A like of the target, and then the owner reads the notices.
abbrev after_like : Notices
after_like = (consume told (some message) state).1

abbrev after_reading : Notices
after_reading = (mark_read answered mark_all after_like).1

liked_and_read : Reach state after_reading
liked_and_read = next (next here (consumes told (some message) refl)) (reads answered mark_all refl)

Reach-IsValid_example :
    IsValid after_reading.likes
    × (pos 0 ≤ℤ (get_unread_count answered 4 after_reading).total_unread)
Reach-IsValid_example = Reach-IsValid liked_and_read state-IsValid answered 4
