-- ===== src/Notice/Reach.antt =====
-- The notice service over time: messages that its consumer takes, and users who mark notices as read.
use gozero_x.Common.{ℕ, ◌≡◌, Option, List, [], ◌∷◌, arith}
use gozero_x.Common.Int.{pos, ◌≤ℤ◌, ◌+ℤ◌}
use gozero_x.Json.{Message}
use gozero_x.Notice.Tables.{NoticeLike, count_unread_likes}
use gozero_x.Notice.Rows.{IsValid}
use gozero_x.Notice.Consumer.{Notices, Answers, consume}
use gozero_x.Notice.Handlers.{ReadAnswers, MarkReadReq, mark_read, get_unread_count, unread_failure}
use gozero_x.Notice.Invariant.{consume-IsValid, mark_read-IsValid}

-- One message, or one request to mark notices as read, whatever the answers of the other parts are.
pub data Step (s t : Notices) : Type 0 where
  consumes : (a : Answers) (o : Option Message) → t ≡ (consume a o s).1 → Step s t
  reads : (a : ReadAnswers) (req : MarkReadReq) → t ≡ (mark_read a req s).1 → Step s t

pub data Reach (s : Notices) : Notices → Type 0 where
  here : Reach s s
  next : {t u : Notices} → Reach s t → Step t u → Reach s u

Step-IsValid : (s t : Notices) → Step s t → IsValid s.likes → IsValid t.likes
Step-IsValid s t (consumes a o e) h = rw e (consume-IsValid a o s h)
Step-IsValid s t (reads a req e) h = rw e (mark_read-IsValid a req s h)

Reach-likes : {s t : Notices} → Reach s t → IsValid s.likes → IsValid t.likes
Reach-likes here h = h
Reach-likes (next {t} {u} r st) h = Step-IsValid t u st (Reach-likes r h)

-- Valid rows do not count below 0.
count-pos : (v : ℕ) (rs : List NoticeLike) → IsValid rs → pos 0 ≤ℤ count_unread_likes v rs
unfolding count_unread_likes ◌+ℤ◌
count-pos v [] h = ground arith
count-pos v (r ∷ rs) h = ground (arith, count-pos v rs h.3)

unread-pos :
    (b : ReadAnswers) (v : ℕ) (s : Notices)
    → IsValid s.likes
    → pos 0 ≤ℤ (get_unread_count b v s).total_unread
unfolding get_unread_count unread_failure ◌+ℤ◌
unread-pos b v s h = ground (arith, count-pos v s.likes h)

-- From valid like notices, every state that messages and requests to mark notices as read can reach,
-- in any order and whatever fails, has valid like notices (no two rows of one target or one primary
-- key, in every row the new likes between 0 and all the likes, and none of a row that has been read),
-- and GetUnreadCount tells nobody a total below 0.
pub Reach-IsValid :
    {s t : Notices}
    → Reach s t
    → IsValid s.likes
    → (b : ReadAnswers) (v : ℕ) → IsValid t.likes × (pos 0 ≤ℤ (get_unread_count b v t).total_unread)
Reach-IsValid r h b v = (Reach-likes r h, unread-pos b v _ (Reach-likes r h))
