-- ===== src/Notice/Listing/Names.antt =====
-- The names that GetNotices shows, of an order of map keys and users that BatchGetUserBrief finds.
use gozero_x.Common.{
  ℕ, zero, suc, ◌≡◌, ◌≢◌, refl, ap, ◌∙◌, true, false, Bool, not, ◌||◌, Option, none, some, List, [],
  ◌∷◌, ◌++◌, map, arith, ◌==◌, if◌then◌else◌, All,
}
use gozero_x.Content.Batch.{has, unique, UserBrief, find_user}
use gozero_x.Content.Batch.Shown.{has-unique}
use gozero_x.Notice.Tables.{NoticeLike, NoticeComment}
use gozero_x.Notice.Listing.{nonzero, like_uids, shown_uids, like_info, comment_info, user_map}

-- An order of the keys of a map leaves none out and adds none.
abbrev pub IsOrder : (List ℕ → List ℕ) → Type 0
IsOrder order = (n : ℕ) (ns : List ℕ) → has n (order ns) ≡ has n ns

pub has-append : (n : ℕ) (xs ys : List ℕ) → has n (xs ++ ys) ≡ (has n xs || has n ys)
has-append n [] ys = refl
has-append n (x ∷ xs) ys = ground (arith, has-append n xs ys)

map-same :
    {A B : Type 0} (f g : A → B) (xs : List A) → All (λ x. f x ≡ g x) xs → map f xs ≡ map g xs
map-same f g [] h = refl
map-same f g (x ∷ xs) h = ap (λ y. y ∷ map f xs) h.0 ∙ ap (λ ys. g x ∷ ys) (map-same f g xs h.1)

All-map :
    {A : Type 0} {P Q : A → Type 0} → ((x : A) → P x → Q x) → (xs : List A) → All P xs → All Q xs
All-map f [] h = _
All-map f (x ∷ xs) h = (f x h.0, All-map f xs h.1)

-- The user with an id that is not 0.
abbrev pub known : (ℕ → UserBrief) → ℕ → Option UserBrief
known look uid = if uid == 0 then none else some (look uid)

module _ (look : ℕ → UserBrief) (own : (n : ℕ) → (look n).uid ≡ n) where
  same_user : (m n : ℕ) → (m == n) ≡ true → some (look m) ≡ some (look n)
  same_user m n h = ap (λ k. some (look k)) (ground arith)

  find_user-map :
      (n : ℕ) (ns : List ℕ) → find_user n (map look ns) ≡ (if has n ns then some (look n) else none)
  unfolding find_user
  find_user-map n [] = refl
  find_user-map n (m ∷ ns) = rw (find_user-map n ns) (ground (arith, own m, same_user m n))

  module _ (order : List ℕ → List ℕ) (is_order : IsOrder order) where
    abbrev users : List ℕ → ℕ → Option UserBrief
    users = user_map (λ ns. some (map look ns)) order

    user_map-known : (ns : List ℕ) (n : ℕ) → has n ns ≡ not (n == 0) → users ns n ≡ known look n
    unfolding user_map
    user_map-known [] n h = ground arith
    user_map-known (m ∷ ns) n h =
        find_user-map n (order (unique (m ∷ ns)))
        ∙ ap (λ b. if b then some (look n) else none)
            (is_order n (unique (m ∷ ns)) ∙ has-unique n (m ∷ ns) ∙ h)
        ∙ ground arith

    -- `f` holds of every id that the likes bring into the set, so of the ids of each.
    like_uids-All :
        (f : ℕ → Bool) (rs : List NoticeLike)
        → ((n : ℕ) → has n (like_uids rs) ≡ true → f n ≡ true)
        → All
            (λ r.
              (r.recent_uid1 ≢ 0 → f r.recent_uid1 ≡ true)
              × (r.recent_uid2 ≢ 0 → f r.recent_uid2 ≡ true))
            rs
    unfolding like_uids
    like_uids-All f [] h = _
    like_uids-All f (r ∷ rs) h = (
      (
        λ some_uid. h r.recent_uid1 (
            ground (
              arith,
              has-append r.recent_uid1 (nonzero r.recent_uid1)
                  (nonzero r.recent_uid2 ++ like_uids rs),
            )),
        λ some_uid. h r.recent_uid2 (
            ground (
              arith,
              has-append r.recent_uid2 (nonzero r.recent_uid1)
                  (nonzero r.recent_uid2 ++ like_uids rs),
              has-append r.recent_uid2 (nonzero r.recent_uid2) (like_uids rs),
            )),
      ),
      like_uids-All f rs (λ n e. h n (
          ground (
            arith,
            e,
            has-append n (nonzero r.recent_uid1) (nonzero r.recent_uid2 ++ like_uids rs),
            has-append n (nonzero r.recent_uid2) (like_uids rs),
          ))),
    )

    like_uids-zero : (rs : List NoticeLike) → has 0 (like_uids rs) ≡ false
    unfolding like_uids
    like_uids-zero [] = refl
    like_uids-zero (r ∷ rs) = ground (
      arith,
      has-append 0 (nonzero r.recent_uid1) (nonzero r.recent_uid2 ++ like_uids rs),
      has-append 0 (nonzero r.recent_uid2) (like_uids rs),
      like_uids-zero rs,
    )

    commenters-zero :
        (rs : List NoticeComment)
        → All (λ r. r.commenter_uid ≢ 0) rs
        → has 0 (map (λ r. r.commenter_uid) rs) ≡ false
    commenters-zero [] h = refl
    commenters-zero (r ∷ rs) h = ground (arith, commenters-zero rs h.1)

    commenters-All :
        (f : ℕ → Bool) (rs : List NoticeComment)
        → ((n : ℕ) → has n (map (λ r. r.commenter_uid) rs) ≡ true → f n ≡ true)
        → All (λ r. f r.commenter_uid ≡ true) rs
    commenters-All f [] h = _
    commenters-All f (r ∷ rs) h =
        (h r.commenter_uid (ground arith), commenters-All f rs (λ n e. h n (ground (arith, e))))

    module _ (likes : List NoticeLike) (comments : List NoticeComment)
        (named : All (λ r. r.commenter_uid ≢ 0) comments) where
      abbrev uids : List ℕ
      uids = shown_uids likes comments

      uids-zero : has 0 uids ≡ false
      uids-zero = ground (
        arith,
        has-append 0 (like_uids likes) (map (λ r. r.commenter_uid) comments),
        like_uids-zero likes,
        commenters-zero comments named,
      )

      user-known : (n : ℕ) → (n ≢ 0 → has n uids ≡ true) → users uids n ≡ known look n
      user-known zero h = user_map-known uids 0 uids-zero
      user-known (suc n) h = user_map-known uids (suc n) (h (omega arith) ∙ ground arith)

      like_info-known :
          (r : NoticeLike)
          → (r.recent_uid1 ≢ 0 → has r.recent_uid1 uids ≡ true)
            × (r.recent_uid2 ≢ 0 → has r.recent_uid2 uids ≡ true)
          → like_info (users uids) r ≡ like_info (known look) r
      unfolding like_info
      like_info-known r (first, second) =
          rw (user-known r.recent_uid1 first, user-known r.recent_uid2 second) refl

      comment_info-known :
          (r : NoticeComment)
          → has r.commenter_uid uids ≡ true
          → comment_info (users uids) r ≡ comment_info (known look) r
      unfolding comment_info
      comment_info-known r h = rw (user-known r.commenter_uid (λ some_uid. h)) refl

      -- Every notice of the page names its users, in whatever order Go visits the ids.
      pub like_infos-known : map (like_info (users uids)) likes ≡ map (like_info (known look)) likes
      like_infos-known = map-same (like_info (users uids)) (like_info (known look)) likes (
          All-map like_info-known likes (
            like_uids-All (λ n. has n uids) likes
              (λ n e.
                ground (
                  arith,
                  e,
                  has-append n (like_uids likes) (map (λ r. r.commenter_uid) comments),
                ))))

      pub comment_infos-known :
          map (comment_info (users uids)) comments ≡ map (comment_info (known look)) comments
      comment_infos-known =
          map-same (comment_info (users uids)) (comment_info (known look)) comments (
            All-map comment_info-known comments (
              commenters-All (λ n. has n uids) comments
                (λ n e. ground (
                  arith,
                  e,
                  has-append n (like_uids likes) (map (λ r. r.commenter_uid) comments),
                ))))
