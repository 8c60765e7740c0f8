-- ===== src/Tests/Sets.antt =====
-- The set of the comments of a tweet at concrete inputs, in sets that are functions of their keys.
use gozero_x.Common.{
  arith, ℕ, ◌≡◌, refl, sym, ap, ◌∙◌, inl, inr, ◌||◌, Bool-cases, some, some_inj, List, [], ◌∷◌,
  ◌++◌, ◌==◌, if◌then◌else◌,
}
use gozero_x.Cache.{Key, key_eq}
use gozero_x.Cache.Comments.{Comment}
use gozero_x.Content.Batch.{has}
use gozero_x.Interact.Create.{new_comment, create_comment}
use gozero_x.Interact.Create.Adds.{create_comment_success}
use gozero_x.Tests.Discussion.{comment_told, a_comment}
use gozero_x.Json.Exact.{float64-exact}
use gozero_x.Interact.Ids.{Sets, IsLawful, top_key, find_top_snow_cids, get_top_comments}
use gozero_x.Interact.Ids.TopComments.{
  table_after, after, get_top_comments_alone, get_top_comments_complete,
}
use gozero_x.Notice.Listing.Names.{has-append}

abbrev Members : Type 0
Members = Key → List ℕ

abbrev joined : Key → List ℕ → Members → Members
joined k ids s j = if key_eq j k then ids ++ s j else s j

abbrev key_sets : Sets
key_sets = record {
  State = Members;
  smembers = λ k s. some (s k);
  sadd = λ k ids s. some (joined k ids s);
}

has-joined :
    (j k : Key) (ids : List ℕ) (s : Members) (n : ℕ)
    → has n (joined k ids s j) ≡ (if key_eq j k then has n ids || has n (s j) else has n (s j))
has-joined j k ids s n = elim (Bool-cases (key_eq j k)) [
  | inl same ↦ rw same (has-append n ids (s j))
  | inr other ↦ rw other refl
]

key_sets-IsLawful : IsLawful key_sets
key_sets-IsLawful = record {
  sadd_members = λ j k ids old new s t n added before now.
      ap (has n) (sym (some_inj (t j) new now))
      ∙ ap (λ (f : Members). has n (f j)) (sym (some_inj (joined k ids s) t added))
      ∙ has-joined j k ids s n
      ∙ ap (λ l. if key_eq j k then has n ids || has n l else has n l) (some_inj (s j) old before);
}

made : (create_comment comment_told a_comment).0.code ≡ 0
made = create_comment_success comment_told a_comment 900 refl refl refl

-- An older comment of the tweet.
abbrev older : Comment
older = record (new_comment a_comment 899 500) { uid = 9 }

abbrev nothing : Members
nothing k = []

get_top_comments_alone_example :
    ((get_top_comments key_sets 5
        (some (older ∷ []))
        (after key_sets comment_told a_comment nothing)).0
      ≡ some (900 ∷ []))
    × ((n : ℕ) → has n (900 ∷ []) ≡ (900 == n))
get_top_comments_alone_example =
    get_top_comments_alone key_sets key_sets-IsLawful comment_told a_comment 900 (some (older ∷ []))
      nothing (joined (top_key 5) (900 ∷ []) nothing) (900 ∷ []) refl made refl refl refl

-- The set of the tweet holds the older comment.
abbrev one_member : Members
one_member k = 899 ∷ []

get_top_comments_complete_example :
    let table = table_after comment_told a_comment 31 1007 (older ∷ []) in
    ((get_top_comments key_sets 5 (some table) (after key_sets comment_told a_comment one_member)).0
      ≡ some (900 ∷ 899 ∷ []))
    × ((n : ℕ) → has n (900 ∷ 899 ∷ []) ≡ has n (find_top_snow_cids 5 table))
get_top_comments_complete_example =
    get_top_comments_complete key_sets key_sets-IsLawful comment_told a_comment 900 31 1007
      (older ∷ []) one_member (joined (top_key 5) (900 ∷ []) one_member) (899 ∷ []) (900 ∷ 899 ∷ [])
      refl refl made (float64-exact 900 (omega arith)) (float64-exact 5 (omega arith)) refl
      (λ n. refl) refl refl
