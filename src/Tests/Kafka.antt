-- ===== src/Tests/Kafka.antt =====
-- Two goroutines that ask for the pusher of one topic.
use gozero_x.Common.{ℕ, ◌≡◌, refl, Bool, true, some, List, [], ◌∷◌, arith, ◌==◌}
use gozero_x.Interact.Pushers.{
  IsEquality, returned, look, first_look, read_point, acquire, second_look, step_at, get_pushers,
  no_pushers,
}
use gozero_x.Interact.Pushers.Moves.{repeat, unlock}
use gozero_x.Interact.Pushers.Returns.{is_returned, get_pushers_return}
use gozero_x.Interact.Pushers.One.{get_pushers_one}

-- Topics by number.
abbrev same : ℕ → ℕ → Bool
same a b = a == b

same-IsEquality : IsEquality same
same-IsEquality = record { same_refl = λ a. ground arith; same_eq = λ a b e. ground (arith, e) }

abbrev topic : ℕ → ℕ
topic i = 7

-- Both find nothing; 0 gets the lock, makes the pusher and stores it while 1 waits.
abbrev turns : List ℕ
turns = 0 ∷ 1 ∷ 0 ∷ 1 ∷ 0 ∷ 0 ∷ 1 ∷ 0 ∷ 1 ∷ 1 ∷ []

first_returns : (get_pushers same topic turns no_pushers).point 0 ≡ returned 0
unfolding get_pushers step_at first_look read_point look acquire second_look
first_returns = refl

second_returns : (get_pushers same topic turns no_pushers).point 1 ≡ returned 0
unfolding get_pushers step_at first_look read_point look acquire second_look
second_returns = refl

get_pushers_one_example :
    (◌≡◌ {A = ℕ} 0 0) × (look same 7 (get_pushers same topic turns no_pushers).pushers ≡ some 0)
get_pushers_one_example =
    get_pushers_one same same-IsEquality topic turns 0 1 0 0 refl first_returns second_returns

-- Goroutine 0 has the lock and has made the pusher.
abbrev in_between : List ℕ
in_between = 0 ∷ 1 ∷ 0 ∷ 1 ∷ 0 ∷ 0 ∷ []

get_pushers_return_example :
    let s = get_pushers same topic in_between no_pushers in
    is_returned
      ((get_pushers same topic (repeat 5 1) (get_pushers same topic (unlock s.holder) s)).point 1)
    ≡ true
get_pushers_return_example = get_pushers_return same same-IsEquality topic in_between 1
