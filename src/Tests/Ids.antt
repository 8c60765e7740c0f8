-- ===== src/Tests/Ids.antt =====
-- The id generator and the integers of messages at concrete inputs.
use gozero_x.Common.{ℕ, ◌+◌, ◌*◌, ◌/◌, ◌%◌, ◌^◌, ◌<◌, ◌≡◌, ◌≢◌, some, arith}
use gozero_x.Common.Int.{pos}
use gozero_x.Json.{int, deliver, to_int64}
use gozero_x.Json.Exact.{to_int64-deliver}
use gozero_x.Idgen.{epoch, fresh, init, pack, gen_id, gen_ids, Snowflake, spinning}
use gozero_x.Idgen.Laws.{pack_fields}
use gozero_x.Idgen.Order.{IsRising, gen_ids-IsRising}
use gozero_x.Idgen.Waiting.{gen_id_returns}

-- A clock that stays in one millisecond for three readings, and then moves on by one.
abbrev clock : ℕ → ℕ
clock i = epoch + 86400000 + i / 3 % 2

abbrev busy : Snowflake
busy = record { worker_id = 7; timestamp = epoch + 86400000; sequence = 4095 }

gen_ids-IsRising_example : IsRising (gen_ids clock 5 9 (init (pos 7) fresh).1.current 0)
gen_ids-IsRising_example =
    gen_ids-IsRising clock 5 9 7 0 (λ k. (omega arith, omega arith)) (omega arith)

pack_fields_example :
    (pack (epoch + 1000) 7 42 < 2 ^ 63)
    × (pack (epoch + 1000) 7 42 / 2 ^ 22 + epoch ≡ epoch + 1000)
    × (pack (epoch + 1000) 7 42 / 2 ^ 12 % 2 ^ 10 ≡ 7)
    × (pack (epoch + 1000) 7 42 % 2 ^ 12 ≡ 42)
pack_fields_example =
    pack_fields (epoch + 1000) 7 42 (omega arith, omega arith) (omega arith) (omega arith)

gen_id_returns_example : (gen_id clock 9 (some busy) 0).outcome ≢ spinning
gen_id_returns_example = gen_id_returns clock 3 9 0 busy (omega arith) (omega arith)

to_int64-deliver_example :
    (to_int64 (deliver (int 1700000000000)) ≡ 1700000000000)
    × (to_int64 (deliver (int (86400000000000 * 2 ^ 12))) ≡ 86400000000000 * 2 ^ 12)
    × (to_int64 (deliver (int (86400000000000 * 2 ^ 12 + 1))) ≡ 86400000000000 * 2 ^ 12)
to_int64-deliver_example =
    to_int64-deliver 1700000000000 86400000000000 (omega arith) (omega arith) (omega arith)
