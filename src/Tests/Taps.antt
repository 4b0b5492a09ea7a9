-- ===== src/Tests/Taps.antt =====
-- The processors that only do something beside, at concrete inputs: the first part of the world is
-- what was printed or sent, newest first.
use rx_rust.Base.{ℕ, ◌%◌, ◌≡◌, Bool, Option, some, List, [], ◌∷◌, ◌==◌}
use rx_rust.Effect.{done, ◌>>=◌}
use rx_rust.Reactive.Feed.{deliver, session}
use rx_rust.Sendable.{Result, err}
use rx_rust.Processor.Tap.{lift, offered}
use rx_rust.Processor.Tee
use rx_rust.Processor.Tee.Delivery.{queue, deliver-Tee}
use rx_rust.Subscriber.Collect
use rx_rust.Subscriber.Collect.{Collect, collect_subscriber}

abbrev Log : Type 0
Log = List ℕ

abbrev note : ℕ → Log → Log
note x log = x ∷ log

abbrev three : List ℕ
three = 1 ∷ 2 ∷ 3 ∷ []

abbrev linked : Option (Collect ℕ)
linked = some (Collect.new three)

abbrev is_even : ℕ → Bool
is_even x = x % 2 == 0

-- A queue that refuses every value, and has it all the same.
abbrev refusing : ℕ → Log → Result (Unit {0}) ℕ
refusing x log = err x

deliver-Tee_example :
    (Tee.subscribe (lift collect_subscriber) (queue refusing note) (Tee.new tt) (Collect.new [])
        >>= session (Tee.tee_subscriber (lift collect_subscriber) (queue refusing note)) three)
      ([], tt)
    ≡ (
      done (record { data_tx = tt; link = record { subscriber = linked; index = some 0 } }),
      (3 ∷ 2 ∷ 1 ∷ [], tt),
    )
unfolding deliver offered Collect.new Collect.on_next collect_subscriber
deliver-Tee_example = deliver-Tee collect_subscriber tt refusing note three (Collect.new []) [] tt
