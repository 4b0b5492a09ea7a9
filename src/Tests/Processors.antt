-- ===== src/Tests/Processors.antt =====
-- The processors of src/processorimpl.rs at concrete inputs, with a `Collect` behind each.
use rx_rust.Base.{ℕ, ◌+◌, ◌≡◌, refl, Bool, true, false, Option, some, List, [], ◌∷◌, arith}
use rx_rust.Effect.{Outcome, done, pure, ◌>>=◌}
use rx_rust.Reactive.{Subscriber, default_on_subscribe, default_on_error, default_on_complete}
use rx_rust.Reactive.Feed.{deliver, session, mapped}
use rx_rust.Processor.Mealy.{outputs}
use rx_rust.Processor.Reduce
use rx_rust.Processor.Reduce.Delivery.{deliver-Reduce}
use rx_rust.Processor.Take
use rx_rust.Processor.Take.Delivery.{deliver-Take}
use rx_rust.Processor.Unzip
use rx_rust.Processor.Unzip.Delivery.{deliver-Unzip}
use rx_rust.Subscriber.Collect
use rx_rust.Subscriber.Collect.{Collect, collect_subscriber}

abbrev World : Type 0
World = Unit {0}

abbrev collected : {I : Type 0} → List I → Outcome (Option (Collect I)) × World
collected xs = (done (some (Collect.new xs)), tt)

abbrev three : List ℕ
three = 1 ∷ 2 ∷ 3 ∷ []

-- The sums so far.
deliver-Reduce_example :
    mapped
      (λ m. m.subscriber)
      ((Reduce.subscribe collect_subscriber
            (Reduce.new 0 (λ (v x : ℕ). pure (v + x, v + x)))
            (Collect.new [])
          >>= session (Reduce.reduce_subscriber collect_subscriber) three)
        tt)
    ≡ collected (1 ∷ 3 ∷ 6 ∷ [])
unfolding deliver outputs Collect.new Collect.on_next collect_subscriber
deliver-Reduce_example =
    deliver-Reduce collect_subscriber (λ v x. (v + x, v + x)) 0 three (Collect.new []) tt

deliver-Take_example :
    mapped
      (λ m. m.subscriber)
      ((Take.subscribe collect_subscriber (Take.new 2) (Collect.new [])
          >>= session (Take.take_subscriber collect_subscriber) three)
        tt)
    ≡ collected (1 ∷ 2 ∷ [])
unfolding deliver Collect.new Collect.on_next collect_subscriber
deliver-Take_example = deliver-Take collect_subscriber 2 (omega arith) three (Collect.new []) tt

abbrev pairs : List (ℕ × ℕ)
pairs = (1, 2) ∷ (3, 4) ∷ []

deliver-Unzip_example :
    mapped
      (λ m. m.subscriber)
      ((Unzip.subscribe collect_subscriber Unzip.new (Collect.new [])
          >>= session (Unzip.unzip_subscriber collect_subscriber) pairs)
        tt)
    ≡ collected (1 ∷ 2 ∷ 3 ∷ 4 ∷ [])
unfolding deliver Collect.new Collect.on_next collect_subscriber
deliver-Unzip_example =
    deliver-Unzip collect_subscriber (λ s x w. (_, _, refl)) pairs (Collect.new []) tt

-- A subscriber that counts what it is offered and refuses every second value.
abbrev fickle : Subscriber World (ℕ × Bool) ℕ
fickle = record {
  on_next = λ s x. pure ((s.0 + 1, true), (elim s.1 [ true ↦ false | false ↦ true ]));
  on_subscribe = default_on_subscribe;
  on_error = default_on_error;
  on_complete = default_on_complete;
}
