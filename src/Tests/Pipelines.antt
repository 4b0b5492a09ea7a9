-- ===== src/Tests/Pipelines.antt =====
-- The publishers and the chains at concrete inputs. An iterator and a channel are lists.
use rx_rust.Base.{
  ℕ, suc, ◌+◌, ◌*◌, ◌≡◌, refl, Bool, true, false, Option, none, some, List, [], ◌∷◌, ◌++◌, arith,
  ltb, subst,
}
use rx_rust.Effect.{Outcome, done, panicked, out_of_fuel, pure, ◌>>=◌}
use rx_rust.Reactive.{Subscriber, run, default_on_subscribe, default_on_error}
use rx_rust.Reactive.Feed.{deliver, session, mapped}
use rx_rust.Sendable.{ok, channel_sendable}
use rx_rust.Processor.Tap.{lift}
use rx_rust.Processor.Map.{map_subscriber}
use rx_rust.Processor.Take.{take_subscriber}
use rx_rust.Processor.Take.Ending.{counting}
use rx_rust.Processor.Unzip.{unzip_subscriber}
use rx_rust.Processor.Unzip.Delivery.{unzipping}
use rx_rust.Publisher.IterPublisher
use rx_rust.Publisher.Coupler
use rx_rust.Publisher.Coupler.{TryRecv, received, disconnected}
use rx_rust.Publisher.Coupler.Delivery.{receiver, watched}
use rx_rust.Publisher.RndGen
use rx_rust.Publisher.RndGen.{StdGen, next_u64, rnd_gen_publisher}
use rx_rust.Publisher.RndGen.Delivery.{first_gen, run-RndGen}
use rx_rust.Reactive.Endless.{Refuses, first_of}
use rx_rust.Pipeline.Mapped
use rx_rust.Pipeline.Mapped.{run-chain}
use rx_rust.Pipeline.RepeatTake
use rx_rust.Pipeline.RepeatTake.{run-Repeat-Take}
use rx_rust.Pipeline.UnzipTake
use rx_rust.Pipeline.UnzipTake.{deliver-Unzip-Take}
use rx_rust.Pipeline.Relay.{Channel, sender, relay}
use rx_rust.Pipeline.Printing.{gen, out, println, printed}
use rx_rust.Subscriber.StdoutSubscriber
use rx_rust.Subscriber.StdoutSubscriber.{stdout_subscriber}
use rx_rust.Subscriber.Collect
use rx_rust.Subscriber.Collect.{Collect, collect_subscriber}
use rx_rust.Subscriber.Decoupler
use rx_rust.Subscriber.Decoupler.{decoupler_subscriber}

abbrev World : Type 0
World = Unit {0}

abbrev collected : List ℕ → Outcome (Option (Collect ℕ)) × World
collected xs = (done (some (Collect.new xs)), tt)

abbrev three : List ℕ
three = 1 ∷ 2 ∷ 3 ∷ []

-- The iterator of a vector.
abbrev uncons : List ℕ → Option ℕ × List ℕ
uncons [] = (none, [])
uncons (x ∷ xs) = (some x, xs)

-- The chain of the test in src/lib.rs.
run-chain_example :
    mapped Mapped.tail_of (
      (Mapped.chain collect_subscriber uncons (λ i. i * 10) (λ i. i + 2) three (Collect.new [])
          >>= run
              (IterPublisher.iter_publisher
                (map_subscriber (map_subscriber collect_subscriber))
                uncons)
              4)
        tt)
    ≡ collected (12 ∷ 22 ∷ 32 ∷ [])
unfolding deliver Collect.new Collect.on_next collect_subscriber
run-chain_example =
    run-chain collect_subscriber uncons (λ i. i * 10) (λ i. i + 2) three 4 three (Collect.new []) tt
      (omega arith) (refl, (refl, (refl, refl)))

-- As in the test of src/net_stream.rs: five times the value 5.
run-Repeat-Take_example :
    mapped RepeatTake.tail_of (RepeatTake.chain collect_subscriber 5 5 6 (Collect.new []) tt)
    ≡ collected (5 ∷ 5 ∷ 5 ∷ 5 ∷ 5 ∷ [])
unfolding deliver Collect.new Collect.on_next collect_subscriber
run-Repeat-Take_example =
    run-Repeat-Take collect_subscriber 5 5 (omega arith) 6 (omega arith) (Collect.new []) tt

-- A channel whose sender is gone once it is marked so.
abbrev Queue : Type 0
Queue = List ℕ × Bool

abbrev pop : Queue → Option ℕ × Queue
pop ([], closed) = (none, ([], closed))
pop (x ∷ xs, closed) = (some x, (xs, closed))

abbrev peek : Queue → TryRecv ℕ × Queue
peek ([], closed) = (disconnected, ([], closed))
peek (x ∷ xs, closed) = (received x, (xs, closed))

pop-cons :
    (c : Queue) (x : ℕ) (xs : List ℕ)
    → c.0 ≡ x ∷ xs
    → ((pop c).0 ≡ some x) × ((pop c).1.0 ≡ xs) × ((pop c).1.1 ≡ c.1)
pop-cons ([], closed) x xs e = absurd (cc)
pop-cons (y ∷ ys, closed) x xs e = (cc, cc, refl)

pop-nil : (c : Queue) → c.0 ≡ [] → c.1 ≡ true → (pop c).0 ≡ none
pop-nil ([], closed) e h = refl
pop-nil (y ∷ ys, closed) e h = absurd (cc)

abbrev channel : Channel Queue ℕ
channel = record {
  send = λ x c. (ok tt, (c.0 ++ x ∷ [], c.1));
  take = pop;
  poll = peek;
  drop_sender = λ c. (c.0, true);
  waiting = λ c. c.0;
  is_closed = λ c. c.1;
  send_lem = λ x c. (refl, refl);
  take-cons = pop-cons;
  take-nil = pop-nil;
  drop_sender_lem = λ c. (refl, refl);
}

relay_example :
    let near =
      session
        (decoupler_subscriber (
          channel_sendable
            (λ (q : World) (x : ℕ) (c : Queue). (done (ok tt), (c.0 ++ x ∷ [], c.1)))))
        three
        (Decoupler.new tt)
        ([], false) in
    (near.0 ≡ done (Decoupler.new tt))
    × (watched (
          mapped
            (λ p. p.subscriber)
            ((Coupler.subscribe
                  (lift collect_subscriber)
                  (receiver pop peek)
                  (Coupler.new tt)
                  (Collect.new [])
                >>= run (Coupler.coupler_publisher (lift collect_subscriber) (receiver pop peek)) 4)
              ((near.1.0, true), tt)))
        ≡ collected three)
unfolding deliver Collect.new Collect.on_next collect_subscriber
relay_example =
    relay channel collect_subscriber tt tt three ([], false) (Collect.new []) tt 4 (omega arith)

-- A subscriber that counts the values and, in the world, the ends of the stream.
abbrev counter : Subscriber ℕ ℕ ℕ
counter = record {
  on_next = λ s x. pure (s + 1, true);
  on_subscribe = default_on_subscribe;
  on_error = default_on_error;
  on_complete = λ s force w. (done s, suc w);
}

deliver-Unzip-Take_example :
    mapped UnzipTake.tail_of (
      deliver
        (unzip_subscriber (take_subscriber counter))
        ((7, 8) ∷ (9, 10) ∷ (11, 12) ∷ [])
        (unzipping (counting 1 0 false 0))
        0)
    ≡ (done (some 1), 3)
deliver-Unzip-Take_example =
    deliver-Unzip-Take counter 0 (omega arith) (7, 8) (9, 10) refl refl refl refl ((11, 12) ∷ [])

-- Values that are the numbers of the counter themselves; a subscriber that refuses the third one.
abbrev numbers : StdGen → ℕ × StdGen
numbers g = let (x, rng) = next_u64 g.rng in (x, record g { rng = rng })

abbrev two : Subscriber World ℕ ℕ
two = record {
  on_next = λ s x. pure (s + x, ltb s 1);
  on_subscribe = default_on_subscribe;
  on_error = default_on_error;
  on_complete = λ s force. pure s;
}

abbrev RefusesHere : Outcome ℕ × World → Type 0
RefusesHere (done s, w) = Refuses two (first_of numbers 3 first_gen) s w
RefusesHere (panicked, w) = Unit
RefusesHere (out_of_fuel, w) = Unit

two-Refuses :
    (s : ℕ) (w : World)
    → default_on_subscribe 0 0 tt ≡ (done s, w)
    → Refuses two (first_of numbers 3 first_gen) s w
unfolding Refuses next_u64
two-Refuses s w e = subst RefusesHere e tt

run-RndGen_example :
    mapped
      (λ p. p.subscriber)
      ((RndGen.subscribe two numbers RndGen.new 0 >>= run (rnd_gen_publisher two numbers) 4) tt)
    ≡ mapped some (session two (first_of numbers 3 first_gen) 0 tt)
run-RndGen_example = run-RndGen two numbers 3 4 0 tt (omega arith) (λ s w e. two-Refuses s w e)

-- The chains of the test in src/lib.rs, with three values, over a channel that holds one.
abbrev print_last : ℕ → List ℕ → List ℕ
print_last x v = v ++ x ∷ []

printed_example :
    let near =
      (gen channel uncons (λ i. i * 10) (λ i. i + 2) three tt
          >>= run
              (IterPublisher.iter_publisher
                (map_subscriber (
                  map_subscriber
                    (decoupler_subscriber (channel_sendable (sender channel {Q = World})))))
                uncons)
              5)
        (4 ∷ [], false) in
    ((mapped Mapped.tail_of near).0 ≡ done (some (Decoupler.new tt)))
    × (watched (
          mapped
            (λ p. p.subscriber)
            ((out channel print_last tt
                >>= run
                    (Coupler.coupler_publisher
                      (lift (stdout_subscriber (println print_last)))
                      (receiver pop peek))
                    5)
              ((near.1.0, true), [])))
        ≡ (done (some StdoutSubscriber.new), 4 ∷ 12 ∷ 22 ∷ 32 ∷ []))
printed_example =
    printed channel uncons (λ i. i * 10) (λ i. i + 2) print_last three three tt tt (4 ∷ [], false)
      [] 5 (omega arith) (omega arith) (refl, (refl, (refl, refl)))
