-- ===== src/Pipeline/Oneway.antt =====
-- The two chains of the test `oneway_test` in src/net_stream.rs: one sends a value again and again
-- through the event loop, the other one collects what arrives at the other end.
pub mod Sending
pub mod Receiving
pub mod Whole
use rx_rust.Base.{ℕ, zero, suc, Bool, Option, some, List}
use rx_rust.Effect.{Outcome, Result, Action, continue, pure, ◌>>=◌}
use rx_rust.Reactive.{Subscriber, run}
use rx_rust.Reactive.Stages.{through}
use rx_rust.Sendable.{Sendable, event_loop_sendable}
use rx_rust.Processor.Map
use rx_rust.Processor.Map.{Map, map_subscriber}
use rx_rust.Processor.DoDebug
use rx_rust.Processor.DoDebug.{DoDebug, do_debug_subscriber}
use rx_rust.Processor.Take
use rx_rust.Processor.Take.{Take, take_subscriber}
use rx_rust.Processor.Tap.{beside, lift}
use rx_rust.Publisher.Repeat
use rx_rust.Publisher.Repeat.{Repeat}
use rx_rust.Publisher.Coupler
use rx_rust.Publisher.Coupler.{Coupler, TryRecv, coupler_publisher}
use rx_rust.Publisher.Coupler.Delivery.{receiver}
use rx_rust.Subscriber.Collect
use rx_rust.Subscriber.Collect.{Collect, collect_subscriber}
use rx_rust.Subscriber.Decoupler
use rx_rust.Subscriber.Decoupler.{Decoupler, decoupler_subscriber}
use rx_rust.Reactor.Connection.{StreamBuf, ProtoMsg}
use rx_rust.NetStream.U64Protocol.{isize_to_strbuf}

-- The objects of the sender's end.
abbrev pub Trc : Type 0 → Type 0 → Type 0 → Type 0
Trc W Tx B = DoDebug W (Decoupler Tx) (StreamBuf B)

abbrev pub Map2 : Type 0 → Type 0 → Type 0 → Type 0
Map2 W Tx B = Map W (Trc W Tx B) (StreamBuf B) (StreamBuf B)

abbrev pub Map1 : Type 0 → Type 0 → Type 0 → Type 0
Map1 W Tx B = Map W (Map2 W Tx B) ℕ (StreamBuf B)

-- The sender's end. `copy` is iobuf's copy of a slice, `send` what the event loop's sender does,
-- and `println` what `DoDebug` does with a value.
module _ {W Tx B : Type 0} (copy : List ℕ → Option B)
    (send : Tx → StreamBuf B → Action W (Result (Unit {0}) (StreamBuf B)))
    (println : StreamBuf B → Action W (Unit {0})) where
  abbrev pub sen : Subscriber W (Decoupler Tx) (StreamBuf B)
  sen = decoupler_subscriber (event_loop_sendable send)

  abbrev pub trc : Subscriber W (Trc W Tx B) (StreamBuf B)
  trc = do_debug_subscriber sen println

  abbrev pub map2 : Subscriber W (Map2 W Tx B) (StreamBuf B)
  map2 = map_subscriber trc

  abbrev pub map1 : Subscriber W (Map1 W Tx B) ℕ
  map1 = map_subscriber map2

  -- The links.
  unfoldable pub link_sender : ℕ → ℕ → Tx → Action W (Repeat (Map1 W Tx B) ℕ)
  link_sender tok v dtx = do
    t ← DoDebug.subscribe sen println DoDebug.new (Decoupler.new dtx)
    m2 ← Map.subscribe trc (Map.new (λ b. pure (record { buf = b.buf; token = tok }))) t
    m1 ← Map.subscribe map2 (Map.new (isize_to_strbuf copy)) m2
    Repeat.subscribe map1 (Repeat.new v) m1

  -- The loop over a range, which drops the answers of `next`.
  unfoldable pub next_times : ℕ → Repeat (Map1 W Tx B) ℕ → Action W (Repeat (Map1 W Tx B) ℕ)
  next_times zero rep = pure rep
  next_times (suc n) rep = do (rep', more) ← Repeat.next map1 rep; next_times n rep'

-- The receiver's end.
abbrev pub Map3 : Type 0 → Type 0
Map3 V = Map V (Collect ℕ) (ProtoMsg ℕ) ℕ

abbrev pub Taker : Type 0 → Type 0
Taker V = Take V (Map3 V) (ProtoMsg ℕ)

module _ {V : Type 0} where
  abbrev pub map3 : Subscriber V (Map3 V) (ProtoMsg ℕ)
  map3 = map_subscriber collect_subscriber

  abbrev pub taker : Subscriber V (Taker V) (ProtoMsg ℕ)
  taker = take_subscriber map3

  unfoldable pub link_taker : ℕ → Collect ℕ → Action V (Taker V)
  link_taker limit coll = do
    m ← Map.subscribe collect_subscriber (Map.new (λ m. pure m.msg)) coll
    Take.subscribe map3 (Take.new limit) m

-- The channel is one part of the world, and the chain acts on the other.
module _ {C V R : Type 0} (take : C → Option (ProtoMsg ℕ) × C)
    (poll : C → TryRecv (ProtoMsg ℕ) × C) where
  unfoldable pub receive : R → ℕ → ℕ → Collect ℕ → Action (C × V) (Coupler (Taker V) R)
  receive rx limit fuel coll w = continue (beside w.0 (link_taker limit coll w.1)) (λ t.
      Coupler.subscribe (lift taker) (receiver take poll) (Coupler.new rx) t
      >>= run (coupler_publisher (lift taker) (receiver take poll)) fuel)

-- The vector at the end of the chain.
abbrev pub collected_by : {V R : Type 0} → Coupler (Taker V) R → Option (Collect ℕ)
collected_by = through (λ p. p.subscriber) (through (λ t. t.subscriber) (λ m. m.subscriber))
