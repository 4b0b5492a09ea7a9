-- ===== src/Pipeline/Echo.antt =====
-- The chain of the test in src/test/test.rs, which sends every message that a server has received
-- back down the connection, and prints one in ten thousand.
pub mod Answers
pub mod Bytes
pub mod First
pub mod Wire
pub mod System
pub mod Program
use rx_rust.Base.{ℕ, zero, suc, ◌%◌, Bool, ◌==◌, Option, List}
use rx_rust.Effect.{Outcome, Result, Action, continue, pure, ◌>>=◌}
use rx_rust.Reactive.{Subscriber, run}
use rx_rust.Sendable.{event_loop_sendable}
use rx_rust.Processor.Map
use rx_rust.Processor.Map.{Map, map_subscriber}
use rx_rust.Processor.MapVal1
use rx_rust.Processor.MapVal1.{MapVal1, map_val1_subscriber}
use rx_rust.Processor.Enumerate
use rx_rust.Processor.Enumerate.{Enumerate, enumerate_subscriber}
use rx_rust.Processor.DebugWhile
use rx_rust.Processor.DebugWhile.{DebugWhile, debug_while_subscriber}
use rx_rust.Processor.Tap.{beside, lift}
use rx_rust.Publisher.Coupler
use rx_rust.Publisher.Coupler.{Coupler, TryRecv, coupler_publisher}
use rx_rust.Publisher.Coupler.Delivery.{receiver}
use rx_rust.Subscriber.Decoupler
use rx_rust.Subscriber.Decoupler.{Decoupler, decoupler_subscriber}
use rx_rust.Reactor.Connection.{StreamBuf, ProtoMsg}

-- A message with the time of its arrival at the chain, and that with its number.
abbrev pub Timed : Type 0 → Type 0
Timed B = ProtoMsg B × ℕ

abbrev pub Numbered : Type 0 → Type 0
Numbered B = Timed B × ℕ

-- The objects of the chain.
abbrev pub Map2 : Type 0 → Type 0 → Type 0 → Type 0
Map2 V Tx B = MapVal1 V (Decoupler Tx) (Numbered B) ℕ (StreamBuf B)

abbrev pub Trace : Type 0 → Type 0 → Type 0 → Type 0
Trace V Tx B = DebugWhile V (Map2 V Tx B) (Numbered B)

abbrev pub Red : Type 0 → Type 0 → Type 0 → Type 0
Red V Tx B = Enumerate V (Trace V Tx B) (Timed B)

abbrev pub Map1 : Type 0 → Type 0 → Type 0 → Type 0
Map1 V Tx B = Map V (Red V Tx B) (ProtoMsg B) (Timed B)

-- The closures.
unfoldable pub stamp : {V B : Type 0} → Action V ℕ → ProtoMsg B → Action V (Timed B)
stamp precise_time_ns tup = do t ← precise_time_ns; pure (tup, t)

unfoldable pub is_traced : {V B : Type 0} → Numbered B → Action V Bool
is_traced x = pure (x.1 % 10000 == 0)

unfoldable pub redirect : {V B : Type 0} → Numbered B → ℕ → Action V (StreamBuf B)
redirect x t = pure (record { buf = x.0.0.msg; token = t })

-- `precise_time_ns` is the clock, `send` what the event loop's sender does, and `println` what
-- `DebugWhile` does with a value that it prints.
module _ {V Tx B : Type 0} (precise_time_ns : Action V ℕ)
    (send : Tx → StreamBuf B → Action V (Result (Unit {0}) (StreamBuf B)))
    (println : Numbered B → Action V (Unit {0})) where
  abbrev pub sen : Subscriber V (Decoupler Tx) (StreamBuf B)
  sen = decoupler_subscriber (event_loop_sendable send)

  abbrev pub map2 : Subscriber V (Map2 V Tx B) (Numbered B)
  map2 = map_val1_subscriber sen

  abbrev pub trace : Subscriber V (Trace V Tx B) (Numbered B)
  trace = debug_while_subscriber map2 println

  abbrev pub red : Subscriber V (Red V Tx B) (Timed B)
  red = enumerate_subscriber trace

  abbrev pub map1 : Subscriber V (Map1 V Tx B) (ProtoMsg B)
  map1 = map_subscriber red

  -- The links.
  unfoldable pub link_echo : ℕ → Tx → Action V (Map1 V Tx B)
  link_echo tok dtx = do
    m2 ← MapVal1.subscribe sen (MapVal1.new tok redirect) (Decoupler.new dtx)
    t ← DebugWhile.subscribe map2 println (DebugWhile.new is_traced) m2
    r ← Enumerate.subscribe trace Enumerate.new t
    Map.subscribe red (Map.new (stamp precise_time_ns)) r

  -- The `Coupler` and its loop. The channel is one part of the world, and the chain acts on the
  -- other.
  unfoldable pub echo :
      {C R : Type 0}
      → (C → Option (ProtoMsg B) × C)
      → (C → TryRecv (ProtoMsg B) × C)
      → ℕ
      → Tx
      → R
      → ℕ
      → Action (C × V) (Coupler (Map1 V Tx B) R)
  echo take poll tok dtx srv_rx fuel w = continue (beside w.0 (link_echo tok dtx w.1)) (λ m.
      Coupler.subscribe (lift map1) (receiver take poll) (Coupler.new srv_rx) m
      >>= run (coupler_publisher (lift map1) (receiver take poll)) fuel)
