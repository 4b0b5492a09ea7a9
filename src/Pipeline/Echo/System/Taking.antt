-- ===== src/Pipeline/Echo/System/Taking.antt =====
-- What the echo of src/test/test.rs does with one message that waits in its channel.
use rx_rust.Base.{
  ℕ, ◌+◌, ◌%◌, ◌^◌, ◌≡◌, refl, true, ◌==◌, Bool-cases, inl, inr, List, [], ◌∷◌, ◌++◌,
}
use rx_rust.Effect.{Outcome, done, continue}
use rx_rust.Sendable.{event_loop_sendable}
use rx_rust.Processor.Map
use rx_rust.Processor.Map.{map_subscriber}
use rx_rust.Processor.MapVal1
use rx_rust.Processor.MapVal1.{map_val1_subscriber}
use rx_rust.Processor.Enumerate
use rx_rust.Processor.Enumerate.{enumerate_subscriber}
use rx_rust.Processor.DebugWhile
use rx_rust.Processor.DebugWhile.{debug_while_subscriber}
use rx_rust.Processor.Tap.{beside, lift}
use rx_rust.Subscriber.Decoupler
use rx_rust.Subscriber.Decoupler.{decoupler_subscriber}
use rx_rust.Publisher.Coupler.{new, subscribe, next, on_recv, pass}
use rx_rust.Publisher.Coupler.Delivery.{receiver, holding}
use rx_rust.Reactor.Connection.{StreamBuf, ProtoMsg}
use rx_rust.Pipeline.Queues.{enqueue, pop, peek}
use rx_rust.Pipeline.Echo.{Numbered, map1, stamp, is_traced, redirect, link_echo}
use rx_rust.Pipeline.Echo.Answers.{World, now, logging, accepting, returned, chain}
use rx_rust.Pipeline.Echo.System.{Echo}

module _ {B K L Dtx R : Type 0} (tick : K → ℕ × K) (print : Numbered B → L → L) (tok : ℕ)
    (dtx : Dtx) (rx : R) where
  -- The coupler of the echo once the chain has passed on `n` messages.
  abbrev pub running : ℕ → Echo K L Dtx R B
  running n =
      holding (map1 (now tick) (accepting enqueue) (logging print)) pop peek rx
        (chain tick print enqueue tok dtx n)

  -- A message is taken from the channel, and its bytes are what the event loop is asked to send.
  pub next-running :
      (n : ℕ) (m : ProtoMsg B) (ms : List (ProtoMsg B)) (clock : K) (log : L)
      (asked : List (StreamBuf B))
      → (log' : L) × (next
            (lift (map1 (now tick) (accepting enqueue) (logging print)))
            (receiver pop peek)
            (running n)
            (m ∷ ms, (clock, log, asked))
          ≡ (
            done (running ((n + 1) % 2 ^ 64), true),
            (ms, ((tick clock).1, log', asked ++ returned tok m ∷ [])),
          ))
  unfolding next on_recv pass lift map_subscriber Map.on_next enumerate_subscriber Enumerate.on_next
      debug_while_subscriber DebugWhile.on_next map_val1_subscriber MapVal1.on_next
      decoupler_subscriber Decoupler.on_next event_loop_sendable stamp is_traced redirect
  next-running n m ms clock log asked = elim (Bool-cases (n % 10000 == 0)) [
    | inl e ↦ (print ((m, (tick clock).0), n) log, rw e refl)
    | inr e ↦ (log, rw e refl)
  ]

  -- The links of the echo, before its loop.
  abbrev pub linking :
      (List (ProtoMsg B) × World K L (List (StreamBuf B)))
      → Outcome (Echo K L Dtx R B) × (List (ProtoMsg B) × World K L (List (StreamBuf B)))
  linking w =
      continue (beside w.0 (link_echo (now tick) (accepting enqueue) (logging print) tok dtx w.1)) (
        subscribe (lift (map1 (now tick) (accepting enqueue) (logging print))) (receiver pop peek)
          (new rx))

  pub linking-running :
      (w : List (ProtoMsg B) × World K L (List (StreamBuf B))) → linking w ≡ (done (running 0), w)
  unfolding link_echo MapVal1.subscribe MapVal1.new DebugWhile.subscribe DebugWhile.new
      Enumerate.subscribe Enumerate.new Map.subscribe Map.new map_subscriber enumerate_subscriber
      debug_while_subscriber map_val1_subscriber decoupler_subscriber Decoupler.new lift new
      subscribe
  linking-running w = refl
