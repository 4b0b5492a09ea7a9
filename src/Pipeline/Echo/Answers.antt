-- ===== src/Pipeline/Echo/Answers.antt =====
-- What the echo of src/test/test.rs sends back and prints.
use rx_rust.Base.{
  none, ℕ, ◌+◌, ◌%◌, ◌^◌, ◌<◌, ◌≡◌, refl, sym, ap, ◌∙◌, ◌==◌, Bool-cases, inl, inr, Option, some,
  List, [], ◌∷◌, map, length, if◌then◌else◌,
}
use rx_rust.Effect.{done, Result, ok, Action, ◌>>=◌}
use rx_rust.Reactive.Feed.{deliver, session, mapped}
use rx_rust.DefaultMacros.{Link}
use rx_rust.Sendable.{event_loop_sendable}
use rx_rust.Processor.Map
use rx_rust.Processor.Map.{map_subscriber}
use rx_rust.Processor.MapVal1
use rx_rust.Processor.MapVal1.{map_val1_subscriber}
use rx_rust.Processor.Enumerate
use rx_rust.Processor.Enumerate.{enumerate_subscriber}
use rx_rust.Processor.DebugWhile
use rx_rust.Processor.DebugWhile.{debug_while_subscriber}
use rx_rust.Processor.Tap.{effects}
use rx_rust.Publisher.IterPublisher.Delivery.{Yields}
use rx_rust.Publisher.Coupler.{TryRecv}
use rx_rust.Publisher.Coupler
use rx_rust.Publisher.Coupler.{coupler_publisher}
use rx_rust.Publisher.Coupler.Delivery.{receiver, watched, watched-mapped, run-Coupler}
use rx_rust.Reactive.{run}
use rx_rust.Reactive.Stages.{mapped-mapped}
use rx_rust.Processor.Tap.{lift}
use rx_rust.Subscriber.Decoupler
use rx_rust.Subscriber.Decoupler.{decoupler_subscriber}
use rx_rust.Reactor.Connection.{StreamBuf, ProtoMsg}
use rx_rust.Pipeline.Echo.{Timed, Numbered, Map1, map1, stamp, is_traced, redirect, link_echo, echo}

-- What the chain acts on: the clock, the log, and what the event loop has been given.
abbrev pub World : Type 0 → Type 0 → Type 0 → Type 0
World K L Q = K × L × Q

-- The messages with the readings of the clock, one to a message.
unfoldable pub timed : {K B : Type 0} → (K → ℕ × K) → List (ProtoMsg B) → K → List (Timed B)
timed tick [] k = []
timed tick (m ∷ ms) k = (m, (tick k).0) ∷ timed tick ms (tick k).1

unfoldable pub clock_after : {K B : Type 0} → (K → ℕ × K) → List (ProtoMsg B) → K → K
clock_after tick [] k = k
clock_after tick (m ∷ ms) k = clock_after tick ms (tick k).1

-- Those whose number, counted from `n`, is a multiple of ten thousand.
unfoldable pub traced : {B : Type 0} → ℕ → List (Timed B) → List (Numbered B)
traced n [] = []
traced n (m ∷ ms) =
    let rest = traced ((n + 1) % 2 ^ 64) ms in if n % 10000 == 0 then (m, n) ∷ rest else rest

-- A message as it goes back.
abbrev pub returned : {B : Type 0} → ℕ → ProtoMsg B → StreamBuf B
returned tok m = record { buf = m.msg; token = tok }

-- A clock that always answers, a log that takes every line, and an event loop that takes every
-- message.
abbrev pub now : {K L Q : Type 0} → (K → ℕ × K) → Action (World K L Q) ℕ
now tick w = (done (tick w.0).0, ((tick w.0).1, w.1, w.2))

abbrev pub logging : {K L Q A : Type 0} → (A → L → L) → A → Action (World K L Q) (Unit {0})
logging print x w = (done tt, (w.0, print x w.1, w.2))

abbrev pub accepting :
    {K L Q A Tx : Type 0} → (A → Q → Q) → Tx → A → Action (World K L Q) (Result (Unit {0}) A)
accepting put dtx m w = (done (ok tt), (w.0, w.1, put m w.2))

module _ {K L Q Tx B : Type 0} (tick : K → ℕ × K) (print : Numbered B → L → L)
    (put : StreamBuf B → Q → Q) (tok : ℕ) (dtx : Tx) where
  abbrev linked : {S : Type 0} → S → Link S
  linked s = record { subscriber = some s; index = some 0 }

  -- The chain once it has passed on some values: only the number changes.
  abbrev pub chain : ℕ → Map1 (World K L Q) Tx B
  chain n = record {
    fun = stamp (now tick);
    link = linked (record {
      count = n;
      link = linked (record {
        fun = is_traced;
        link = linked (record { fun = redirect; val = tok; link = linked (Decoupler.new dtx) });
      });
    });
  }

  -- The chain before the `Coupler` subscribes it.
  abbrev linked_up : Map1 (World K L Q) Tx B
  linked_up = record (chain 0) { link = record (chain 0).link { index = none } }

  deliver-chain :
      (ms : List (ProtoMsg B)) (n : ℕ) (k : K) (l : L) (q : Q)
      → mapped
          (λ _. tt)
          (deliver (map1 (now tick) (accepting put) (logging print)) ms (chain n) (k, l, q))
        ≡ (
          done tt,
          (
            clock_after tick ms k,
            effects print (traced n (timed tick ms k)) l,
            effects put (map (returned tok) ms) q,
          ),
        )
  unfolding deliver clock_after traced timed map_subscriber Map.on_next enumerate_subscriber
      Enumerate.on_next debug_while_subscriber DebugWhile.on_next map_val1_subscriber
      MapVal1.on_next decoupler_subscriber Decoupler.on_next event_loop_sendable stamp is_traced
      redirect
  deliver-chain [] n k l q = refl
  deliver-chain (m ∷ ms) n k l q = elim (Bool-cases (n % 10000 == 0)) [
    | inl e ↦ rw e (
        deliver-chain ms ((n + 1) % 2 ^ 64) (tick k).1 (print ((m, (tick k).0), n) l)
          (put (returned tok m) q))
    | inr e ↦ rw e (deliver-chain ms ((n + 1) % 2 ^ 64) (tick k).1 l (put (returned tok m) q))
  ]

  -- Over a channel on which some messages arrive before its sender is gone, where the clock always
  -- answers and the log and the event loop take all that they are given, the echo ends; the event
  -- loop has been given every message's bytes, in order and under the token of the connection, the
  -- clock has been read once for each message, and what is printed are the messages whose number is
  -- a multiple of ten thousand, each with its time and its number.
  pub echo-answers :
      {C R : Type 0} (take : C → Option (ProtoMsg B) × C) (poll : C → TryRecv (ProtoMsg B) × C)
      (srv_rx : R) (fuel : ℕ) (ms : List (ProtoMsg B)) (c : C) (k : K) (l : L) (q : Q)
      → length ms < fuel
      → Yields take ms c
      → watched (
          mapped
            (λ _. tt)
            (echo
              (now tick)
              (accepting put)
              (logging print)
              take
              poll
              tok
              dtx
              srv_rx
              fuel
              (c, (k, l, q))))
        ≡ (
          done tt,
          (
            clock_after tick ms k,
            effects print (traced 0 (timed tick ms k)) l,
            effects put (map (returned tok) ms) q,
          ),
        )
  unfolding echo link_echo MapVal1.subscribe MapVal1.new DebugWhile.subscribe DebugWhile.new
      Enumerate.subscribe Enumerate.new Map.subscribe Map.new map_subscriber enumerate_subscriber
      debug_while_subscriber map_val1_subscriber decoupler_subscriber Decoupler.new
  echo-answers take poll srv_rx fuel ms c k l q h y =
      let d = map1 (now tick) (accepting put) (logging print) in
      let p =
        (Coupler.subscribe (lift d) (receiver take poll) (Coupler.new srv_rx) linked_up
            >>= run (coupler_publisher (lift d) (receiver take poll)) fuel)
          (c, (k, l, q)) in
      ap watched (sym (mapped-mapped (λ p. p.subscriber) (λ _. tt) p))
      ∙ watched-mapped (λ _. tt) (mapped (λ p. p.subscriber) p)
      ∙ ap (mapped (λ _. tt)) (run-Coupler d take poll srv_rx ms fuel c linked_up (k, l, q) h y)
      ∙ mapped-mapped some (λ _. tt) (session d ms linked_up (k, l, q))
      ∙ deliver-chain ms 0 k l q
