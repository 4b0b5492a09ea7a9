-- ===== src/Tests/Systems.antt =====
-- The echo beside its engine, at concrete inputs: those of Tests/Wires.
use rx_rust.Base.{ℕ, ◌≡◌, refl, false, some, List, [], ◌∷◌, ◌++◌, map, arith}
use rx_rust.Sendable.{event_loop_sendable}
use rx_rust.Processor.Map
use rx_rust.Processor.Map.{map_subscriber}
use rx_rust.Processor.MapVal1
use rx_rust.Processor.MapVal1.{map_val1_subscriber}
use rx_rust.Processor.Enumerate
use rx_rust.Processor.Enumerate.{enumerate_subscriber}
use rx_rust.Processor.DebugWhile
use rx_rust.Processor.DebugWhile.{debug_while_subscriber}
use rx_rust.Processor.Tap.{lift}
use rx_rust.Subscriber.Decoupler
use rx_rust.Subscriber.Decoupler.{decoupler_subscriber}
use rx_rust.Publisher.Coupler.{next, on_recv, pass}
use rx_rust.Pipeline.Echo.{stamp, is_traced, redirect}
use rx_rust.Reactor.Connection
use rx_rust.Reactor.Connection.{StreamBuf, ProtoMsg}
use rx_rust.Protocol
use rx_rust.Reactor.Draining.{queued}
use rx_rust.Reactor.Parsing.{addressed}
use rx_rust.Reactor.Engine.{Conn, new, new_buf}
use rx_rust.Reactor.Engine.Events
use rx_rust.Reactor.Engine.Receiving.{encoded}
use rx_rust.Reactor.Engine.Loop.{handle}
use rx_rust.Pipeline.Echo.System.{State, Step, Steps, reads, takes, sends, stop, further, arrives}
use rx_rust.Pipeline.Echo.System.Taking.{running, linking-running}
use rx_rust.Pipeline.Echo.System.Flow.{sent_back}
use rx_rust.Pipeline.Echo.System.Conserved.{conserved}
use rx_rust.Pipeline.Echo.System.Completed.{completes}
use rx_rust.Tests.Slabs.{slabs}
use rx_rust.Tests.Reactors.{lists}
use rx_rust.Tests.Receivers
use rx_rust.Tests.Receivers.{World, kinds, services, peer, coming, comes}
use rx_rust.Tests.Wires
use rx_rust.Tests.Wires.{tick, print}

abbrev Sys : Type 0
Sys = State kinds slabs ℕ ℕ (Unit {0}) (Unit {0})

abbrev starting : Sys
starting = record {
  engine = Wires.before;
  world = ([], coming, [], []);
  channel = [];
  coupler = running tick print 1 tt tt 0;
  clock = 0;
  log = 0;
  asked = [];
}

-- A read brings two messages, the echo takes the first, a read brings none, and the first is sent.
abbrev one_read : Sys
one_read = record starting {
  engine = record Wires.before {
    conns =
        some (record Receivers.conn { buf = ([], 1536); marker = 0; interest = 4 ∷ 1 ∷ [] })
        ∷ some Wires.client
        ∷ [];
  };
  channel = map (addressed 0) ((1 ∷ 2 ∷ []) ∷ (3 ∷ 4 ∷ []) ∷ []);
  world = (
    map (addressed 0) ((1 ∷ 2 ∷ []) ∷ (3 ∷ 4 ∷ []) ∷ []),
    [] ∷ ((5 ∷ 6 ∷ []) ∷ []) ∷ [],
    [],
    (0, 4 ∷ 1 ∷ []) ∷ [],
  );
}

abbrev one_taken : Sys
one_taken = record one_read {
  coupler = running tick print 1 tt tt 1;
  channel = addressed 0 (3 ∷ 4 ∷ []) ∷ [];
  clock = 1;
  log = 1;
  asked = sent_back 1 (1 ∷ 2 ∷ []) ∷ [];
}

abbrev two_read : Sys
two_read = record one_taken {
  engine = record Wires.before {
    conns =
        some (record Receivers.conn { buf = ([], 1536); marker = 0; interest = 4 ∷ 1 ∷ 1 ∷ [] })
        ∷ some Wires.client
        ∷ [];
  };
  world = (one_read.world.0, ((5 ∷ 6 ∷ []) ∷ []) ∷ [], [], (0, 4 ∷ 1 ∷ 1 ∷ []) ∷ one_read.world.3);
}

abbrev one_sent : Sys
one_sent = record two_read {
  world = (one_read.world.0, ((5 ∷ 6 ∷ []) ∷ []) ∷ [], 1 ∷ 2 ∷ [], two_read.world.3);
  asked = [];
}

reads_once : Step kinds services tt peer tick print 0 1 20 starting one_read
unfolding handle Events.readable Events.readable_connection Events.read_from Events.receive
    Events.refill Events.drop_or_watch Events.watch Connection.new Connection.parse
    Protocol.buf_protocol_impl Protocol.append new new_buf
reads_once = reads false _ _ _ _ _ refl refl refl refl

takes_once : Step kinds services tt peer tick print 0 1 20 one_read one_taken
unfolding next on_recv pass lift map_subscriber Map.on_next enumerate_subscriber Enumerate.on_next
    debug_while_subscriber DebugWhile.on_next map_val1_subscriber MapVal1.on_next
    decoupler_subscriber Decoupler.on_next event_loop_sendable stamp is_traced redirect
takes_once = takes _ _ _ _ _ _ _ _ refl refl

reads_again : Step kinds services tt peer tick print 0 1 20 one_taken two_read
unfolding handle Events.readable Events.readable_connection Events.read_from Events.receive
    Events.refill Events.drop_or_watch Events.watch Connection.new Connection.parse
    Protocol.buf_protocol_impl Protocol.append new new_buf
reads_again = reads false _ _ [] _ _ refl refl refl refl

sends_once : Step kinds services tt peer tick print 0 1 20 two_read one_sent
unfolding handle Events.notify Events.flush Events.await_write Connection.drain Connection.new new
sends_once = sends _ _ _ _ refl refl

-- What was sent comes back.
abbrev one_back : Sys
one_back = record one_sent {
  world = (
    one_read.world.0,
    ((5 ∷ 6 ∷ []) ∷ []) ∷ ((1 ∷ 2 ∷ []) ∷ []) ∷ [],
    1 ∷ 2 ∷ [],
    two_read.world.3,
  );
}

steps : Steps kinds services tt peer tick print 0 1 20 starting ((1 ∷ 2 ∷ []) ∷ []) one_back
unfolding new
steps =
    arrives ((1 ∷ 2 ∷ []) ∷ []) one_back.world
      (further (further (further (further stop reads_once) takes_once) reads_again) sends_once)
      ((refl, tt), omega arith) refl refl refl

conserved_example :
    (out : Conn kinds) × (asked_for : List (List ℕ)) × (waiting : List (List ℕ)) × (slabs.get
        one_back.engine.conns 1
      ≡ some out)
    × (one_back.asked ≡ map (sent_back 1) asked_for)
    × (one_back.channel ≡ map (addressed 0) waiting)
    × (((1 ∷ 2 ∷ []) ++ queued lists (λ (w : World). w.2) out.outbuf)
          ++ encoded services tt peer (asked_for ++ (waiting ++ (5 ∷ 6 ∷ []) ∷ (1 ∷ 2 ∷ []) ∷ []))
        ≡ 1 ∷ 2 ∷ 3 ∷ 4 ∷ 5 ∷ 6 ∷ 1 ∷ 2 ∷ [])
unfolding Connection.new new
conserved_example =
    conserved kinds services tt peer tick print 0 1 20 tt tt starting ((1 ∷ 2 ∷ []) ∷ []) one_back
      Receivers.conn Wires.client (λ e. absurd (omega (arith, e))) comes (λ b. refl) Wires.writes
      (λ s b w. refl) refl refl refl refl refl refl refl (omega arith) (omega arith)
      (((refl, (refl, tt)), omega arith), ((tt, omega arith), (((refl, tt), omega arith), tt)))
      (omega arith) (linking-running tick print 1 tt tt ([], (0, 0, []))) refl refl (omega arith)
      steps

completes_example :
    (s' : Sys) × (out : Conn kinds) × Steps kinds services tt peer tick print 0 1 20 starting [] s'
    × (s'.world.1 ≡ [])
    × (s'.channel ≡ [])
    × (s'.asked ≡ [])
    × (slabs.get s'.engine.conns 1 ≡ some out)
    × (s'.world.2 ++ queued lists (λ (w : World). w.2) out.outbuf ≡ 1 ∷ 2 ∷ 3 ∷ 4 ∷ 5 ∷ 6 ∷ [])
unfolding Connection.new new
completes_example =
    completes kinds services tt peer tick print 0 1 20 tt tt starting Receivers.conn Wires.client
      false (λ e. absurd (omega (arith, e))) comes (λ b. refl) Wires.writes (λ s b w. refl) refl
      refl refl refl refl refl refl (omega arith) (omega arith)
      (((refl, (refl, tt)), omega arith), ((tt, omega arith), (((refl, tt), omega arith), tt)))
      (omega arith) (linking-running tick print 1 tt tt ([], (0, 0, []))) refl refl (omega arith)
      refl
