-- ===== src/Tests/SetUps.antt =====
-- The engine of the tests at concrete inputs: the event loop is a number.
use rx_rust.Base.{ℕ, ◌≡◌, refl, some, List, [], ◌∷◌, ◌++◌}
use rx_rust.Effect.{done, Result, ok, Action, pure}
use rx_rust.NetStream.{NetStream}
use rx_rust.Reactor.NetEngine.{NetEngine, Loops}
use rx_rust.Reactor.Services.{Services}
use rx_rust.Reactor.Engine.Opening.Working.{Works}
use rx_rust.Pipeline.SetUp.{set_up, IsSetUp}
use rx_rust.Pipeline.SetUp.Works.{set_up-Works}
use rx_rust.Reactor.Connection.{StreamBuf}
use rx_rust.Reactor.Engine
use rx_rust.Reactor.Engine.Events
use rx_rust.Reactor.Engine.Opening
use rx_rust.Reactor.NetEngine
use rx_rust.Pipeline.Echo.First.{first_bytes, send_first}
use rx_rust.Pipeline.Echo.Program.{main}
use rx_rust.Tests.Slabs.{slabs}
use rx_rust.Tests.Engines
use rx_rust.Tests.Engines.{kinds}

-- A server that accepts every connection.
abbrev services : Services kinds
services = record Engines.services { connect_socket = λ s a port. pure (ok tt) }

abbrev loops : Loops kinds slabs ℕ
loops = record {
  configured_loop = λ c. pure (ok c.notify_capacity);
  run_loop = λ el e. pure (ok tt);
  run_loop_once = λ el e. pure (ok tt);
  shutdown_loop = λ el. pure tt;
}

abbrev works : Works services slabs
works = record {
  resolves = λ h w. (h, [], w, refl);
  opens = λ w. (7, w, refl);
  binds = λ s a port w. (s, w, refl);
  listens = λ s n w. (s, w, refl);
  connects = λ s a port w. (w, refl);
  makes_channel = λ n w. (tt, tt, w, refl);
  makes_buf = λ n w. ([], w, refl);
  registers = λ s t i w. (w, refl);
  registers_acceptor = λ a t i w. (w, refl);
  has_channel = λ w. (tt, w, refl);
  sets_timer = λ t d w. (t, w, refl);
  has_room = λ start capacity a h. (0, some a ∷ [], refl);
}

set_up-Works_example :
    (n : NetEngine kinds slabs ℕ) × (rx : Unit {0}) × (cl : NetStream (Unit {0}) (Unit {0}))
    × (w' : List ℕ) × (set_up services loops 1 10000 500 5 [] ≡ (done (n, rx, cl), w'))
    × IsSetUp services loops n.inner 5 cl.tok
set_up-Works_example =
    set_up-Works services loops works (λ c w. (c.notify_capacity, w, refl)) 1 10000 500 5 []

-- Threads that start at once, and an event loop that notes the bytes that it is given.
abbrev spawns : Unit {0} → NetStream (Unit {0}) (Unit {0}) → Action (List ℕ) (Unit {0})
spawns rx cl = pure tt

abbrev notes :
    Unit {0} → StreamBuf (List ℕ) → Action (List ℕ) (Result (Unit {0}) (StreamBuf (List ℕ)))
notes tx b w = (done (ok tt), w ++ b.buf)

-- The program sends its text, and ends with the event loop.
program_ends :
    main services loops (λ b. some b) notes spawns 1 10000 1000 5 [] ≡ (done tt, first_bytes)
unfolding main set_up NetEngine.new NetEngine.listen Opening.listen Engine.new NetEngine.connect
    Opening.connect Engine.new_buf NetEngine.timeout Events.set_timeout send_first NetEngine.run
program_ends = refl
