-- ===== src/Pipeline/Echo/Program.antt =====
-- The program of src/test/test.rs: it makes an engine, lets the echo run beside it, sends itself a
-- message, and runs the event loop. The heap and the threads are parameters.
use rx_rust.Base.{ℕ, Option, List}
use rx_rust.Effect.{Result, Action, ◌>>=◌, ◌>>◌}
use rx_rust.NetStream.{NetStream}
use rx_rust.Reactor.Connection.{StreamBuf}
use rx_rust.Reactor.Services.{Kinds, Services, Slabs}
use rx_rust.Reactor.NetEngine
use rx_rust.Reactor.NetEngine.{NetEngine, Loops}
use rx_rust.Pipeline.SetUp.{set_up}
use rx_rust.Pipeline.Echo.First.{send_first}

-- `MyAllocator` hands the heap's blocks on.
pub record Heap (W : Type 0) : Type 0 where
  pub heap_allocate : ℕ → ℕ → Action W (Option ℕ)
  pub heap_deallocate : Option ℕ → ℕ → ℕ → Action W (Unit {0})

module _ {W : Type 0} (heap : Heap W) where
  unfoldable pub my_allocate : ℕ → ℕ → Action W (Option ℕ)
  my_allocate size align = heap.heap_allocate size align

  unfoldable pub my_deallocate : Option ℕ → ℕ → ℕ → Action W (Unit {0})
  my_deallocate ptr len align = heap.heap_deallocate ptr len align

module _ {k : Kinds} {l : Slabs} {EventLoop : Type 0} (v : Services k) (m : Loops k l EventLoop)
    (copy : List ℕ → Option k.Buf)
    (send : k.Channel → StreamBuf k.Buf → Action k.World (Result (Unit {0}) (StreamBuf k.Buf)))
    (spawn_out : k.Rx → NetStream k.Channel k.Rx → Action k.World (Unit {0})) where
  -- `spawn_out` starts a thread with the closure, which holds the receiver and the stream.
  unfoldable pub main : k.Host → ℕ → ℕ → k.Callback → Action k.World (Unit {0})
  main host port duration callback = do
    (ne, srv_rx, cli) ← set_up v m host port duration callback
    spawn_out srv_rx cli
    send_first copy send cli
    NetEngine.run v m ne
