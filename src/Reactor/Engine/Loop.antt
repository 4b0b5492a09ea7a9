-- ===== src/Reactor/Engine/Loop.antt =====
-- src/reactor.rs, `NetEngine`: the calls that its user makes, and the events that mio's loop hands
-- to the engine, in whatever order.
pub mod Timers
pub mod Reachable
pub mod Sent
pub mod Received
use rx_rust.Base.{List, [], ◌∷◌, ℕ, ◌≡◌, List, [], ◌∷◌}
use rx_rust.Effect.{Outcome, done, Result, Action, pure, ◌>>=◌}
use rx_rust.NetStream.{NetStream}
use rx_rust.Reactor.Connection.{StreamBuf}
use rx_rust.Reactor.Services.{Kinds, Services, Slabs}
use rx_rust.Reactor.Engine.{NetEngineConfig, EngineInner, Failure, new}
use rx_rust.Reactor.Engine.Events.{readable, writable, notify, timeout, set_timeout}
use rx_rust.Reactor.Engine.Opening.{connect, listen}

-- What mio's loop calls a handler for.
pub data Event (k : Kinds) : Type 0 where
  can_read : ℕ → k.Hint → Event k
  can_write : ℕ → Event k
  notified : StreamBuf k.Buf → Event k
  timed_out : ℕ → Event k

module _ {k : Kinds} {l : Slabs} (v : Services k) (fuel : ℕ) where
  -- The handler of an event.
  unfoldable pub handle : Event k → EngineInner k l → Action k.World (EngineInner k l)
  handle (can_read token hint) e = readable v fuel e token hint
  handle (can_write token) e = writable v fuel e token
  handle (notified msg) e = notify v fuel e msg
  handle (timed_out token) e = timeout v e token

  -- The handlers of several events, one after the other.
  unfoldable pub handle_all : List (Event k) → EngineInner k l → Action k.World (EngineInner k l)
  unfolding handle
  handle_all [] e = pure e
  handle_all (ev ∷ evs) e = do e' ← handle ev e; handle_all evs e'

  -- A call that the engine survives, in some state of the world.
  pub data Step (e e' : EngineInner k l) : Type 0 where
    connects :
        (host : k.Host) (port : ℕ) (r : Result (NetStream k.Channel k.Rx) Failure) (w w' : k.World)
        → connect v e host port w ≡ (done (e', r), w')
        → Step e e'
    listens :
        (addr : k.Host) (port : ℕ) (r : Result k.Rx Failure) (w w' : k.World)
        → listen v e addr port w ≡ (done (e', r), w')
        → Step e e'
    sets_timeout :
        (duration : ℕ) (callback : k.Callback) (w w' : k.World)
        → set_timeout v e duration callback w ≡ (done e', w')
        → Step e e'
    handles : (ev : Event k) (w w' : k.World) → handle ev e w ≡ (done e', w') → Step e e'

  -- The engines that come of a new one.
  pub data Reach (cfg : NetEngineConfig k) : EngineInner k l → Type 0 where
    start : Reach cfg (new cfg)
    later : {e e' : EngineInner k l} → Reach cfg e → Step e e' → Reach cfg e'
