-- ===== src/Reactor/NetEngine.antt =====
-- src/reactor.rs, `NetEngine`: an engine with its event loop. Making, running and stopping the loop
-- are mio's: parameters.
use rx_rust.Base.{ℕ}
use rx_rust.Effect.{Result, Action, pure, ◌>>=◌}
use rx_rust.NetStream.{NetStream}
use rx_rust.Reactor.Services.{Kinds, Answer, Services, Slabs, unwrap_answer}
use rx_rust.Reactor.Engine.{
  NetEngineConfig, EventLoopConfig, EngineInner, Failure, default_config, event_loop_config,
}
use rx_rust.Reactor.Engine
use rx_rust.Reactor.Engine.Events
use rx_rust.Reactor.Engine.Opening

pub record NetEngine (k : Kinds) (l : Slabs) (EventLoop : Type 0) : Type 0 where
  pub event_loop : EventLoop
  pub inner : EngineInner k l

-- The calls of mio's event loop. `run` hands the engine to the loop.
pub record Loops (k : Kinds) (l : Slabs) (EventLoop : Type 0) : Type 0 where
  pub configured_loop : EventLoopConfig → Action k.World (Answer EventLoop)
  pub run_loop : EventLoop → EngineInner k l → Action k.World (Answer (Unit {0}))
  pub run_loop_once : EventLoop → EngineInner k l → Action k.World (Answer (Unit {0}))
  pub shutdown_loop : EventLoop → Action k.World (Unit {0})

module _ {k : Kinds} {l : Slabs} {EventLoop : Type 0} (v : Services k)
    (m : Loops k l EventLoop) where
  unfoldable pub configured : NetEngineConfig k → Action k.World (NetEngine k l EventLoop)
  configured cfg = do
    r ← m.configured_loop (event_loop_config cfg.queue_size cfg.poll_timeout_ms)
    event_loop ← unwrap_answer r
    pure (record { event_loop = event_loop; inner = Engine.new cfg })

  unfoldable pub new : Action k.World (NetEngine k l EventLoop)
  unfolding configured
  new = configured default_config

  unfoldable pub connect :
      NetEngine k l EventLoop
      → k.Host
      → ℕ
      → Action k.World (NetEngine k l EventLoop × Result (NetStream k.Channel k.Rx) Failure)
  connect n hostname port = do
    (e, r) ← Opening.connect v n.inner hostname port
    pure (record n { inner = e }, r)

  unfoldable pub listen :
      NetEngine k l EventLoop
      → k.Host
      → ℕ
      → Action k.World (NetEngine k l EventLoop × Result k.Rx Failure)
  listen n addr port = do
    (e, r) ← Opening.listen v n.inner addr port
    pure (record n { inner = e }, r)

  -- The event loop's own channel.
  unfoldable pub channel : NetEngine k l EventLoop → Action k.World k.Channel
  channel n = v.loop_channel

  unfoldable pub timeout :
      NetEngine k l EventLoop → ℕ → k.Callback → Action k.World (NetEngine k l EventLoop)
  timeout n duration callback = do
    e ← Events.set_timeout v n.inner duration callback
    pure (record n { inner = e })

  unfoldable pub run : NetEngine k l EventLoop → Action k.World (Unit {0})
  run n = do r ← m.run_loop n.event_loop n.inner; unwrap_answer r

  unfoldable pub run_once : NetEngine k l EventLoop → Action k.World (Unit {0})
  run_once n = do r ← m.run_loop_once n.event_loop n.inner; unwrap_answer r

  unfoldable pub shutdown : NetEngine k l EventLoop → Action k.World (Unit {0})
  shutdown n = m.shutdown_loop n.event_loop
