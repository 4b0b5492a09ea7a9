-- ===== src/Pipeline/SetUp/Works.antt =====
-- That the set-up of the tests ends with an engine where the system gives what it is asked for.
use rx_rust.Base.{ℕ, ◌≡◌, refl}
use rx_rust.Effect.{OnDone-done, done, ok}
use rx_rust.NetStream.{NetStream}
use rx_rust.Reactor.Services.{Kinds, Services, Slabs}
use rx_rust.Reactor.Engine
use rx_rust.Reactor.Engine.{EngineInner, EventLoopConfig, default_config, event_loop_config}
use rx_rust.Reactor.Engine.Opening.Working.{Works, listen-ok, connect-ok, set_timeout-ok}
use rx_rust.Reactor.NetEngine
use rx_rust.Reactor.NetEngine.{NetEngine, Loops}
use rx_rust.Pipeline.SetUp.{set_up, IsSetUp, set_up-IsSetUp}

module _ {k : Kinds} {l : Slabs} {EventLoop : Type 0} (v : Services k) (m : Loops k l EventLoop)
    (works : Works v l)
    (makes_loop : (c : EventLoopConfig) (w : k.World)
      → (el : EventLoop) × (w' : k.World) × (m.configured_loop c w ≡ (done (ok el), w'))) where
  set_up-done :
      (host : k.Host) (port duration : ℕ) (callback : k.Callback) (w : k.World)
      → (r : NetEngine k l EventLoop × k.Rx × NetStream k.Channel k.Rx) × (w' : k.World) × (set_up v
            m host port duration callback w
          ≡ (done r, w'))
  unfolding set_up NetEngine.new NetEngine.listen NetEngine.connect NetEngine.timeout Engine.new
  set_up-done host port duration callback w =
      let (el, w₁, e₁) = makes_loop (event_loop_config 524288 100) w in
      let e = Engine.new default_config in
      let (listeners, rx, w₂, e₂) = listen-ok v works e host port w₁ refl in
      let here = record e { listeners = listeners } in
      let (conns, cl, w₃, e₃) = connect-ok v works here host port w₂ refl refl in
      let both = record here { conns = conns } in
      let (all, w₄, e₄) = set_timeout-ok v works both duration callback w₃ refl in
      ((record { event_loop = el; inner = all }, rx, cl), w₄, rw (e₁, e₂, e₃, e₄) refl)

  -- Where the calls of mio, iobuf and the standard library succeed, and slabs that were just made
  -- have room, the set-up ends: its engine has one listener, one connection, at the token of the
  -- stream that the caller gets, and one timeout, with the callback and a timer; its configuration
  -- is the default one.
  pub set_up-Works :
      (host : k.Host) (port duration : ℕ) (callback : k.Callback) (w : k.World)
      → (n : NetEngine k l EventLoop) × (rx : k.Rx) × (cl : NetStream k.Channel k.Rx)
        × (w' : k.World) × (set_up v m host port duration callback w ≡ (done (n, rx, cl), w'))
        × IsSetUp v m n.inner callback cl.tok
  set_up-Works host port duration callback w =
      let ((n, rx, cl), w', e) = set_up-done host port duration callback w in
      (
        n,
        rx,
        cl,
        w',
        e,
        OnDone-done (λ r. IsSetUp v m r.0.inner callback r.2.tok) _ (n, rx, cl) w' e
            (set_up-IsSetUp v m host port duration callback w),
      )
