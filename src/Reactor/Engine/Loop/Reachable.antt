-- ===== src/Reactor/Engine/Loop/Reachable.antt =====
-- What holds of every engine that calls and events lead to.
use rx_rust.Base.{ℕ, ◌≡◌, refl, sym, ◌∙◌, Bool, true, false, Option, none, some}
use rx_rust.Effect.{done, OnDone-done}
use rx_rust.Reactor.Services.{Kinds, Services, Slabs}
use rx_rust.Reactor.Engine.{NetEngineConfig, EngineInner, new}
use rx_rust.Reactor.Engine.Events.{timeout}
use rx_rust.Reactor.Engine.Opening.Endings.{Connects, connect-Connects, Listens, listen-Listens}
use rx_rust.Reactor.Engine.Loop.{
  Event, can_read, can_write, notified, timed_out, handle, Step, connects, listens, sets_timeout,
  handles, Reach, start, later,
}
use rx_rust.Reactor.Engine.Loop.Timers.{
  IsArmed, Same, Same-IsArmed, Connects-Same, Listens-Same, readable-Same, writable-Same,
  notify-Same, timeout-IsArmed, set_timeout-IsArmed,
}

module _ {k : Kinds} {l : Slabs} (v : Services k) (fuel : ℕ) where
  handle-IsArmed :
      (ev : Event k) (e e' : EngineInner k l) (w w' : k.World)
      → handle v fuel ev e w ≡ (done e', w')
      → IsArmed e
      → IsArmed e'
  unfolding handle
  handle-IsArmed (can_read token hint) e e' w w' h a =
      Same-IsArmed e e' (OnDone-done (Same e) _ e' w' h (readable-Same v fuel e token hint w)) a
  handle-IsArmed (can_write token) e e' w w' h a =
      Same-IsArmed e e' (OnDone-done (Same e) _ e' w' h (writable-Same v fuel e token w)) a
  handle-IsArmed (notified msg) e e' w w' h a =
      Same-IsArmed e e' (OnDone-done (Same e) _ e' w' h (notify-Same v fuel e msg w)) a
  handle-IsArmed (timed_out token) e e' w w' h a =
      OnDone-done IsArmed _ e' w' h (timeout-IsArmed v fuel e token w a)

  Step-IsArmed : {e e' : EngineInner k l} → Step v fuel e e' → IsArmed e → IsArmed e'
  Step-IsArmed {e} {e'} (connects host port r w w' h) a =
      Same-IsArmed e e'
        (Connects-Same e e' r
          (OnDone-done (Connects e) _ (e', r) w' h (connect-Connects v e host port w)))
        a
  Step-IsArmed {e} {e'} (listens addr port r w w' h) a =
      Same-IsArmed e e'
        (Listens-Same e e' r
          (OnDone-done (Listens e) _ (e', r) w' h (listen-Listens v e addr port w)))
        a
  Step-IsArmed {e} {e'} (sets_timeout duration callback w w' h) a =
      OnDone-done IsArmed _ e' w' h (set_timeout-IsArmed v fuel e duration callback w a)
  Step-IsArmed {e} {e'} (handles ev w w' h) a = handle-IsArmed ev e e' w w' h a

  Reach-IsArmed : (cfg : NetEngineConfig k) {e : EngineInner k l} → Reach v fuel cfg e → IsArmed e
  unfolding new
  Reach-IsArmed cfg start = record {
    armed = λ tok t h.
        let impossible : none ≡ some t = sym (l.get-starting_at 129 255 tok) ∙ h in absurd (cc);
  }
  Reach-IsArmed cfg (later r s) = Step-IsArmed s (Reach-IsArmed cfg r)

  -- In every engine that comes of a new one by calls and events that it survives, in any order, a
  -- timeout that is there is handled without a panic, whatever its callback answers, where the
  -- callback and the clearing of a timer themselves end: the callback is kept as the call left it,
  -- and everything else is as it was.
  pub timeout-Reach :
      (cfg : NetEngineConfig k) (e : EngineInner k l) (tok : ℕ) (t : k.Callback × Option k.Handle)
      (cb : k.Callback) (more : Bool) (w w' : k.World)
      → Reach v fuel cfg e
      → l.get e.timeouts tok ≡ some t
      → v.call_back t.0 w ≡ (done (cb, more), w')
      → ((h : k.Handle) (w : k.World)
          → (b : Bool) × (w' : k.World) × (v.clear_timeout h w ≡ (done b, w')))
      → (last : k.World) × (timeout v e tok w
          ≡ (done (record e { timeouts = l.store e.timeouts tok (cb, t.1) }), last))
  unfolding timeout
  timeout-Reach cfg e tok t cb true w w' r here called clears = (w', rw (here, called) refl)
  timeout-Reach cfg e tok t cb false w w' r here called clears =
      let (h, armed) = (Reach-IsArmed cfg r).armed tok t here in
      let (b, last, cleared) = clears h w' in (last, rw (here, called, armed, cleared) refl)
