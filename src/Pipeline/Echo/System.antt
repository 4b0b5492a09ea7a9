-- ===== src/Pipeline/Echo/System.antt =====
-- The echo of src/test/test.rs and the engine of src/reactor.rs beside it, as one system: each goes
-- on whenever it can, in any order, and messages arrive between what they do. The test's two
-- connections are the ends of one: there, what arrives is what was written before.
pub mod Taking
pub mod Flow
pub mod Starting
pub mod Reading
pub mod Arriving
pub mod Sending
pub mod Conserved
pub mod Completed
use rx_rust.Base.{ℕ, ◌≤◌, ◌≡◌, Bool, false, List, [], ◌∷◌, ◌++◌, sym, length, All, subst}
use mathlib.Core.List.{append_assoc, append-nil}
use rx_rust.Effect.{done}
use rx_rust.Processor.Tap.{lift}
use rx_rust.Publisher.Coupler.{Coupler, next}
use rx_rust.Publisher.Coupler.Delivery.{receiver}
use rx_rust.Reactor.Connection.{StreamBuf, ProtoMsg}
use rx_rust.Reactor.Services.{Kinds, Services, Slabs}
use rx_rust.Reactor.Engine.{EngineInner, NetEngineConfig}
use rx_rust.Reactor.Engine.Receiving.{Peer, least, encoded}
use rx_rust.Reactor.Engine.Loop.{can_read, can_write, notified, handle}
use rx_rust.Pipeline.Queues.{enqueue, pop, peek}
use rx_rust.Pipeline.Echo.{Numbered, Map1, map1}
use rx_rust.Pipeline.Echo.Answers.{World, now, logging, accepting}
use rx_rust.Pipeline.Echo.Wire.{buffered}

-- The coupler with the chain behind it.
abbrev pub Echo : Type 0 → Type 0 → Type 0 → Type 0 → Type 0 → Type 0
Echo K L Dtx R B = Coupler (Map1 (World K L (List (StreamBuf B))) Dtx B) R

-- What one read will bring: whole messages, with no more bytes than every buffer has room for.
abbrev pub Comes :
    (k : Kinds) (v : Services (buffered k)) (tx : k.Tx)
    → Peer v tx
    → NetEngineConfig (buffered k)
    → List k.Buf
    → Type 0
Comes k v tx peer cfg os = All peer.IsMessage os × (length (encoded v tx peer os) ≤ least cfg)

-- The engine with its world, the channel between its receiver and the echo, the echo with its clock
-- and its log, and what it has asked the event loop to send.
pub record State (k : Kinds) (l : Slabs) (K L Dtx R : Type 0) : Type 0 where
  pub engine : EngineInner (buffered k) l
  pub world : k.World
  pub channel : List (ProtoMsg k.Buf)
  pub coupler : Echo K L Dtx R k.Buf
  pub clock : K
  pub log : L
  pub asked : List (StreamBuf k.Buf)

module _ (k : Kinds) {l : Slabs} (v : Services (buffered k)) (tx : k.Tx) (peer : Peer v tx)
    {K L Dtx R : Type 0} (tick : K → ℕ × K) (print : Numbered k.Buf → L → L) (t tok fuel : ℕ) where
  -- The engine handles an event: a socket can be read, on which there are messages to come, and
  -- what its receiver is sent is in the channel; a message that it was asked to send; or a socket
  -- can be written. Or the echo takes a message from the channel.
  pub data Step (s : State k l K L Dtx R) : State k l K L Dtx R → Type 0 where
    reads :
        (hint : k.Hint) (os : List k.Buf) (later : List (List k.Buf)) (new : List (ProtoMsg k.Buf))
        (e' : EngineInner (buffered k) l) (w' : k.World)
        → v.contains_huphint hint ≡ false
        → peer.unread s.world ≡ os ∷ later
        → handle v fuel (can_read t hint) s.engine s.world ≡ (done e', w')
        → peer.got w' ≡ peer.got s.world ++ new
        → Step s (record s { engine = e'; world = w'; channel = s.channel ++ new })
    takes :
        (m : ProtoMsg k.Buf) (ms channel' : List (ProtoMsg k.Buf)) (p' : Echo K L Dtx R k.Buf)
        (more : Bool) (clock' : K) (log' : L) (asked' : List (StreamBuf k.Buf))
        → s.channel ≡ m ∷ ms
        → next
            (lift (map1 (now tick) (accepting enqueue) (logging print)))
            (receiver pop peek)
            s.coupler
            (s.channel, (s.clock, s.log, s.asked))
          ≡ (done (p', more), (channel', (clock', log', asked')))
        → Step s (record s {
          coupler = p';
          channel = channel';
          clock = clock';
          log = log';
          asked = asked';
        })
    sends :
        (b : StreamBuf k.Buf) (bs : List (StreamBuf k.Buf)) (e' : EngineInner (buffered k) l)
        (w' : k.World)
        → s.asked ≡ b ∷ bs
        → handle v fuel (notified b) s.engine s.world ≡ (done e', w')
        → Step s (record s { engine = e'; world = w'; asked = bs })
    writes :
        (e' : EngineInner (buffered k) l) (w' : k.World)
        → handle v fuel (can_write tok) s.engine s.world ≡ (done e', w')
        → Step s (record s { engine = e'; world = w' })

  -- Any number of steps, one after the other, between which messages arrive, to be read behind those
  -- that are there: in all, those of the list. They may have been written in steps before, where the
  -- connections are the ends of one.
  pub data Steps (s : State k l K L Dtx R) : List k.Buf → State k l K L Dtx R → Type 0 where
    stop : Steps s [] s
    further :
        {came : List k.Buf} {s' s'' : State k l K L Dtx R}
        → Steps s came s'
        → Step s' s''
        → Steps s came s''
    arrives :
        {came : List k.Buf} {s' : State k l K L Dtx R} (os : List k.Buf) (w' : k.World)
        → Steps s came s'
        → Comes k v tx peer s'.engine.config os
        → peer.unread w' ≡ peer.unread s'.world ++ os ∷ []
        → peer.got w' ≡ peer.got s'.world
        → peer.out w' ≡ peer.out s'.world
        → Steps s (came ++ os) (record s' { world = w' })

  pub both :
      {came : List k.Buf} {s s' : State k l K L Dtx R} {later : List k.Buf}
      {s'' : State k l K L Dtx R}
      → Steps s came s'
      → Steps s' later s''
      → Steps s (came ++ later) s''
  both {came = came} {s = s} {s' = s'} steps stop =
      subst (λ came. Steps s came s') (sym (append-nil came)) steps
  both steps (further more step) = further (both steps more) step
  both {came = came} {s = s} steps
        (arrives {came = later} {s' = s'} os w' more comes next same aside) =
      subst (λ came. Steps s came (record s' { world = w' })) (append_assoc came later os)
        (arrives os w' (both steps more) comes next same aside)
