-- ===== src/NetStream/Delivery.antt =====
-- A network stream is a `Decoupler` towards the event loop and a `Coupler` from it.
use rx_rust.Base.{
  ℕ, zero, suc, ◌≡◌, refl, Bool, true, false, Option, none, some, List, [], ◌∷◌, map, if◌then◌else◌,
}
use rx_rust.Effect.{Outcome, done, panicked, out_of_fuel, Result, ok, err, Action, continue, pure}
use rx_rust.Reactive.{Subscriber, run}
use rx_rust.Reactive.Feed.{deliver, session, mapped}
use rx_rust.Sendable.{event_loop_sendable, pass_result}
use rx_rust.Subscriber.Decoupler
use rx_rust.Subscriber.Decoupler.{decoupler_subscriber}
use rx_rust.Publisher.Coupler.{Coupler, Receiver, coupler_publisher, next, on_recv, pass, hang_up}
use rx_rust.Reactor.Connection.{StreamBuf}
use rx_rust.NetStream
use rx_rust.NetStream.{NetStreamer, streamer_subscriber, streamer_publisher}

-- A buffer under the token of a connection.
abbrev pub retoken : {B : Type 0} → ℕ → StreamBuf B → StreamBuf B
retoken token b = record { buf = b.buf; token = token }

module _ {W Tx Rx S B : Type 0}
    (send : Tx → StreamBuf B → Action W (Result (Unit {0}) (StreamBuf B)))
    (p : NetStreamer Tx Rx S) where
  step_alike :
      (xs : List (StreamBuf B))
      → ((w : W)
          → deliver (streamer_subscriber send) xs p w
            ≡ mapped
                (λ q. p)
                (deliver
                  (decoupler_subscriber (event_loop_sendable send))
                  (map (retoken p.stream.tok) xs)
                  (Decoupler.new p.stream.dtx)
                  w))
      → (r : Outcome (Result (Unit {0}) (StreamBuf B)) × W)
      → continue {A = NetStreamer Tx Rx S × Bool}
          (continue r (λ r. pure (p, NetStream.is_sent r)))
          (λ a. if a.1 then deliver (streamer_subscriber send) xs a.0 else pure a.0)
        ≡ mapped
            (λ q. p)
            (continue {A = Decoupler.Decoupler Tx × Bool}
              (continue
                (continue r (λ r. pure (pass_result r)))
                (λ r. pure (Decoupler.new p.stream.dtx, Decoupler.is_ok r)))
              (λ a.
                if a.1
                then deliver
                    (decoupler_subscriber (event_loop_sendable send))
                    (map (retoken p.stream.tok) xs)
                    a.0
                else pure a.0))
  step_alike xs ih (done (ok a), w) = ih w
  step_alike xs ih (done (err b), w) = refl
  step_alike xs ih (panicked, w) = refl
  step_alike xs ih (out_of_fuel, w) = refl

  -- What is delivered to a `NetStreamer` goes to the event loop as through a `Decoupler`, each
  -- buffer under the token of the connection in place of its own; the `NetStreamer` stays as it
  -- was.
  pub session-NetStreamer :
      (xs : List (StreamBuf B)) (w : W)
      → session (streamer_subscriber send) xs p w
        ≡ mapped
            (λ q. p)
            (session
              (decoupler_subscriber (event_loop_sendable send))
              (map (retoken p.stream.tok) xs)
              (Decoupler.new p.stream.dtx)
              w)
  unfolding deliver streamer_subscriber NetStream.on_next decoupler_subscriber Decoupler.on_next
      Decoupler.new event_loop_sendable
  session-NetStreamer [] w = refl
  session-NetStreamer (x ∷ xs) w =
      step_alike xs (session-NetStreamer xs) (send p.stream.dtx (retoken p.stream.tok x) w)

-- The part of a `NetStreamer` that a `Coupler` has.
abbrev pub coupler_of : {Tx Rx S : Type 0} → NetStreamer Tx Rx S → Coupler S Rx
coupler_of p = record { data_rx = p.stream.drx; subscriber = p.subscriber }

module _ {W Tx Rx S O : Type 0} (d : Subscriber W S O) (c : Receiver W Rx O) where
  -- One round of `run`, from what a call of the far subscriber left.
  after_value :
      (fuel : ℕ) (p : NetStreamer Tx Rx S)
      → ((p : NetStreamer Tx Rx S) (w : W)
          → mapped coupler_of (run (streamer_publisher d c) fuel p w)
            ≡ run (coupler_publisher d c) fuel (coupler_of p) w)
      → (r : Outcome (S × Bool) × W)
      → mapped coupler_of (
          continue {A = NetStreamer Tx Rx S × Bool}
            (continue r (λ a. pure (record p { subscriber = some a.0 }, a.1)))
            (λ a. if a.1 then run (streamer_publisher d c) fuel a.0 else pure a.0))
        ≡ continue {A = Coupler S Rx × Bool}
            (continue r (λ a. pure (record (coupler_of p) { subscriber = some a.0 }, a.1)))
            (λ a. if a.1 then run (coupler_publisher d c) fuel a.0 else pure a.0)
  after_value fuel p ih (done (s, true), w) = ih (record p { subscriber = some s }) w
  after_value fuel p ih (done (s, false), w) = refl
  after_value fuel p ih (panicked, w) = refl
  after_value fuel p ih (out_of_fuel, w) = refl

  after_end :
      (fuel : ℕ) (p : NetStreamer Tx Rx S) (r : Outcome S × W)
      → mapped coupler_of (
          continue {A = NetStreamer Tx Rx S × Bool}
            (continue r (λ s. pure (record p { subscriber = some s }, false)))
            (λ a. if a.1 then run (streamer_publisher d c) fuel a.0 else pure a.0))
        ≡ continue {A = Coupler S Rx × Bool}
            (continue r (λ s. pure (record (coupler_of p) { subscriber = some s }, false)))
            (λ a. if a.1 then run (coupler_publisher d c) fuel a.0 else pure a.0)
  after_end fuel p (done s, w) = refl
  after_end fuel p (panicked, w) = refl
  after_end fuel p (out_of_fuel, w) = refl

  after_recv :
      (fuel : ℕ) (p : NetStreamer Tx Rx S) (s : S)
      → ((p : NetStreamer Tx Rx S) (w : W)
          → mapped coupler_of (run (streamer_publisher d c) fuel p w)
            ≡ run (coupler_publisher d c) fuel (coupler_of p) w)
      → (r : Outcome (Option O) × W)
      → mapped coupler_of (
          continue {A = NetStreamer Tx Rx S × Bool}
            (continue r (NetStream.on_recv d p s))
            (λ a. if a.1 then run (streamer_publisher d c) fuel a.0 else pure a.0))
        ≡ continue {A = Coupler S Rx × Bool}
            (continue r (on_recv d c (coupler_of p) s))
            (λ a. if a.1 then run (coupler_publisher d c) fuel a.0 else pure a.0)
  unfolding on_recv pass hang_up
  after_recv fuel p s ih (done (some x), w) = after_value fuel p ih (d.on_next s x w)
  after_recv fuel p s ih (done none, w) = after_end fuel p (d.on_complete s false w)
  after_recv fuel p s ih (panicked, w) = refl
  after_recv fuel p s ih (out_of_fuel, w) = refl

  after_next :
      (fuel : ℕ) (stream : NetStream.NetStream Tx Rx)
      → ((p : NetStreamer Tx Rx S) (w : W)
          → mapped coupler_of (run (streamer_publisher d c) fuel p w)
            ≡ run (coupler_publisher d c) fuel (coupler_of p) w)
      → (s : Option S) (w : W)
      → mapped coupler_of (
          continue {A = NetStreamer Tx Rx S × Bool}
            (NetStream.next d c (record { stream = stream; subscriber = s }) w)
            (λ a. if a.1 then run (streamer_publisher d c) fuel a.0 else pure a.0))
        ≡ continue {A = Coupler S Rx × Bool}
            (next d c (record { data_rx = stream.drx; subscriber = s }) w)
            (λ a. if a.1 then run (coupler_publisher d c) fuel a.0 else pure a.0)
  unfolding NetStream.next next
  after_next fuel stream ih none w = refl
  after_next fuel stream ih (some s) w =
      after_recv fuel (record { stream = stream; subscriber = some s }) s ih (c.recv stream.drx w)

  -- `run` of a `NetStreamer` does what `run` of a `Coupler` over the same channel and with the same
  -- subscriber does: to the world, to the subscriber, and in how it ends.
  pub run-NetStreamer :
      (fuel : ℕ) (p : NetStreamer Tx Rx S) (w : W)
      → mapped coupler_of (run (streamer_publisher d c) fuel p w)
        ≡ run (coupler_publisher d c) fuel (coupler_of p) w
  unfolding run streamer_publisher coupler_publisher
  run-NetStreamer zero p w = refl
  run-NetStreamer (suc fuel) p w = after_next fuel p.stream (run-NetStreamer fuel) p.subscriber w
