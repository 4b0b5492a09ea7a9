-- ===== src/Tests/Streams.antt =====
-- A network stream at concrete inputs. The queue of the event loop and the channel are lists.
use rx_rust.Base.{ℕ, ◌≡◌, Bool, true, Option, none, some, List, [], ◌∷◌}
use rx_rust.Effect.{Outcome, done, Result, ok, err, Action}
use rx_rust.Reactive.{run}
use rx_rust.Reactive.Feed.{mapped}
use rx_rust.Subscriber.Collect
use rx_rust.Subscriber.Collect.{Collect, collect_subscriber}
use rx_rust.Publisher.Coupler.{Receiver, disconnected, coupler_publisher}
use rx_rust.Reactor.Connection.{StreamBuf}
use rx_rust.NetStream.{NetStreamer, new, streamer_publisher}
use rx_rust.NetStream.Delivery.{coupler_of, run-NetStreamer}

-- The event loop takes two messages and refuses the third one.
abbrev Notes : Type 0
Notes = List (StreamBuf ℕ)

abbrev send : Bool → StreamBuf ℕ → Action Notes (Result (Unit {0}) (StreamBuf ℕ))
send q b [] = (done (ok tt), b ∷ [])
send q b (x ∷ []) = (done (ok tt), x ∷ b ∷ [])
send q b (x ∷ y ∷ w) = (done (err b), x ∷ y ∷ w)

abbrev streamer : NetStreamer Bool Bool (Collect ℕ)
streamer = record { stream = new 300 true true; subscriber = some (Collect.new []) }

abbrev bufs : List (StreamBuf ℕ)
bufs =
    record { buf = 5; token = 0 }
    ∷ record { buf = 6; token = 0 }
    ∷ record { buf = 7; token = 0 }
    ∷ []

abbrev take_first : List ℕ → Outcome (Option ℕ) × List ℕ
take_first [] = (done none, [])
take_first (x ∷ w) = (done (some x), w)

abbrev channel : Receiver (List ℕ) Bool ℕ
channel = record { recv = λ rx w. take_first w; try_recv = λ rx w. (done disconnected, w) }

run-NetStreamer_example :
    mapped coupler_of (run (streamer_publisher collect_subscriber channel) 9 streamer (5 ∷ 6 ∷ []))
    ≡ run (coupler_publisher collect_subscriber channel) 9 (coupler_of streamer) (5 ∷ 6 ∷ [])
run-NetStreamer_example = run-NetStreamer collect_subscriber channel 9 streamer (5 ∷ 6 ∷ [])
