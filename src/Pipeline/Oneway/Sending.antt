-- ===== src/Pipeline/Oneway/Sending.antt =====
-- What the sender's chain hands to the event loop.
use rx_rust.Base.{ℕ, zero, suc, ◌≡◌, refl, Option, some, List, replicate}
use rx_rust.Effect.{done, Result, ok, Action, pure, ◌>>=◌}
use rx_rust.DefaultMacros.{Link}
use rx_rust.Sendable.{event_loop_sendable}
use rx_rust.Processor.Tap.{effects}
use rx_rust.Processor.Map
use rx_rust.Processor.Map.{map_subscriber}
use rx_rust.Processor.DoDebug
use rx_rust.Processor.DoDebug.{do_debug_subscriber}
use rx_rust.Publisher.Repeat
use rx_rust.Publisher.Repeat.{Repeat}
use rx_rust.Subscriber.Decoupler
use rx_rust.Subscriber.Decoupler.{decoupler_subscriber}
use rx_rust.Reactor.Connection.{StreamBuf}
use rx_rust.NetStream.U64Protocol.{to_bytes, isize_to_strbuf}
use rx_rust.Pipeline.Oneway.{Map1, link_sender, next_times}

-- An event loop that takes every message, and no log.
abbrev pub accepting : {W Tx M : Type 0} → (M → W → W) → Tx → M → Action W (Result (Unit {0}) M)
accepting put q m w = (done (ok tt), put m w)

abbrev pub silent : {W M : Type 0} → M → Action W (Unit {0})
silent m = pure tt

module _ {W Tx B : Type 0} (copy : List ℕ → Option B) (put : StreamBuf B → W → W) (tok : ℕ)
    (dtx : Tx) (v : ℕ) (b : B) (copied : copy (to_bytes 8 v) ≡ some b) where
  abbrev linked : {S : Type 0} → S → Link S
  linked s = record { subscriber = some s; index = some 0 }

  -- The chain as the links leave it, which no value changes.
  abbrev chain : Repeat (Map1 W Tx B) ℕ
  chain = record {
    val = v;
    subscriber = some (record {
      fun = isize_to_strbuf copy;
      link = linked (record {
        fun = λ m. pure (record { buf = m.buf; token = tok });
        link =
            linked
              (record { link = record { subscriber = some (Decoupler.new dtx); index = some 0 } });
      });
    });
  }

  next_times-chain :
      (n : ℕ) (w : W)
      → next_times copy (accepting put) silent n chain w
        ≡ (done chain, effects put (replicate n (record { buf = b; token = tok })) w)
  unfolding next_times Repeat.next map_subscriber Map.on_next isize_to_strbuf do_debug_subscriber
      DoDebug.on_next decoupler_subscriber Decoupler.on_next event_loop_sendable
  next_times-chain zero w = refl
  next_times-chain (suc n) w =
      rw copied (next_times-chain n (put (record { buf = b; token = tok }) w))

  -- Each call of `next` hands one buffer to the event loop, with the bytes of the value, and under
  -- the token of the connection.
  pub next_times-link_sender :
      (n : ℕ) (w : W)
      → (link_sender copy (accepting put) silent tok v dtx
            >>= next_times copy (accepting put) silent n)
          w
        ≡ (done chain, effects put (replicate n (record { buf = b; token = tok })) w)
  unfolding link_sender DoDebug.subscribe DoDebug.new Map.subscribe Map.new Repeat.subscribe
      Repeat.new map_subscriber do_debug_subscriber decoupler_subscriber
  next_times-link_sender n w = next_times-chain n w
