-- ===== src/NetStream.antt =====
-- src/net_stream.rs: a connection as the clients of the engine see it. What is sent goes to the
-- event loop under the token of the connection, and what arrives comes from a channel.
pub mod Delivery
pub mod U64Protocol
use rx_rust.Base.{ℕ, Bool, true, false, Option, none, some}
use rx_rust.Effect.{Result, ok, err, Action, pure, ◌>>=◌}
use rx_rust.Reactive.{
  Subscriber, Publisher, default_on_subscribe, default_on_error, default_on_complete,
  default_try_next,
}
use rx_rust.DefaultMacros.{attach}
use rx_rust.Publisher.Coupler.{Receiver}
use rx_rust.Reactor.Connection.{StreamBuf}

pub record NetStream (Tx Rx : Type 0) : Type 0 where
  pub dtx : Tx
  pub drx : Rx
  pub tok : ℕ

unfoldable pub new : {Tx Rx : Type 0} → ℕ → Rx → Tx → NetStream Tx Rx
new tok drx dtx = record { dtx = dtx; drx = drx; tok = tok }

pub record NetStreamer (Tx Rx S : Type 0) : Type 0 where
  pub stream : NetStream Tx Rx
  pub subscriber : Option S

-- The match on the answer of the sender.
abbrev pub is_sent : {A E : Type 0} → Result A E → Bool
is_sent (ok _) = true
is_sent (err _) = false

module _ {W Tx Rx S B : Type 0} where
  -- `send` is what the event loop's sender does.
  module _ (send : Tx → StreamBuf B → Action W (Result (Unit {0}) (StreamBuf B))) where
    unfoldable pub on_next :
        NetStreamer Tx Rx S → StreamBuf B → Action W (NetStreamer Tx Rx S × Bool)
    on_next p b = do
      r ← send p.stream.dtx (record { buf = b.buf; token = p.stream.tok })
      pure (p, is_sent r)

    unfoldable pub streamer_subscriber : Subscriber W (NetStreamer Tx Rx S) (StreamBuf B)
    streamer_subscriber = record {
      on_next = on_next;
      on_subscribe = default_on_subscribe;
      on_error = default_on_error;
      on_complete = default_on_complete;
    }

module _ {W Tx Rx S O : Type 0} (d : Subscriber W S O) where
  unfoldable pub subscribe : NetStreamer Tx Rx S → S → Action W (NetStreamer Tx Rx S)
  subscribe p = attach d (λ r. record p { subscriber = r })

  -- The match on what `recv` answers.
  abbrev pub on_recv : NetStreamer Tx Rx S → S → Option O → Action W (NetStreamer Tx Rx S × Bool)
  on_recv p s (some x) = do
    (s', more) ← d.on_next s x
    pure (record p { subscriber = some s' }, more)
  on_recv p s none = do s' ← d.on_complete s false; pure (record p { subscriber = some s' }, false)

  unfoldable pub next :
      Receiver W Rx O → NetStreamer Tx Rx S → Action W (NetStreamer Tx Rx S × Bool)
  next c p = elim p.subscriber [
    | some s ↦ do r ← c.recv p.stream.drx; on_recv p s r
    | none ↦ pure (p, false)
  ]

  unfoldable pub streamer_publisher : Receiver W Rx O → Publisher W (NetStreamer Tx Rx S)
  streamer_publisher c = record { next = next c; try_next = default_try_next }
