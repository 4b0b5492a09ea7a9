-- ===== src/Pipeline/Oneway/Whole.antt =====
-- Both chains of the test `oneway_test`, and the wire between them.
use mathlib.Core.List.{append-nil}
use rx_rust.Base.{
  ℕ, zero, suc, ◌^◌, ◌<◌, ◌≡◌, refl, sym, ap, ◌∙◌, Option, some, List, [], ◌∷◌, map, length,
  replicate, length-replicate, take, All, arith,
}
use rx_rust.Effect.{done, ◌>>=◌}
use rx_rust.Reactive.Feed.{mapped}
use rx_rust.Protocol.{Iobuf}
use rx_rust.Publisher.Coupler.Delivery.{watched}
use rx_rust.Subscriber.Collect
use rx_rust.Reactor.Connection.{StreamBuf, parse}
use rx_rust.Reactor.Parsing.{sender, joined, addressed}
use rx_rust.NetStream.U64Protocol.{
  to_bytes, encoded, u64_protocol, u64_protocol_impl, parse-encoded,
}
use rx_rust.Pipeline.Queues.{
  enqueue, accept, pop, peek, effects-enqueue, pop-Yields, length-addressed, bufs,
}
use rx_rust.Pipeline.Oneway.{link_sender, next_times, receive, collected_by}
use rx_rust.Pipeline.Oneway.Sending.{accepting, silent, next_times-link_sender}
use rx_rust.Pipeline.Oneway.Receiving.{receive-Collect}

take-addressed :
    (token n : ℕ) (vs : List ℕ) → map (λ m. m.msg) (take n (map (addressed token) vs)) ≡ take n vs
take-addressed token zero vs = refl
take-addressed token (suc n) [] = refl
take-addressed token (suc n) (v ∷ vs) = ap (◌∷◌ v) (take-addressed token n vs)

All-replicate : (n v : ℕ) → v < 2 ^ 64 → All (λ v. v < 2 ^ 64) (replicate n v)
All-replicate zero v h = tt
All-replicate (suc n) v h = (h, All-replicate n v h)

-- What the event loop has been given, where it had nothing.
abbrev pub given : {B Tx : Type 0} → (List ℕ → Option B) → ℕ → ℕ → Tx → ℕ → List (StreamBuf B)
given copy token v dtx n =
    ((link_sender copy (accepting enqueue) silent token v dtx
        >>= next_times copy (accepting enqueue) silent n)
      []).1

module _ {B : Type 0} (io : Iobuf B) (copy : List ℕ → Option B) (v : ℕ) (small : v < 2 ^ 64) (b : B)
    (copied : copy (to_bytes 8 v) ≡ some b) (bytes_b : io.bytes b ≡ to_bytes 8 v) where
  joined-encoded :
      (n token : ℕ)
      → joined io (bufs (replicate n (record { buf = b; token = token }))) ≡ encoded (replicate n v)
  joined-encoded zero token = refl
  joined-encoded (suc n) token = rw (bytes_b, joined-encoded n token) refl

  given-encoded :
      {Tx : Type 0} (token n : ℕ) (dtx : Tx)
      → joined io (bufs (given copy token v dtx n)) ≡ encoded (replicate n v)
  given-encoded {Tx} token n dtx =
      let m : StreamBuf B = record { buf = b; token = token } in
      let queue : given {Tx = Tx} copy token v dtx n ≡ replicate n m =
        ap (λ r. r.1) (next_times-link_sender copy enqueue token dtx v b copied n [])
        ∙ effects-enqueue (replicate n m) [] in
      ap (λ q. joined io (bufs q)) queue ∙ joined-encoded n token

  -- A value below 2 ^ 64, whose bytes iobuf copies into a buffer, is sent some number of times, and
  -- there is fuel for one round more; what the event loop is given arrives, as bytes, in one read
  -- at the other end; the messages that are cut from them go to a channel whose sender is gone
  -- after them, and from there to the receiver's chain, which ends.
  -- Then the vector holds the value, as often as it was sent, but no more often than the limit
  -- says, which is below 2 ^ 64 - 1.
  pub oneway-Collect :
      {Tx Rx Tx' V : Type 0} (dtx : Tx) (rx : Rx) (tx : Tx') (n limit token token' fuel : ℕ)
      (arrived : B) (w : V)
      → suc limit < 2 ^ 64
      → n < fuel
      → io.bytes arrived ≡ joined io (bufs (given copy token v dtx n))
      → let msgs =
          (parse
            (u64_protocol_impl io)
            (sender accept enqueue)
            fuel
            tx
            token'
            u64_protocol
            0
            arrived
            []).1 in
        watched (mapped collected_by (receive pop peek rx limit fuel (Collect.new []) (msgs, w)))
        ≡ (done (some (Collect.new (take limit (replicate n v)))), w)
  oneway-Collect dtx rx tx n limit token token' fuel arrived w fits h whole =
      let vs = replicate n v in
      let enough : length vs < fuel = omega (arith, h, length-replicate n v) in
      let (rest, cut, _) =
        parse-encoded io accept enqueue tx token' vs [] fuel 0 arrived [] (All-replicate n v small)
          (omega arith) enough (omega arith)
          (whole ∙ given-encoded token n dtx ∙ sym (append-nil (encoded vs))) in
      rw (cut, effects-enqueue (map (addressed token') vs) [])
        (receive-Collect pop peek rx limit fuel (map (addressed token') vs)
            (map (addressed token') vs) [] w fits
            (omega (arith, enough, length-addressed token' vs))
            (pop-Yields (map (addressed token') vs))
          ∙ rw (take-addressed token' limit vs) refl)
