-- ===== src/Pipeline/Echo/Bytes.antt =====
-- What the echo of src/test/test.rs makes of the bytes that its server receives.
use rx_rust.Base.{
  ℕ, ◌<◌, ◌≤◌, ◌≡◌, refl, sym, ap, ◌∙◌, List, [], ◌∷◌, ◌++◌, map, length, length-append, All, arith,
  subst,
}
use rx_rust.Effect.{Outcome, done}
use rx_rust.Reactive.Feed.{mapped}
use rx_rust.Protocol.{Iobuf, buf_protocol, buf_protocol_impl}
use rx_rust.Publisher.Coupler.Delivery.{watched}
use rx_rust.Reactor.Connection.{StreamBuf, ProtoMsg, parse}
use rx_rust.Reactor.Parsing.{sender, joined, addressed, parse-Cut}
use rx_rust.Pipeline.Queues.{
  enqueue, accept, pop, peek, effects-enqueue, pop-Yields, length-addressed, bufs,
}
use rx_rust.Pipeline.Echo.{Numbered, echo}
use rx_rust.Pipeline.Echo.Answers.{World, returned, now, accepting, logging, echo-answers}

module _ {B : Type 0} (io : Iobuf B) where
  length-joined :
      (size : ℕ) (bs : List B)
      → 0 < size
      → All (λ b. length (io.bytes b) ≡ size) bs
      → length bs ≤ length (joined io bs)
  length-joined size [] pos all = omega arith
  length-joined size (b ∷ bs) pos (e, all) =
      omega
        (arith, pos, e, length-joined size bs pos all, length-append (io.bytes b) (joined io bs))

  -- A message that goes back is the message that came, under the connection's token.
  bufs-returned :
      (tok token : ℕ) (bs : List B) → bufs (map (returned tok) (map (addressed token) bs)) ≡ bs
  bufs-returned tok token [] = refl
  bufs-returned tok token (b ∷ bs) = ap (◌∷◌ b) (bufs-returned tok token bs)

  returned_tokens :
      (tok : ℕ) (ms : List (ProtoMsg B)) → All (λ m. m.token ≡ tok) (map (returned tok) ms)
  returned_tokens tok [] = tt
  returned_tokens tok (m ∷ ms) = (refl, returned_tokens tok ms)

  -- What the event loop has been given, where it had nothing.
  abbrev pub echoed :
      {K L Tx R : Type 0}
      → (K → ℕ × K)
      → (Numbered B → L → L)
      → ℕ
      → Tx
      → R
      → ℕ
      → List (ProtoMsg B)
      → K
      → L
      → Outcome (Unit {0}) × World K L (List (StreamBuf B))
  echoed tick print tok dtx srv_rx fuel ms k l = watched (
      mapped (λ _. tt)
        (echo (now tick) (accepting enqueue) (logging print) pop peek tok dtx srv_rx fuel
          (ms, (k, l, []))))

  pub echoed-addressed :
      {K L Tx R : Type 0} (tick : K → ℕ × K) (print : Numbered B → L → L) (tok token : ℕ) (dtx : Tx)
      (srv_rx : R) (fuel : ℕ) (items : List B) (k : K) (l : L)
      → length items < fuel
      → (r : Outcome (Unit {0}) × World K L (List (StreamBuf B)))
      → r ≡ echoed tick print tok dtx srv_rx fuel (map (addressed token) items) k l
      → (r.0 ≡ done tt) × (r.1.2 ≡ map (returned tok) (map (addressed token) items))
  echoed-addressed tick print tok token dtx srv_rx fuel items k l h r e =
      let ms = map (addressed token) items in
      let ends =
        e
        ∙ echo-answers tick print enqueue tok dtx pop peek srv_rx fuel ms ms k l []
            (omega (arith, h, length-addressed token items)) (pop-Yields ms) in
      (ap (λ r. r.0) ends, ap (λ r. r.1.2) ends ∙ effects-enqueue (map (returned tok) ms) [])

  -- Where messages have a size, there are more rounds for each loop than bytes, the clock always
  -- answers, and the log and the event loop take all that they are given, the bytes that arrive in
  -- one read are cut into messages by `BufProtocol`, these wait in a channel whose sender is gone
  -- after them, and the echo takes them from there and ends. What the event loop has been given are
  -- buffers of that size under the token of the connection, and their bytes are those that arrived,
  -- in order, less a rest that is shorter than a message.
  pub echo-bytes :
      {K L Tx Tx' R : Type 0} (tick : K → ℕ × K) (print : Numbered B → L → L) (tok token : ℕ)
      (dtx : Tx) (tx : Tx') (srv_rx : R) (size fuel : ℕ) (arrived : B) (k : K) (l : L)
      → 0 < size
      → length (io.bytes arrived) < fuel
      → let msgs =
          (parse
            (buf_protocol_impl io size)
            (sender accept enqueue)
            fuel
            tx
            token
            buf_protocol
            0
            arrived
            []).1 in
        let result = echoed tick print tok dtx srv_rx fuel msgs k l in
        (rest : B) × (result.0 ≡ done tt)
        × (joined io (bufs result.1.2) ++ io.bytes rest ≡ io.bytes arrived)
        × (length (io.bytes rest) < size)
        × All (λ b. length (io.bytes b) ≡ size) (bufs result.1.2)
        × All (λ m. m.token ≡ tok) result.1.2
  echo-bytes tick print tok token dtx tx srv_rx size fuel arrived k l pos enough =
      let c =
        parse-Cut io accept enqueue tx token size pos fuel 0 (omega arith) arrived [] enough in
      let count = length-joined size c.items pos c.sized in
      let got = ap (λ r. r.1) c.ended ∙ effects-enqueue (map (addressed token) c.items) [] in
      let (ends, back) =
        echoed-addressed tick print tok token dtx srv_rx fuel c.items k l
          (omega (
            arith,
            count,
            enough,
            ap length c.whole,
            length-append (joined io c.items) (io.bytes c.rest),
          ))
          _ (ap (λ ms. echoed tick print tok dtx srv_rx fuel ms k l) got) in
      let same = ap bufs back ∙ bufs-returned tok token c.items in
      (
        c.rest,
        ends,
        ap (λ bs. joined io bs ++ io.bytes c.rest) same ∙ c.whole,
        c.short,
        subst (All (λ b. length (io.bytes b) ≡ size)) (sym same) c.sized,
        subst (All (λ m. m.token ≡ tok)) (sym back)
            (returned_tokens tok (map (addressed token) c.items)),
      )
