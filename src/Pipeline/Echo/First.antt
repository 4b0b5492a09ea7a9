-- ===== src/Pipeline/Echo/First.antt =====
-- The message that src/test/test.rs sends, and its way through the echo.
use mathlib.Core.List.{append-nil}
use Prim.Native.Char.{code}
use Prim.Native.String.{String}
use rx_rust.Base.{
  ℕ, ◌<◌, ◌≡◌, refl, sym, ap, ◌∙◌, Option, some, List, [], ◌∷◌, ◌++◌, map, length, length-append,
  append-cancel, All, arith,
}
use rx_rust.Effect.{done, Result, ok, err, Action, pure, panic, ◌>>=◌}
use rx_rust.NetStream.{NetStream}
use rx_rust.Protocol.{Iobuf, HasSize, protocol_size, buf_protocol, buf_protocol_impl}
use rx_rust.Reactor.Connection.{StreamBuf, parse}
use rx_rust.Reactor.Parsing.{sender, joined}
use rx_rust.Reactor.Services.{unwrap_some}
use rx_rust.Pipeline.Queues.{enqueue, accept, bufs}
use rx_rust.Pipeline.Oneway.Sending.{accepting}
use rx_rust.Pipeline.Echo.{Numbered}
use rx_rust.Pipeline.Echo.Bytes.{echoed, echo-bytes}

-- `SixtyFour`
unfoldable pub sixty_four : HasSize
unfolding protocol_size
sixty_four = protocol_size 64

-- The bytes of a text in ASCII.
abbrev pub ascii : String → List ℕ
ascii String.[] = []
ascii (String.◌∷◌ c s) = code c ∷ ascii s

abbrev pub first_bytes : List ℕ
first_bytes = ascii "AaBbCcDdEeFfGgHhIiJjKkLlMmNnOoPpQqRrSsTtUuVvWwXxYyZz012345678901"

-- `unwrap`, of what the event loop's sender answers.
abbrev pub unwrap_sent : {W E : Type 0} → Result (Unit {0}) E → Action W (Unit {0})
unwrap_sent (ok _) = pure tt
unwrap_sent (err e) = panic

-- `copy` is iobuf's copy of a text into a buffer of the allocator.
unfoldable pub send_first :
    {W Tx Rx B : Type 0}
    → (List ℕ → Option B)
    → (Tx → StreamBuf B → Action W (Result (Unit {0}) (StreamBuf B)))
    → NetStream Tx Rx
    → Action W (Unit {0})
send_first copy send cli = do
  buf ← unwrap_some (copy first_bytes)
  r ← send cli.dtx (record { buf = buf; token = cli.tok })
  unwrap_sent r

module _ {B : Type 0} (io : Iobuf B) where
  -- Messages that are as long as all bytes together: there is one.
  single :
      (size : ℕ) (bs : List B) (xs rest : List ℕ)
      → joined io bs ++ rest ≡ xs
      → length xs ≡ size
      → length rest < size
      → All (λ b. length (io.bytes b) ≡ size) bs
      → map io.bytes bs ≡ xs ∷ []
  single size [] xs rest e whole short all = absurd (omega (arith, ap length e))
  single size (b ∷ []) xs rest e whole short (sized, all) =
      let all_of_it : (io.bytes b ++ []) ++ rest ≡ xs ++ [] = e ∙ sym (append-nil xs) in
      let same : length (io.bytes b ++ []) ≡ length xs =
        ap length (append-nil (io.bytes b)) ∙ sized ∙ sym whole in
      let (front, back) = append-cancel (io.bytes b ++ []) xs same all_of_it in
      ap (λ x. x ∷ []) (sym (append-nil (io.bytes b)) ∙ front)
  single size (b ∷ b' ∷ bs) xs rest e whole short (sized, (sized', all)) = absurd (
      omega (
        arith,
        ap length e,
        length-append (joined io (b ∷ b' ∷ bs)) rest,
        length-append (io.bytes b) (joined io (b' ∷ bs)),
        length-append (io.bytes b') (joined io bs),
      ))

  -- Where iobuf copies the text into a buffer, the event loop takes all that it is given, the clock
  -- always answers and the log takes every line, the test's first message ends up as one buffer of
  -- the event loop, under the token of the connection, with the 64 bytes of the text, once its
  -- bytes have arrived in one read, `BufProtocol` has cut them into messages of the size
  -- `SixtyFour`, and the echo has taken these from the channel, with more rounds for each loop than
  -- bytes.
  pub echo-first :
      {K L Tx Rx R : Type 0} (tick : K → ℕ × K) (print : Numbered B → L → L)
      (copy : List ℕ → Option B) (cli : NetStream Tx Rx) (token : ℕ) (tx : R) (srv_rx : R)
      (fuel : ℕ) (text arrived : B) (k : K) (l : L)
      → copy first_bytes ≡ some text
      → io.bytes text ≡ first_bytes
      → io.bytes arrived ≡ joined io (bufs (send_first copy (accepting enqueue) cli []).1)
      → 64 < fuel
      → let msgs =
          (parse
            (buf_protocol_impl io sixty_four.size)
            (sender accept enqueue)
            fuel
            tx
            token
            buf_protocol
            0
            arrived
            []).1 in
        let result = echoed io tick print cli.tok cli.dtx srv_rx fuel msgs k l in
        (result.0 ≡ done tt)
        × (map io.bytes (bufs result.1.2) ≡ first_bytes ∷ [])
        × All (λ m. m.token ≡ cli.tok) result.1.2
  unfolding send_first sixty_four protocol_size
  echo-first tick print copy cli token tx srv_rx fuel text arrived k l copied bytes_text whole
        more =
      let sent : joined io (bufs (send_first copy (accepting enqueue) cli []).1) ≡ first_bytes =
        rw (copied, append-nil (io.bytes text)) bytes_text in
      let size : length (io.bytes arrived) ≡ 64 = ap length (whole ∙ sent) in
      let (rest, ended, parts, short, sized, tokens) =
        echo-bytes io tick print cli.tok token cli.dtx tx srv_rx 64 fuel arrived k l (omega arith)
          (omega (arith, size, more)) in
      (
        ended,
        single 64 _ first_bytes (io.bytes rest) (parts ∙ whole ∙ sent) refl short sized,
        tokens,
      )
