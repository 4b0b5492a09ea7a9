-- ===== src/Tests/Echoes.antt =====
-- The echo of src/test/test.rs at concrete inputs. A buffer is a list of bytes, the clock counts.
use rx_rust.Base.{ℕ, ◌+◌, ◌<◌, ◌≡◌, refl, some, List, [], ◌∷◌, ◌++◌, map, length, All, arith}
use rx_rust.Effect.{done}
use rx_rust.Reactive.Feed.{mapped}
use rx_rust.Protocol.{buf_protocol, buf_protocol_impl}
use rx_rust.Processor.Tap.{effects}
use rx_rust.Publisher.Coupler.Delivery.{watched}
use rx_rust.Reactor.Connection.{ProtoMsg, parse}
use rx_rust.Reactor.Parsing.{sender, joined, addressed}
use rx_rust.Pipeline.Queues.{enqueue, accept, pop, peek, bufs}
use rx_rust.Pipeline.Echo.{Numbered, echo}
use rx_rust.Pipeline.Echo.Answers.{
  clock_after, timed, traced, returned, now, accepting, logging, echo-answers,
}
use rx_rust.Pipeline.Echo.Bytes.{echoed, echo-bytes}
use rx_rust.NetStream.{NetStream}
use rx_rust.Pipeline.Echo.First.{sixty_four, first_bytes, send_first, echo-first}
use rx_rust.Tests.Reactors.{lists}

abbrev tick : ℕ → ℕ × ℕ
tick k = (k, k + 1)

abbrev print : Numbered (List ℕ) → List ℕ → List ℕ
print x l = l ++ x.1 ∷ []

abbrev two_messages : List (ProtoMsg (List ℕ))
two_messages = map (addressed 3) ((1 ∷ 2 ∷ []) ∷ (3 ∷ 4 ∷ []) ∷ [])

echo-answers_example :
    watched (
      mapped
        (λ _. tt)
        (echo
          (now tick)
          (accepting enqueue)
          (logging print)
          pop
          peek
          9
          tt
          tt
          3
          (two_messages, (100, [], []))))
    ≡ (
      done tt,
      (
        clock_after tick two_messages 100,
        effects print (traced 0 (timed tick two_messages 100)) [],
        effects enqueue (map (returned 9) two_messages) [],
      ),
    )
echo-answers_example =
    echo-answers tick print enqueue 9 tt pop peek tt 3 two_messages two_messages 100 [] []
      (omega arith) (refl, (refl, refl))

-- The number that is printed, the readings of the clock, and the buffers that go back.
answers :
    ((clock_after tick two_messages 100) ≡ 102)
    × (effects print (traced 0 (timed tick two_messages 100)) [] ≡ 0 ∷ [])
    × (effects enqueue (map (returned 9) two_messages) []
        ≡ record { buf = 1 ∷ 2 ∷ []; token = 9 } ∷ record { buf = 3 ∷ 4 ∷ []; token = 9 } ∷ [])
unfolding clock_after timed traced
answers = (refl, refl, refl)

-- Five bytes, and messages of two: the last byte stays behind.
abbrev five : List ℕ
five = 1 ∷ 2 ∷ 3 ∷ 4 ∷ 5 ∷ []

echo-bytes_example :
    let msgs =
      (parse (buf_protocol_impl lists 2) (sender accept enqueue) 6 tt 3 buf_protocol 0 five []).1 in
    let result = echoed lists tick print 9 tt tt 6 msgs 100 [] in
    (rest : List ℕ) × (result.0 ≡ done tt)
    × (joined lists (bufs result.1.2) ++ rest ≡ five)
    × (length rest < 2)
    × All (λ b. length b ≡ 2) (bufs result.1.2)
    × All (λ m. m.token ≡ 9) result.1.2
echo-bytes_example =
    echo-bytes lists tick print 9 3 tt tt tt 2 6 five 100 [] (omega arith) (omega arith)

-- The test's first message, whole.
abbrev cli : NetStream (Unit {0}) (Unit {0})
cli = record { dtx = tt; drx = tt; tok = 9 }

first_back :
    let msgs =
      (parse
        (buf_protocol_impl lists sixty_four.size)
        (sender accept enqueue)
        65
        tt
        3
        buf_protocol
        0
        first_bytes
        []).1 in
    let result = echoed lists tick print 9 tt tt 65 msgs 100 [] in
    (result.0 ≡ done tt)
    × (map (λ b. b) (bufs result.1.2) ≡ first_bytes ∷ [])
    × All (λ m. m.token ≡ 9) result.1.2
unfolding send_first
first_back =
    echo-first lists tick print (λ b. some b) cli 3 tt tt 65 first_bytes first_bytes 100 [] refl
      refl refl (omega arith)
