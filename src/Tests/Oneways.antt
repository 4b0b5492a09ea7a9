-- ===== src/Tests/Oneways.antt =====
-- The messages of the tests in src/net_stream.rs at concrete inputs. A buffer is a list of bytes.
use rx_rust.Base.{ℕ, ◌≡◌, refl, some, Option, List, [], ◌∷◌, arith}
use rx_rust.Effect.{done}
use rx_rust.Reactive.Feed.{mapped}
use rx_rust.Reactor.Connection.{parse}
use rx_rust.Reactor.Parsing.{sender, joined}
use rx_rust.NetStream.U64Protocol.{
  to_bytes, encoded, u64_protocol, u64_protocol_impl, isize_to_strbuf,
}
use rx_rust.Publisher.Coupler.Delivery.{watched}
use rx_rust.Subscriber.Collect
use rx_rust.Subscriber.Collect.{Collect}
use rx_rust.Processor.Map
use rx_rust.Processor.DoDebug
use rx_rust.Subscriber.Decoupler
use rx_rust.Publisher.Repeat
use rx_rust.Sendable.{event_loop_sendable}
use rx_rust.Pipeline.Oneway.{receive, collected_by, link_sender, next_times}
use rx_rust.Pipeline.Queues.{enqueue, accept, pop, peek, bufs}
use rx_rust.Pipeline.Oneway.Whole.{given, oneway-Collect}
use rx_rust.Tests.Reactors.{lists}

-- Five times the value 5, of which three are taken.
abbrev five : List ℕ
five = to_bytes 8 5

abbrev copy : List ℕ → Option (List ℕ)
copy b = some b

given_bytes :
    encoded (5 ∷ 5 ∷ 5 ∷ 5 ∷ 5 ∷ []) ≡ joined lists (bufs (given {Tx = Unit {0}} copy 1 5 tt 5))
unfolding link_sender next_times DoDebug.subscribe DoDebug.do_debug_subscriber DoDebug.on_next
    Decoupler.decoupler_subscriber Decoupler.on_next Map.subscribe Map.new Map.map_subscriber
    Map.on_next Repeat.subscribe Repeat.next Repeat.new isize_to_strbuf event_loop_sendable
given_bytes = refl

oneway-Collect_example :
    let msgs =
      (parse
        (u64_protocol_impl lists)
        (sender accept enqueue)
        6
        tt
        1
        u64_protocol
        0
        (encoded (5 ∷ 5 ∷ 5 ∷ 5 ∷ 5 ∷ []))
        []).1 in
    watched (mapped collected_by (receive pop peek tt 3 6 (Collect.new []) (msgs, tt)))
    ≡ (done (some (Collect.new (5 ∷ 5 ∷ 5 ∷ []))), tt)
oneway-Collect_example =
    oneway-Collect lists copy 5 (omega arith) five refl refl tt tt tt 5 3 1 1 6
      (encoded (5 ∷ 5 ∷ 5 ∷ 5 ∷ 5 ∷ [])) tt (omega arith) (omega arith) given_bytes
