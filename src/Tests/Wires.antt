-- ===== src/Tests/Wires.antt =====
-- The echo between two connections of one engine, at concrete inputs: the receiver of
-- Tests/Receivers, with a second connection.
use rx_rust.Base.{ℕ, suc, ◌≡◌, refl, sym, some, List, [], ◌∷◌, ◌++◌, arith}
use rx_rust.Effect.{done, ok}
use rx_rust.Reactor.Connection
use rx_rust.Reactor.Connection.{ProtoMsg, StreamBuf}
use rx_rust.Protocol.{buf_protocol_impl, append}
use rx_rust.Reactor.Draining.{Wrote, queued}
use rx_rust.Reactor.Engine.{Conn, EngineInner, new, new_buf, connection}
use rx_rust.Reactor.Engine.Events
use rx_rust.Reactor.Engine.Loop.{Event, can_write, notified, handle, handle_all}
use rx_rust.Reactor.Engine.Loop.Sent.{to_send}
use rx_rust.Pipeline.Echo.{Numbered}
use rx_rust.Pipeline.Echo.Wire.{echo-wire}
use rx_rust.Pipeline.Echo.Bytes.{echoed, echoed-addressed}
use rx_rust.Tests.Slabs.{slabs}
use rx_rust.Tests.Reactors.{lists}
use rx_rust.Tests.Receivers
use rx_rust.Tests.Receivers.{World, kinds, services, peer, coming, comes, events}

pub writes : (s : ℕ) (b : List ℕ) (w : World) → Wrote lists (λ w. w.2) b w (services.write s b w)
writes s [] w = (omega arith, λ h. h, refl, refl)
writes s (x ∷ []) w = (omega arith, λ h. omega arith, refl, refl)
writes s (x ∷ y ∷ b) w = (omega arith, λ h. omega arith, refl, refl)

reregisters :
    (s t : ℕ) (i : List ℕ) (w : World)
    → (w' : World) × (services.reregister s t i w ≡ (done (ok tt), w')) × (w'.2 ≡ w.2)
reregisters s t i w = ((w.0, w.1, w.2, (t, i) ∷ w.3), refl, refl)

-- The connection of the client, on which nothing waits.
abbrev pub client : Conn kinds
client = connection services 8 tt ([], 100)

abbrev pub before : EngineInner kinds slabs
before = record Receivers.engine { conns = some Receivers.conn ∷ some client ∷ [] }

abbrev starting : World
starting = ([], coming, [], [])

-- The engine and the world once the messages are there, and the events that send them back.
abbrev read_conn : Conn kinds
read_conn = record Receivers.conn { buf = ([], 1536); marker = 0; interest = 4 ∷ 1 ∷ 1 ∷ [] }

abbrev between : EngineInner kinds slabs
between = record before { conns = some read_conn ∷ some client ∷ [] }

abbrev arrived : List (ProtoMsg (List ℕ))
arrived = record { msg = 1 ∷ 2 ∷ []; token = 0 } ∷ record { msg = 3 ∷ 4 ∷ []; token = 0 } ∷ []

abbrev got : World
got = (arrived, ((5 ∷ 6 ∷ []) ∷ []) ∷ [], [], (0, 4 ∷ 1 ∷ 1 ∷ []) ∷ (0, 4 ∷ 1 ∷ []) ∷ [])

all_read : handle_all services 12 events before starting ≡ (done between, got)
unfolding handle_all handle Events.readable Events.readable_connection Events.read_from
    Events.receive Events.refill Events.drop_or_watch Events.watch Connection.new Connection.parse
    buf_protocol_impl append new new_buf
all_read = refl

abbrev back : ℕ → List ℕ → StreamBuf (List ℕ)
back t b = record { buf = b; token = t }

abbrev answers : List (Event kinds)
answers = notified (back 1 (1 ∷ 2 ∷ [])) ∷ can_write 1 ∷ notified (back 1 (3 ∷ 4 ∷ [])) ∷ []

-- The clock counts, and the log counts what is printed.
abbrev pub tick : ℕ → ℕ × ℕ
tick n = (n, suc n)

abbrev pub print : Numbered (List ℕ) → ℕ → ℕ
print x n = suc n

asked_back : to_send answers ≡ (echoed lists tick print 1 tt tt 9 arrived 0 0).1.2
asked_back =
    sym
      (echoed-addressed lists tick print 1 0 tt tt 9 ((1 ∷ 2 ∷ []) ∷ (3 ∷ 4 ∷ []) ∷ []) 0 0
        (omega arith) _ refl).1

echo-wire_example :
    ((echoed lists tick print 1 tt tt 9 arrived 0 0).0 ≡ done tt)
    × ((e₂ : EngineInner kinds slabs) × (c₂ : Conn kinds) × (w₂ : World) × (handle_all services 12
            answers between got
          ≡ (done e₂, w₂))
        × (slabs.get e₂.conns 1 ≡ some c₂)
        × (w₂.2 ++ queued lists (λ (w : World). w.2) c₂.outbuf ≡ 1 ∷ 2 ∷ 3 ∷ 4 ∷ []))
unfolding new Connection.new
echo-wire_example =
    echo-wire kinds services tt peer (λ b. refl) (λ w. w.2) {l = slabs} comes writes reregisters
      tick print tt tt 9 0 0 12 0 1 events answers (((1 ∷ 2 ∷ []) ∷ (3 ∷ 4 ∷ []) ∷ []) ∷ [] ∷ [])
      (((5 ∷ 6 ∷ []) ∷ []) ∷ []) before between Receivers.conn client starting got
      (refl, refl, (refl, refl, tt)) refl refl
      (((refl, (refl, tt)), omega arith, omega arith), ((tt, omega arith, omega arith), tt))
      (omega arith) refl refl refl refl (omega arith) (omega arith) refl all_read (omega arith)
      (refl, (refl, (refl, tt))) asked_back (λ e. absurd (omega (arith, e))) refl refl (omega arith)
