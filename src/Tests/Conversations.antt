-- ===== src/Tests/Conversations.antt =====
-- Two engines at concrete inputs: the sender of Tests/Engines and the receiver of Tests/Receivers.
use rx_rust.Base.{ℕ, ◌≡◌, refl, List, [], ◌∷◌, map, arith}
use rx_rust.Effect.{done}
use rx_rust.Reactor.Connection.{StreamBuf, drain}
use rx_rust.Reactor.Connection
use rx_rust.Reactor.Parsing.{addressed}
use rx_rust.Reactor.Engine.{EngineInner, new}
use rx_rust.Reactor.Engine.Events.{notify, flush, await_write}
use rx_rust.Reactor.Engine.Loop.{Event, notified, handle, handle_all}
use rx_rust.Pipeline.Conversation.{Framed, conversation}
use rx_rust.Tests.Slabs.{slabs}
use rx_rust.Tests.Reactors.{write_byte-Wrote}
use rx_rust.Tests.Engines
use rx_rust.Tests.Receivers
use rx_rust.Tests.Receivers.{World, comes}

-- One buffer with two messages of two bytes.
abbrev buffer : StreamBuf (List ℕ)
buffer = record { buf = 1 ∷ 2 ∷ 3 ∷ 4 ∷ []; token = 1 }

abbrev asked : List (Event Engines.kinds)
asked = notified buffer ∷ []

handled :
    handle_all Engines.services 40 asked Engines.engine []
    ≡ (done Engines.engine, 1 ∷ 2 ∷ 3 ∷ 4 ∷ [])
unfolding handle_all handle notify flush await_write drain Connection.new
handled = refl

abbrev framed : Framed Receivers.services tt Receivers.peer 2
framed = record { positive = omega arith; sized = λ o h. h; injective = λ o o' h h' e. e }

conversation_example :
    (e₂ : EngineInner Receivers.kinds slabs) × (w₂ : World) × (handle_all Receivers.services 5
        Receivers.events Receivers.engine
        ([], Receivers.coming, [], [])
      ≡ (done e₂, w₂))
    × (w₂.0 ≡ map (addressed 0) ((1 ∷ 2 ∷ []) ∷ (3 ∷ 4 ∷ []) ∷ []))
    × (w₂.1 ≡ ((5 ∷ 6 ∷ []) ∷ []) ∷ [])
unfolding Connection.new new
conversation_example =
    conversation {l = slabs} {l' = slabs} Engines.services (λ w. w) write_byte-Wrote
      Engines.reregisters Receivers.services tt Receivers.peer comes 2 framed 40 1 5 0 asked
      Engines.engine Engines.engine Engines.conn Engines.conn [] (1 ∷ 2 ∷ 3 ∷ 4 ∷ [])
      Receivers.events Receivers.engine Receivers.conn ([], Receivers.coming, [], [])
      ((1 ∷ 2 ∷ []) ∷ (3 ∷ 4 ∷ []) ∷ []) (((1 ∷ 2 ∷ []) ∷ (3 ∷ 4 ∷ []) ∷ []) ∷ [] ∷ [])
      (((5 ∷ 6 ∷ []) ∷ []) ∷ []) (refl, tt) refl refl refl (omega arith) handled refl refl
      (refl, (refl, tt)) refl refl (refl, refl, (refl, refl, tt)) refl refl
      (((refl, (refl, tt)), omega arith, omega arith), ((tt, omega arith, omega arith), tt))
      (omega arith) refl refl refl refl (omega arith) (omega arith)
