-- ===== src/Pipeline/Queues.antt =====
-- Queues and channels as lists, between the chains of the tests, and what waits in them.
use mathlib.Core.List.{append-nil, append_assoc}
use rx_rust.Base.{
  ℕ, suc, ◌≡◌, refl, sym, ap, ◌∙◌, Option, none, some, List, [], ◌∷◌, ◌++◌, map, length,
}
use rx_rust.Effect.{Result, ok}
use rx_rust.Sendable.{SendError}
use rx_rust.Processor.Tap.{effects}
use rx_rust.Publisher.IterPublisher.Delivery.{Yields}
use rx_rust.Publisher.Coupler.{TryRecv, received, disconnected}
use rx_rust.Reactor.Connection.{StreamBuf}
use rx_rust.Reactor.Parsing.{addressed}

-- What is sent waits behind what was sent before, and the sender of an
-- empty channel is gone.
abbrev pub enqueue : {A : Type 0} → A → List A → List A
enqueue m q = q ++ m ∷ []

abbrev pub accept : {A : Type 0} → A → List A → Result (Unit {0}) (SendError A)
accept m q = ok tt

abbrev pub pop : {A : Type 0} → List A → Option A × List A
pop [] = (none, [])
pop (m ∷ q) = (some m, q)

abbrev pub peek : {A : Type 0} → List A → TryRecv A × List A
peek [] = (disconnected, [])
peek (m ∷ q) = (received m, q)

pub effects-enqueue : {A : Type 0} (ms q : List A) → effects enqueue ms q ≡ q ++ ms
effects-enqueue [] q = sym (append-nil q)
effects-enqueue (m ∷ ms) q = effects-enqueue ms (q ++ m ∷ []) ∙ append_assoc q (m ∷ []) ms

pub pop-Yields : {A : Type 0} (q : List A) → Yields pop q q
pop-Yields [] = refl
pop-Yields (m ∷ q) = (refl, pop-Yields q)

pub length-addressed :
    {B : Type 0} (token : ℕ) (vs : List B) → length (map (addressed token) vs) ≡ length vs
length-addressed token [] = refl
length-addressed token (v ∷ vs) = ap suc (length-addressed token vs)

abbrev pub bufs : {B : Type 0} → List (StreamBuf B) → List B
bufs = map (λ m. m.buf)
