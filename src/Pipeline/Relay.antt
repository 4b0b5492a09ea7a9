-- ===== src/Pipeline/Relay.antt =====
-- Two chains joined by a channel, as in the test of src/lib.rs: the first ends in a `Decoupler`,
-- the second begins with a `Coupler`. The channel is the standard library's; what the two chains
-- rely on is the record `Channel`.
use rx_rust.Base.{
  ℕ, ◌<◌, ◌≡◌, refl, sym, ◌∙◌, ap, Bool, true, Option, none, some, List, [], ◌∷◌, ◌++◌, length,
}
use mathlib.Core.List.{append-nil, append_assoc}
use rx_rust.Effect.{done, Action, ◌>>=◌}
use rx_rust.Reactive.{Subscriber, run}
use rx_rust.Reactive.Feed.{deliver, session, mapped}
use rx_rust.Sendable.{Result, ok, SendError, channel_sendable}
use rx_rust.Processor.Tap.{lift}
use rx_rust.Publisher.IterPublisher.Delivery.{Yields}
use rx_rust.Publisher.Coupler
use rx_rust.Publisher.Coupler.{TryRecv, Coupler, coupler_publisher}
use rx_rust.Publisher.Coupler.Delivery.{receiver, watched, run-Coupler}
use rx_rust.Subscriber.Decoupler
use rx_rust.Subscriber.Decoupler.{Decoupler, decoupler_subscriber}

-- A channel with its receiver in place: values wait in the order in which they were sent, and an
-- empty channel ends when its last sender is gone.
pub record Channel (C O : Type 0) : Type 0 where
  pub send : O → C → Result (Unit {0}) (SendError O) × C
  pub take : C → Option O × C
  pub poll : C → TryRecv O × C
  pub drop_sender : C → C
  pub waiting : C → List O
  pub is_closed : C → Bool
  pub send_lem :
      (x : O) (c : C) → ((send x c).0 ≡ ok tt) × (waiting (send x c).1 ≡ waiting c ++ x ∷ [])
  pub take-cons :
      (c : C) (x : O) (xs : List O)
      → waiting c ≡ x ∷ xs
      → ((take c).0 ≡ some x) × (waiting (take c).1 ≡ xs) × (is_closed (take c).1 ≡ is_closed c)
  pub take-nil : (c : C) → waiting c ≡ [] → is_closed c ≡ true → (take c).0 ≡ none
  pub drop_sender_lem :
      (c : C) → (waiting (drop_sender c) ≡ waiting c) × (is_closed (drop_sender c) ≡ true)

module _ {C O : Type 0} (ch : Channel C O) where
  open ch use {
    send, take, poll, drop_sender, waiting, is_closed, send_lem, take-cons, take-nil,
    drop_sender_lem,
  }

  abbrev pub sender : {Q : Type 0} → Q → O → Action C (Result (Unit {0}) (SendError O))
  sender q x c = (done (send x c).0, (send x c).1)

  waiting-Yields : (xs : List O) (c : C) → waiting c ≡ xs → is_closed c ≡ true → Yields take xs c
  waiting-Yields [] c e h = take-nil c e h
  waiting-Yields (x ∷ xs) c e h =
      let (got, left, same) = take-cons c x xs e in
      (got, waiting-Yields xs (take c).1 left (same ∙ h))

  -- What is sent: every value goes through, and the channel holds them behind what it held.
  sent :
      {Q : Type 0} (q : Q) (xs : List O) (c : C)
      → (c' : C) × (session (decoupler_subscriber (channel_sendable sender)) xs (Decoupler.new q) c
          ≡ (done (Decoupler.new q), c'))
        × (waiting c' ≡ waiting c ++ xs)
  unfolding deliver decoupler_subscriber Decoupler.on_next Decoupler.new channel_sendable
  sent q [] c = (c, refl, sym (append-nil _))
  sent q (x ∷ xs) c =
      let (accepted, held) = send_lem x c in
      let (c', e, f) = sent q xs (send x c).1 in
      (
        c',
        rw accepted e,
        f ∙ ap (λ (ys : List O). ys ++ xs) held ∙ append_assoc (waiting c) (x ∷ []) xs,
      )

  -- A stream that is sent through a `Decoupler`, a channel and a `Coupler` arrives whole: the
  -- values that the channel held, then those that the `Decoupler` was given, in their order, up to
  -- the one that the far subscriber refuses, and the end of the stream if it refuses none. The
  -- sender is gone by the time that the `Coupler` runs, which ends within one round for each value
  -- and one more.
  pub relay :
      {Q R V S : Type 0} (d : Subscriber V S O) (q : Q) (rx : R) (xs : List O) (c : C) (s : S)
      (v : V) (fuel : ℕ)
      → length (waiting c ++ xs) < fuel
      → let near =
          session (decoupler_subscriber (channel_sendable sender)) xs (Decoupler.new q) c in
        (near.0 ≡ done (Decoupler.new q))
        × (watched (
              mapped
                (λ p. p.subscriber)
                ((Coupler.subscribe (lift d) (receiver take poll) (Coupler.new rx) s
                    >>= run (coupler_publisher (lift d) (receiver take poll)) fuel)
                  (drop_sender near.1, v)))
            ≡ mapped some (session d (waiting c ++ xs) s v))
  relay d q rx xs c s v fuel h =
      let (c', e, f) = sent q xs c in
      let (same, shut) = drop_sender_lem c' in
      (
        ap (λ r. r.0) e,
        rw e (
            run-Coupler d take poll rx (waiting c ++ xs) fuel (drop_sender c') s v h
              (waiting-Yields (waiting c ++ xs) (drop_sender c') (same ∙ f) shut)),
      )
