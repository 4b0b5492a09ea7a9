-- ===== src/Subscriber/Decoupler.antt =====
-- src/subscriber.rs, `Decoupler`: it sends each value down a queue, and refuses once the queue
-- does.
use rx_rust.Base.{ℕ, Bool, true, false, Option, none}
use rx_rust.Effect.{Action, pure, ◌>>=◌}
use rx_rust.Reactive.{Subscriber, default_on_subscribe, default_on_error, default_on_complete}
use rx_rust.Sendable.{Result, ok, err, Sendable}

pub record Decoupler (Q : Type 0) : Type 0 where
  pub index : Option ℕ
  pub data_tx : Q

unfoldable pub new : {Q : Type 0} → Q → Decoupler Q
new tx = record { index = none; data_tx = tx }

abbrev pub is_ok : {A E : Type 0} → Result A E → Bool
is_ok (ok _) = true
is_ok (err _) = false

module _ {W Q I : Type 0} (q : Sendable W Q I) where
  unfoldable pub on_next : Decoupler Q → I → Action W (Decoupler Q × Bool)
  on_next s t = do r ← q.send s.data_tx t; pure (s, is_ok r)

  unfoldable pub decoupler_subscriber : Subscriber W (Decoupler Q) I
  decoupler_subscriber = record {
    on_next = on_next;
    on_subscribe = default_on_subscribe;
    on_error = default_on_error;
    on_complete = default_on_complete;
  }
