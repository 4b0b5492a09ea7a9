-- ===== src/Subscriber/StdoutSubscriber.antt =====
-- src/subscriber.rs, `StdoutSubscriber`: it prints each value. How a value is printed is a
-- parameter.
use rx_rust.Base.{ℕ, Bool, true, Option, none}
use rx_rust.Effect.{Action, pure, ◌>>◌}
use rx_rust.Reactive.{Subscriber, default_on_subscribe, default_on_error, default_on_complete}

pub record StdoutSubscriber : Type 0 where
  pub index : Option ℕ

unfoldable pub new : StdoutSubscriber
new = record { index = none }

module _ {W A : Type 0} (println : A → Action W (Unit {0})) where
  unfoldable pub on_next : StdoutSubscriber → A → Action W (StdoutSubscriber × Bool)
  on_next s t = do println t; pure (s, true)

  unfoldable pub stdout_subscriber : Subscriber W StdoutSubscriber A
  stdout_subscriber = record {
    on_next = on_next;
    on_subscribe = default_on_subscribe;
    on_error = default_on_error;
    on_complete = default_on_complete;
  }
