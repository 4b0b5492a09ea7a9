-- ===== src/Subscriber/Collect.antt =====
-- src/subscriber.rs, `Collect`: it appends each value to a vector that it has borrowed, and that is
-- its own for as long as it lives.
pub mod Delivery
use rx_rust.Base.{ℕ, Bool, true, Option, none, List, [], ◌∷◌, ◌++◌}
use rx_rust.Effect.{Action, pure, ◌>>=◌}
use rx_rust.Reactive.{Subscriber, default_on_subscribe, default_on_error, default_on_complete}

pub record Collect (I : Type 0) : Type 0 where
  pub index : Option ℕ
  pub val : List I

unfoldable pub new : {I : Type 0} → List I → Collect I
new v = record { index = none; val = v }

module _ {W I : Type 0} where
  unfoldable pub on_next : Collect I → I → Action W (Collect I × Bool)
  on_next s t = pure (record s { val = s.val ++ t ∷ [] }, true)

  unfoldable pub collect_subscriber : Subscriber W (Collect I) I
  collect_subscriber = record {
    on_next = on_next;
    on_subscribe = default_on_subscribe;
    on_error = default_on_error;
    on_complete = default_on_complete;
  }
