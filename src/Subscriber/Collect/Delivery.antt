-- ===== src/Subscriber/Collect/Delivery.antt =====
-- What a `Collect` holds in the end.
use mathlib.Core.List.{append-nil, append_assoc}
use rx_rust.Base.{◌≡◌, List, [], ◌∷◌, ◌++◌}
use rx_rust.Effect.{done}
use rx_rust.Reactive.Feed.{deliver, session}
use rx_rust.Subscriber.Collect.{new, on_next, collect_subscriber}

module _ {W I : Type 0} where
  from :
      (xs ys : List I) (w : W)
      → deliver collect_subscriber xs (new ys) w ≡ (done (new (ys ++ xs)), w)
  unfolding deliver collect_subscriber on_next new
  from [] ys w = rw append-nil
  from (x ∷ xs) ys w = simp (from xs (ys ++ x ∷ []) w, append_assoc)

  -- Everything that is delivered to a `Collect` is in its vector in the end, behind what the vector
  -- held before, and in the order of delivery.
  pub session-Collect :
      (xs ys : List I) (w : W)
      → session collect_subscriber xs (new ys) w ≡ (done (new (ys ++ xs)), w)
  unfolding collect_subscriber
  session-Collect xs ys w = from xs ys w
