-- ===== src/Processor/Take.antt =====
-- src/processorimpl.rs, `Take`: it passes on the first `max` values and then ends the stream.
-- `count` is a `usize`, which wraps.
pub mod Delivery
pub mod Ending
use rx_rust.Base.{ℕ, ◌+◌, ◌%◌, ◌^◌, Bool, true, false, ◌||◌, none, some, ltb, if◌then◌else◌}
use rx_rust.Effect.{Action, pure, ◌>>=◌, ◌>>◌}
use rx_rust.Reactive.{Subscriber}
use rx_rust.DefaultMacros.{
  Link, unlinked, pass_error, pass_complete, pass_subscribe, attach, relink,
}

pub record Take (W S O : Type 0) : Type 0 where
  pub count : ℕ
  pub max : ℕ
  pub notified : Bool
  pub link : Link S
  pub open link use *

module _ {W S O : Type 0} where
  unfoldable pub new : ℕ → Take W S O
  new limit = record { count = 0; max = limit; notified = false; link = unlinked }

  abbrev put : Take W S O → Link S → Take W S O
  put m l = record m { link = l }

  module _ (d : Subscriber W S O) where
    unfoldable pub subscribe : Take W S O → S → Action W (Take W S O)
    subscribe m = attach d (λ r. put m (record m.link { subscriber = r }))

    -- The branches that follow the increment of `count`.
    counted : Take W S O → S → O → Action W (Take W S O × Bool)
    counted m s t =
        if ltb m.max m.count
        then (do
          s' ← d.on_complete s false
          pure (record m { notified = true; link = record m.link { subscriber = some s' } }, false))
        else (do
          (s', more) ← d.on_next s t
          pure (put m (record m.link { subscriber = some s' }), more))

    unfoldable pub on_next : Take W S O → O → Action W (Take W S O × Bool)
    unfolding counted
    on_next m t = elim m.subscriber [
      | some s ↦ counted (record m { count = (m.count + 1) % 2 ^ 64 }) s t
      | none ↦ pure (m, true)
    ]

    unfoldable pub take_subscriber : Subscriber W (Take W S O) O
    take_subscriber = record {
      on_next = on_next;
      on_subscribe = λ m index. relink (put m) (pass_subscribe m.link index);
      on_error = λ m err. relink (put m) (pass_error d m.link err);
      on_complete = λ m force. relink (put m) (pass_complete d m.link force);
    }
