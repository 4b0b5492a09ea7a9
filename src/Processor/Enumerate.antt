-- ===== src/Processor/Enumerate.antt =====
-- src/processorimpl.rs, `Enumerate`: it pairs each value with its number, a `u64`, which wraps.
pub mod Delivery
use rx_rust.Base.{ℕ, ◌+◌, ◌%◌, ◌^◌, Bool, true, false, ◌||◌, none, some, ltb, if◌then◌else◌}
use rx_rust.Effect.{Action, pure, ◌>>=◌, ◌>>◌}
use rx_rust.Reactive.{Subscriber}
use rx_rust.DefaultMacros.{
  Link, unlinked, pass_error, pass_complete, pass_subscribe, attach, relink,
}

pub record Enumerate (W S I : Type 0) : Type 0 where
  pub count : ℕ
  pub link : Link S
  pub open link use *

module _ {W S I : Type 0} where
  unfoldable pub new : Enumerate W S I
  new = record { count = 0; link = unlinked }

  abbrev put : Enumerate W S I → Link S → Enumerate W S I
  put m l = record m { link = l }

  module _ (d : Subscriber W S (I × ℕ)) where
    unfoldable pub subscribe : Enumerate W S I → S → Action W (Enumerate W S I)
    subscribe m = attach d (λ r. put m (record m.link { subscriber = r }))

    unfoldable pub on_next : Enumerate W S I → I → Action W (Enumerate W S I × Bool)
    on_next m t = elim m.subscriber [
      | some s ↦ do
        (s', more) ← d.on_next s (t, m.count)
        pure (
          record m {
            count = (m.count + 1) % 2 ^ 64;
            link = record m.link { subscriber = some s' };
          },
          more,
        )
      | none ↦ pure (m, true)
    ]

    unfoldable pub enumerate_subscriber : Subscriber W (Enumerate W S I) I
    enumerate_subscriber = record {
      on_next = on_next;
      on_subscribe = λ m index. relink (put m) (pass_subscribe m.link index);
      on_error = λ m err. relink (put m) (pass_error d m.link err);
      on_complete = λ m force. relink (put m) (pass_complete d m.link force);
    }
