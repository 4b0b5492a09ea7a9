-- ===== src/Processor/Tee.antt =====
-- src/processorimpl.rs, `Tee`: it sends a copy of each value down a queue, and passes the value on.
pub mod Delivery
use rx_rust.Base.{ℕ, ◌+◌, ◌%◌, ◌^◌, Bool, true, false, ◌||◌, none, some, ltb, if◌then◌else◌}
use rx_rust.Effect.{Action, pure, ◌>>=◌, ◌>>◌}
use rx_rust.Reactive.{Subscriber}
use rx_rust.DefaultMacros.{
  Link, unlinked, pass_error, pass_complete, pass_subscribe, attach, relink,
}
use rx_rust.Sendable.{Sendable}

pub record Tee (W S Q I : Type 0) : Type 0 where
  pub data_tx : Q
  pub link : Link S
  pub open link use *

module _ {W S Q I : Type 0} where
  unfoldable pub new : Q → Tee W S Q I
  new tx = record { data_tx = tx; link = unlinked }

  abbrev put : Tee W S Q I → Link S → Tee W S Q I
  put m l = record m { link = l }

  module _ (d : Subscriber W S I) (q : Sendable W Q I) where
    unfoldable pub subscribe : Tee W S Q I → S → Action W (Tee W S Q I)
    subscribe m = attach d (λ r. put m (record m.link { subscriber = r }))

    unfoldable pub on_next : Tee W S Q I → I → Action W (Tee W S Q I × Bool)
    on_next m t = elim m.subscriber [
      | some s ↦ do
        _ ← q.send m.data_tx t
        (s', more) ← d.on_next s t
        pure (put m (record m.link { subscriber = some s' }), more)
      | none ↦ pure (m, true)
    ]

    unfoldable pub tee_subscriber : Subscriber W (Tee W S Q I) I
    tee_subscriber = record {
      on_next = on_next;
      on_subscribe = λ m index. relink (put m) (pass_subscribe m.link index);
      on_error = λ m err. relink (put m) (pass_error d m.link err);
      on_complete = λ m force. relink (put m) (pass_complete d m.link force);
    }
