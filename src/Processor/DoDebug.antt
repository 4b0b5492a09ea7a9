-- ===== src/Processor/DoDebug.antt =====
-- src/processorimpl.rs, `DoDebug`: it prints each value that it passes on.
pub mod Delivery
use rx_rust.Base.{ℕ, ◌+◌, ◌%◌, ◌^◌, Bool, true, false, ◌||◌, none, some, ltb, if◌then◌else◌}
use rx_rust.Effect.{Action, pure, ◌>>=◌, ◌>>◌}
use rx_rust.Reactive.{Subscriber}
use rx_rust.DefaultMacros.{
  Link, unlinked, pass_error, pass_complete, pass_subscribe, attach, relink,
}

pub record DoDebug (W S I : Type 0) : Type 0 where
  pub link : Link S
  pub open link use *

module _ {W S I : Type 0} where
  unfoldable pub new : DoDebug W S I
  new = record { link = unlinked }

  abbrev put : DoDebug W S I → Link S → DoDebug W S I
  put m l = record m { link = l }

  module _ (d : Subscriber W S I) (println : I → Action W (Unit {0})) where
    unfoldable pub subscribe : DoDebug W S I → S → Action W (DoDebug W S I)
    subscribe m = attach d (λ r. put m (record m.link { subscriber = r }))

    unfoldable pub on_next : DoDebug W S I → I → Action W (DoDebug W S I × Bool)
    on_next m t = elim m.subscriber [
      | some s ↦ do
        println t
        (s', more) ← d.on_next s t
        pure (put m (record m.link { subscriber = some s' }), more)
      | none ↦ pure (m, true)
    ]

    unfoldable pub do_debug_subscriber : Subscriber W (DoDebug W S I) I
    do_debug_subscriber = record {
      on_next = on_next;
      on_subscribe = λ m index. relink (put m) (pass_subscribe m.link index);
      on_error = λ m err. relink (put m) (pass_error d m.link err);
      on_complete = λ m force. relink (put m) (pass_complete d m.link force);
    }
