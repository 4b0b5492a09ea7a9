-- ===== src/Processor/DebugWhile.antt =====
-- src/processorimpl.rs, `DebugWhile`: it prints the values that pass a test, and passes all on.
pub mod Delivery
use rx_rust.Base.{ℕ, ◌+◌, ◌%◌, ◌^◌, Bool, true, false, ◌||◌, none, some, ltb, if◌then◌else◌}
use rx_rust.Effect.{Action, pure, ◌>>=◌, ◌>>◌}
use rx_rust.Reactive.{Subscriber}
use rx_rust.DefaultMacros.{
  Link, unlinked, pass_error, pass_complete, pass_subscribe, attach, relink,
}

pub record DebugWhile (W S I : Type 0) : Type 0 where
  pub fun : I → Action W Bool
  pub link : Link S
  pub open link use *

module _ {W S I : Type 0} where
  unfoldable pub new : (I → Action W Bool) → DebugWhile W S I
  new f = record { fun = f; link = unlinked }

  abbrev put : DebugWhile W S I → Link S → DebugWhile W S I
  put m l = record m { link = l }

  module _ (d : Subscriber W S I) (println : I → Action W (Unit {0})) where
    unfoldable pub subscribe : DebugWhile W S I → S → Action W (DebugWhile W S I)
    subscribe m = attach d (λ r. put m (record m.link { subscriber = r }))

    unfoldable pub on_next : DebugWhile W S I → I → Action W (DebugWhile W S I × Bool)
    on_next m t = elim m.subscriber [
      | some s ↦ do
        holds ← m.fun t
        if holds then println t else pure tt
        (s', more) ← d.on_next s t
        pure (put m (record m.link { subscriber = some s' }), more)
      | none ↦ pure (m, true)
    ]

    unfoldable pub debug_while_subscriber : Subscriber W (DebugWhile W S I) I
    debug_while_subscriber = record {
      on_next = on_next;
      on_subscribe = λ m index. relink (put m) (pass_subscribe m.link index);
      on_error = λ m err. relink (put m) (pass_error d m.link err);
      on_complete = λ m force. relink (put m) (pass_complete d m.link force);
    }
