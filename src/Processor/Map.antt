-- ===== src/Processor/Map.antt =====
-- src/processorimpl.rs, `Map`: it applies a function to each value.
pub mod Delivery
use rx_rust.Base.{ℕ, ◌+◌, ◌%◌, ◌^◌, Bool, true, false, ◌||◌, none, some, ltb, if◌then◌else◌}
use rx_rust.Effect.{Action, pure, ◌>>=◌, ◌>>◌}
use rx_rust.Reactive.{Subscriber}
use rx_rust.DefaultMacros.{
  Link, unlinked, pass_error, pass_complete, pass_subscribe, attach, relink,
}

pub record Map (W S I O : Type 0) : Type 0 where
  pub fun : I → Action W O
  pub link : Link S
  pub open link use *

module _ {W S I O : Type 0} where
  unfoldable pub new : (I → Action W O) → Map W S I O
  new f = record { fun = f; link = unlinked }

  abbrev put : Map W S I O → Link S → Map W S I O
  put m l = record m { link = l }

  module _ (d : Subscriber W S O) where
    unfoldable pub subscribe : Map W S I O → S → Action W (Map W S I O)
    subscribe m = attach d (λ r. put m (record m.link { subscriber = r }))

    unfoldable pub on_next : Map W S I O → I → Action W (Map W S I O × Bool)
    on_next m t = elim m.subscriber [
      | some s ↦ do
        o ← m.fun t
        (s', more) ← d.on_next s o
        pure (put m (record m.link { subscriber = some s' }), more)
      | none ↦ pure (m, true)
    ]

    unfoldable pub map_subscriber : Subscriber W (Map W S I O) I
    map_subscriber = record {
      on_next = on_next;
      on_subscribe = λ m index. relink (put m) (pass_subscribe m.link index);
      on_error = λ m err. relink (put m) (pass_error d m.link err);
      on_complete = λ m force. relink (put m) (pass_complete d m.link force);
    }
