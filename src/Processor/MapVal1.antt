-- ===== src/Processor/MapVal1.antt =====
-- src/processorimpl.rs, `MapVal1`: it applies a function to each value and a fixed one.
pub mod Delivery
use rx_rust.Base.{ℕ, ◌+◌, ◌%◌, ◌^◌, Bool, true, false, ◌||◌, none, some, ltb, if◌then◌else◌}
use rx_rust.Effect.{Action, pure, ◌>>=◌, ◌>>◌}
use rx_rust.Reactive.{Subscriber}
use rx_rust.DefaultMacros.{
  Link, unlinked, pass_error, pass_complete, pass_subscribe, attach, relink,
}

pub record MapVal1 (W S I V O : Type 0) : Type 0 where
  pub fun : I → V → Action W O
  pub val : V
  pub link : Link S
  pub open link use *

module _ {W S I V O : Type 0} where
  unfoldable pub new : V → (I → V → Action W O) → MapVal1 W S I V O
  new v f = record { fun = f; val = v; link = unlinked }

  abbrev put : MapVal1 W S I V O → Link S → MapVal1 W S I V O
  put m l = record m { link = l }

  module _ (d : Subscriber W S O) where
    unfoldable pub subscribe : MapVal1 W S I V O → S → Action W (MapVal1 W S I V O)
    subscribe m = attach d (λ r. put m (record m.link { subscriber = r }))

    unfoldable pub on_next : MapVal1 W S I V O → I → Action W (MapVal1 W S I V O × Bool)
    on_next m t = elim m.subscriber [
      | some s ↦ do
        o ← m.fun t m.val
        (s', more) ← d.on_next s o
        pure (put m (record m.link { subscriber = some s' }), more)
      | none ↦ pure (m, true)
    ]

    unfoldable pub map_val1_subscriber : Subscriber W (MapVal1 W S I V O) I
    map_val1_subscriber = record {
      on_next = on_next;
      on_subscribe = λ m index. relink (put m) (pass_subscribe m.link index);
      on_error = λ m err. relink (put m) (pass_error d m.link err);
      on_complete = λ m force. relink (put m) (pass_complete d m.link force);
    }
