-- ===== src/Processor/Reduce.antt =====
-- src/processorimpl.rs, `Reduce`: it steps a state by each value, and passes on what the step puts
-- out.
pub mod Delivery
use rx_rust.Base.{ℕ, ◌+◌, ◌%◌, ◌^◌, Bool, true, false, ◌||◌, none, some, ltb, if◌then◌else◌}
use rx_rust.Effect.{Action, pure, ◌>>=◌, ◌>>◌}
use rx_rust.Reactive.{Subscriber}
use rx_rust.DefaultMacros.{
  Link, unlinked, pass_error, pass_complete, pass_subscribe, attach, relink,
}

pub record Reduce (W S I V O : Type 0) : Type 0 where
  pub fun : V → I → Action W (V × O)
  pub state : V
  pub link : Link S
  pub open link use *

module _ {W S I V O : Type 0} where
  unfoldable pub new : V → (V → I → Action W (V × O)) → Reduce W S I V O
  new initial f = record { fun = f; state = initial; link = unlinked }

  abbrev put : Reduce W S I V O → Link S → Reduce W S I V O
  put m l = record m { link = l }

  module _ (d : Subscriber W S O) where
    unfoldable pub subscribe : Reduce W S I V O → S → Action W (Reduce W S I V O)
    subscribe m = attach d (λ r. put m (record m.link { subscriber = r }))

    unfoldable pub passed : Reduce W S I V O → O → Action W (Reduce W S I V O × Bool)
    passed m outval = elim m.subscriber [
      | some s ↦ do
        (s', more) ← d.on_next s outval
        pure (put m (record m.link { subscriber = some s' }), more)
      | none ↦ pure (m, true)
    ]

    unfoldable pub on_next : Reduce W S I V O → I → Action W (Reduce W S I V O × Bool)
    unfolding passed
    on_next m t = do
      (newstate, outval) ← m.fun m.state t
      passed (record m { state = newstate }) outval

    unfoldable pub reduce_subscriber : Subscriber W (Reduce W S I V O) I
    reduce_subscriber = record {
      on_next = on_next;
      on_subscribe = λ m index. relink (put m) (pass_subscribe m.link index);
      on_error = λ m err. relink (put m) (pass_error d m.link err);
      on_complete = λ m force. relink (put m) (pass_complete d m.link force);
    }
