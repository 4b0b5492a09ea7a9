-- ===== src/Processor/Unzip.antt =====
-- src/processorimpl.rs, `Unzip`: it passes on the two halves of each pair, one after the other.
pub mod Delivery
use rx_rust.Base.{ℕ, ◌+◌, ◌%◌, ◌^◌, Bool, true, false, ◌||◌, none, some, ltb, if◌then◌else◌}
use rx_rust.Effect.{Action, pure, ◌>>=◌, ◌>>◌}
use rx_rust.Reactive.{Subscriber}
use rx_rust.DefaultMacros.{
  Link, unlinked, pass_error, pass_complete, pass_subscribe, attach, relink,
}

pub record Unzip (W S I : Type 0) : Type 0 where
  pub link : Link S
  pub open link use *

module _ {W S I : Type 0} where
  unfoldable pub new : Unzip W S I
  new = record { link = unlinked }

  abbrev put : Unzip W S I → Link S → Unzip W S I
  put m l = record m { link = l }

  module _ (d : Subscriber W S I) where
    unfoldable pub subscribe : Unzip W S I → S → Action W (Unzip W S I)
    subscribe m = attach d (λ r. put m (record m.link { subscriber = r }))

    unfoldable pub on_next : Unzip W S I → (I × I) → Action W (Unzip W S I × Bool)
    on_next m t = elim m.subscriber [
      | some s ↦ do
        (s₁, first) ← d.on_next s t.0
        (s₂, second) ← d.on_next s₁ t.1
        pure (put m (record m.link { subscriber = some s₂ }), first || second)
      | none ↦ pure (m, true)
    ]

    unfoldable pub unzip_subscriber : Subscriber W (Unzip W S I) (I × I)
    unzip_subscriber = record {
      on_next = on_next;
      on_subscribe = λ m index. relink (put m) (pass_subscribe m.link index);
      on_error = λ m err. relink (put m) (pass_error d m.link err);
      on_complete = λ m force. relink (put m) (pass_complete d m.link force);
    }
