-- ===== src/Reactive/Feed.antt =====
-- What a publisher promises its subscriber: a list of values, one at a time, as long as the
-- subscriber answers true, and then the end of the stream if it never answered false.
use rx_rust.Base.{◌≡◌, refl, false, List, [], ◌∷◌, if◌then◌else◌}
use rx_rust.Effect.{Outcome, done, panicked, out_of_fuel, Action, pure, continue, ◌>>=◌}
use rx_rust.Reactive.{Subscriber}

unfoldable pub deliver : {W S I : Type 0} → Subscriber W S I → List I → S → Action W S
deliver d [] s w = d.on_complete s false w
deliver d (x ∷ xs) s w =
    (do (s', more) ← d.on_next s x; if more then deliver d xs s' else pure s') w

-- A whole subscription: the subscriber is given its index, and then the values.
abbrev pub session : {W S I : Type 0} → Subscriber W S I → List I → S → Action W S
session d xs s = d.on_subscribe s 0 >>= deliver d xs

-- A call's result with a function applied to its value.
abbrev pub mapped : {W A B : Type 0} → (A → B) → Outcome A × W → Outcome B × W
mapped f (done a, w) = (done (f a), w)
mapped f (panicked, w) = (panicked, w)
mapped f (out_of_fuel, w) = (out_of_fuel, w)

-- A call whose value is only changed.
pub mapped-continue :
    {W A B : Type 0} (f : A → B) (r : Outcome A × W) → continue r (λ a. pure (f a)) ≡ mapped f r
mapped-continue f (done a, w) = refl
mapped-continue f (panicked, w) = refl
mapped-continue f (out_of_fuel, w) = refl
