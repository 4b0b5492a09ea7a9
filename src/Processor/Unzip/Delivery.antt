-- ===== src/Processor/Unzip/Delivery.antt =====
-- What the subscriber of an `Unzip` gets.
use rx_rust.Base.{none, ◌≡◌, refl, true, false, Option, some, List, [], ◌∷◌}
use rx_rust.Effect.{Outcome, done, panicked, out_of_fuel, pure, continue, ◌>>=◌}
use rx_rust.Reactive.{Subscriber}
use rx_rust.Reactive.Feed.{deliver, session, mapped}
use rx_rust.DefaultMacros.{Link}
use rx_rust.Processor.Unzip.{Unzip, put, new, subscribe, on_next, unzip_subscriber}

-- The halves of the pairs, one after the other.
abbrev pub halves : {I : Type 0} → List (I × I) → List I
halves [] = []
halves (x ∷ xs) = x.0 ∷ x.1 ∷ halves xs

abbrev pub unzipping : {W S I : Type 0} → S → Unzip W S I
unzipping s = record { link = record { subscriber = some s; index = some 0 } }

-- A subscriber that takes every value.
abbrev pub AcceptsAll : {W S I : Type 0} → Subscriber W S I → Type 0
AcceptsAll {W} {S} {I} d =
    (s : S) (x : I) (w : W) → (s' : S) × (w' : W) × (d.on_next s x w ≡ (done (s', true), w'))

module _ {W S I : Type 0} (d : Subscriber W S I) where
  completed :
      (s : S) (r : Outcome S × W)
      → mapped {B = Option S}
          (λ m. m.subscriber)
          (continue
            (continue {B = Link S} r (λ s'. pure (record { subscriber = some s'; index = some 0 })))
            (λ l. pure (put (unzipping {W = W} {I = I} s) l)))
        ≡ mapped some r
  completed s (done s', w) = refl
  completed s (panicked, w) = refl
  completed s (out_of_fuel, w) = refl

  pub from :
      AcceptsAll d
      → (xs : List (I × I)) (s : S) (w : W)
      → mapped (λ m. m.subscriber) (deliver (unzip_subscriber d) xs (unzipping s) w)
        ≡ mapped some (deliver d (halves xs) s w)
  unfolding deliver on_next unzip_subscriber
  from h [] s w = completed s (d.on_complete s false w)
  from h (x ∷ xs) s w =
      let (s₁, w₁, first) = h s x.0 w in
      let (s₂, w₂, second) = h s₁ x.1 w₁ in rw (first, second) (from h xs s₂ w₂)

  started :
      AcceptsAll d
      → (xs : List (I × I)) (r : Outcome S × W)
      → mapped
          (λ m. m.subscriber)
          (continue {A = Unzip W S I}
            (continue r
              (λ s. pure (record { link = record { subscriber = some s; index = none } })))
            (session (unzip_subscriber d) xs))
        ≡ mapped some (continue r (deliver d (halves xs)))
  unfolding unzip_subscriber
  started h xs (done s, w) = from h xs s w
  started h xs (panicked, w) = refl
  started h xs (out_of_fuel, w) = refl

  -- A subscriber of `Unzip` that takes every value gets the halves of the pairs in their order, and
  -- then the end of the stream.
  pub deliver-Unzip :
      AcceptsAll d
      → (xs : List (I × I)) (s : S) (w : W)
      → mapped (λ m. m.subscriber) ((subscribe d new s >>= session (unzip_subscriber d) xs) w)
        ≡ mapped some (session d (halves xs) s w)
  unfolding new subscribe
  deliver-Unzip h xs s w = started h xs (d.on_subscribe s 0 w)

  -- Where the subscriber takes the first half of a pair and refuses the second, the refusal is
  -- lost: the delivery goes on with the next pair.
  pub deliver-Unzip_refused :
      (x : I × I) (xs : List (I × I)) (s s₁ s₂ : S) (w w₁ w₂ : W)
      → d.on_next s x.0 w ≡ (done (s₁, true), w₁)
      → d.on_next s₁ x.1 w₁ ≡ (done (s₂, false), w₂)
      → deliver (unzip_subscriber d) (x ∷ xs) (unzipping s) w
        ≡ deliver (unzip_subscriber d) xs (unzipping s₂) w₂
  unfolding deliver on_next unzip_subscriber
  deliver-Unzip_refused x xs s s₁ s₂ w w₁ w₂ first second = rw (first, second)
