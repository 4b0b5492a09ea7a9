-- ===== src/Reactor/Engine/Framing.antt =====
-- What `notify` and `writable` leave alone: whatever of the world writing to a socket and
-- registering it do not touch.
use rx_rust.Base.{
  ℕ, zero, suc, ◌≡◌, refl, ◌∙◌, Bool-cases, Option-cases, inl, inr, List, [], ◌∷◌, ◌++◌, ltb,
  length,
}
use rx_rust.Effect.{Outcome, done, panicked, out_of_fuel, ok, err, Action, pure, continue, ◌>>=◌}
use rx_rust.Reactor.Connection.{StreamBuf, drain, after_write}
use rx_rust.Reactor.Services.{Kinds, Services, Slabs, Answer, unwrap_answer}
use rx_rust.Reactor.Engine.{Conn, EngineInner}
use rx_rust.Reactor.Engine.Events.{watch, await_write, flush, writable, notify}

-- A call after another one, neither of which touches what is looked at.
keeps-continue :
    {W A B X : Type 0} (f : W → X) (w : W) (r : Outcome A × W) (g : A → Action W B)
    → f r.1 ≡ f w
    → ((a : A) (w' : W) → f (g a w').1 ≡ f w')
    → f (continue r g).1 ≡ f w
keeps-continue f w (done a, w') g e h = h a w' ∙ e
keeps-continue f w (panicked, w') g e h = e
keeps-continue f w (out_of_fuel, w') g e h = e

module _ {k : Kinds} (v : Services k) {X : Type 0} (f : k.World → X)
    (writes : (s : k.Sock) (b : k.Buf) (w : k.World) → f (v.write s b w).1 ≡ f w)
    (registers : (s : k.Sock) (t : ℕ) (i : k.Interest) (w : k.World)
      → f (v.reregister s t i w).1 ≡ f w) where
  drain-keeps :
      (fuel : ℕ) (s : k.Sock) (out : List (StreamBuf k.Buf)) (w : k.World)
      → f (drain v.io v.write fuel s out w).1 ≡ f w
  unfolding drain
  drain-keeps zero s out w = refl
  drain-keeps (suc fuel) s [] w = refl
  drain-keeps (suc fuel) s (b ∷ rest) w =
      keeps-continue f w (v.write s b.buf w) _ (writes s b.buf w) (λ r w'.
        let left = after_write r.0 (v.io.len b.buf) (record b { buf = r.1 }) rest in
        elim (Bool-cases left.1) [
          | inl more ↦ rw more (drain-keeps fuel s left.0 w')
          | inr ended ↦ rw ended refl
        ])

  answer-keeps : {A : Type 0} (r : Answer A) (w : k.World) → f (unwrap_answer r w).1 ≡ f w
  answer-keeps (ok a) w = refl
  answer-keeps (err e) w = refl

  watch-keeps :
      (token : ℕ) (c : Conn k) (i : k.Interest) (w : k.World) → f (watch v token c i w).1 ≡ f w
  unfolding watch
  watch-keeps token c i w =
      let c' = record c { interest = v.interest_insert c.interest i } in
      keeps-continue f w (v.reregister c'.sock token c'.interest w)
        (λ r. unwrap_answer r >>= λ _. pure c') (registers c'.sock token c'.interest w)
        (λ r w'.
          keeps-continue f w' (unwrap_answer r w') (λ _. pure c') (answer-keeps r w')
            (λ _ w''. refl))

  flush-keeps : (fuel token : ℕ) (c : Conn k) (w : k.World) → f (flush v fuel token c w).1 ≡ f w
  unfolding flush await_write
  flush-keeps fuel token c w =
      keeps-continue f w (drain v.io v.write fuel c.sock c.outbuf w) (await_write v token c)
        (drain-keeps fuel c.sock c.outbuf w)
        (λ out w'. elim (Bool-cases (ltb 0 (length out))) [
          | inl more ↦ rw more (watch-keeps token (record c { outbuf = out }) v.writable_event w')
          | inr none_left ↦ rw none_left refl
        ])

  module _ {l : Slabs} (e : EngineInner k l) (fuel : ℕ) (w : k.World) where
    pub notify-keeps : (m : StreamBuf k.Buf) → f (notify v fuel e m w).1 ≡ f w
    unfolding notify
    notify-keeps m = elim (Option-cases (l.get e.conns m.token)) [
      | inl gone ↦ rw (gone, notify) refl
      | inr (c, here) ↦
          rw (here, notify)
            (keeps-continue f w _ _
              (flush-keeps fuel m.token (record c { outbuf = c.outbuf ++ m ∷ [] }) w)
              (λ c' w'. refl))
    ]

    pub writable-keeps : (token : ℕ) → f (writable v fuel e token w).1 ≡ f w
    unfolding writable
    writable-keeps token = elim (Option-cases (l.get e.conns token)) [
      | inl gone ↦ rw (gone, writable) refl
      | inr (c, here) ↦
          rw (here, writable) (keeps-continue f w _ _ (flush-keeps fuel token c w) (λ c' w'. refl))
    ]
