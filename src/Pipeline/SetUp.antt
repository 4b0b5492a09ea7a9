-- ===== src/Pipeline/SetUp.antt =====
-- How the tests `oneway_test` in src/net_stream.rs and `main` in src/test/test.rs make an engine:
-- it listens, connects to itself, and has a timeout.
pub mod Works
use rx_rust.Base.{ℕ, ◌≡◌, ◌≢◌, refl, sym, subst, ap, ◌∙◌, none, some, Option-cases, inl, inr}
use rx_rust.Effect.{
  Result, ok, err, Action, pure, panic, continue, ◌>>=◌, OnDone, OnDone-continue,
  OnDone-continue_from,
}
use rx_rust.NetStream.{NetStream}
use rx_rust.Reactor.Services.{Kinds, Services, Slabs, unwrap_answer}
use rx_rust.Reactor.Engine
use rx_rust.Reactor.Engine.{Conn, EngineInner, Failure, default_config, event_loop_config}
use rx_rust.Reactor.Engine.Events.{set_timeout}
use rx_rust.Reactor.Engine.Opening
use rx_rust.Reactor.Engine.Opening.Endings.{Connects, connect-Connects, Listens, listen-Listens}
use rx_rust.Reactor.Engine.Slots.{Added, NewConn, NewListener}
use rx_rust.Reactor.NetEngine
use rx_rust.Reactor.NetEngine.{NetEngine, Loops}

-- `unwrap`
abbrev pub unwrap_result : {W A : Type 0} → Result A Failure → Action W A
unwrap_result (ok a) = pure a
unwrap_result (err e) = panic

module _ {k : Kinds} {l : Slabs} {EventLoop : Type 0} (v : Services k)
    (m : Loops k l EventLoop) where
  unfoldable pub set_up :
      k.Host
      → ℕ
      → ℕ
      → k.Callback
      → Action k.World (NetEngine k l EventLoop × k.Rx × NetStream k.Channel k.Rx)
  set_up host port duration callback = do
    ne ← NetEngine.new v m
    (ne₁, listened) ← NetEngine.listen v m ne host port
    srv_rx ← unwrap_result listened
    (ne₂, connected) ← NetEngine.connect v m ne₁ host port
    cl ← unwrap_result connected
    ne₃ ← NetEngine.timeout v m ne₂ duration callback
    pure (ne₃, srv_rx, cl)

  -- A slab with one entry.
  pub record Single {A : Type 0} (s : l.Slab A) (t : ℕ) (a : A) : Type 0 where
    pub is_there : l.get s t ≡ some a
    pub others : (u : ℕ) → u ≢ t → l.get s u ≡ none

  Single-Added :
      {A : Type 0} (s s' : l.Slab A) (t start capacity : ℕ)
      → s ≡ l.starting_at start capacity
      → (a : Added l s s' t) → Single s' t a.entry
  Single-Added s s' t start capacity e a = record {
    is_there = a.is_there;
    others = λ u ne. a.others u ne ∙ ap (λ s. l.get s u) e ∙ l.get-starting_at start capacity u;
  }

  -- The engine has one listener, one connection, whose token is given, and one timeout, which has
  -- the callback and its timer.
  pub record IsSetUp (e : EngineInner k l) (callback : k.Callback) (tok : ℕ) : Type 0 where
    pub listener : (t : ℕ) × (a : k.Acceptor × k.Tx) × Single e.listeners t a
    pub conn : (c : Conn k) × Single e.conns tok c
    pub timer : (t : ℕ) × (h : k.Handle) × Single e.timeouts t (callback, some h)
    pub config : e.config ≡ default_config

  unwrap_result-OnDone :
      {A B : Type 0} (P : B → Type 0) (r : Result A Failure) (g : A → Action k.World B)
      (w : k.World)
      → ((a : A) → r ≡ ok a → OnDone P (g a w))
      → OnDone P (continue (unwrap_result r w) g)
  unwrap_result-OnDone P (ok a) g w h = h a refl
  unwrap_result-OnDone P (err e) g w h = tt

  new-OnDone :
      (w : k.World) → OnDone (λ n. n.inner ≡ Engine.new default_config) (NetEngine.new v m w)
  unfolding NetEngine.new
  new-OnDone w =
      let P = λ (n : NetEngine k l EventLoop). n.inner ≡ Engine.new default_config in
      let finish =
        λ (el : EventLoop). pure (record { event_loop = el; inner = Engine.new default_config }) in
      OnDone-continue P (m.configured_loop (event_loop_config 524288 100) w)
        (λ r. unwrap_answer r >>= finish)
        (λ r w'. OnDone-continue P (unwrap_answer r w') finish (λ el w''. refl))

  -- What the calls of a `NetEngine` make of its engine.
  listen-OnDone :
      (n : NetEngine k l EventLoop) (host : k.Host) (port : ℕ) (w : k.World)
      → OnDone (λ a. Listens n.inner (a.0.inner, a.1)) (NetEngine.listen v m n host port w)
  unfolding NetEngine.listen
  listen-OnDone n host port w =
      OnDone-continue_from (Listens n.inner) (λ a. Listens n.inner (a.0.inner, a.1))
        (Opening.listen v n.inner host port w) (λ a. pure (record n { inner = a.0 }, a.1))
        (listen-Listens v n.inner host port w) (λ a w' q. q)

  connect-OnDone :
      (n : NetEngine k l EventLoop) (host : k.Host) (port : ℕ) (w : k.World)
      → OnDone (λ a. Connects n.inner (a.0.inner, a.1)) (NetEngine.connect v m n host port w)
  unfolding NetEngine.connect
  connect-OnDone n host port w =
      OnDone-continue_from (Connects n.inner) (λ a. Connects n.inner (a.0.inner, a.1))
        (Opening.connect v n.inner host port w) (λ a. pure (record n { inner = a.0 }, a.1))
        (connect-Connects v n.inner host port w) (λ a w' q. q)

  -- The engine has one timeout more.
  pub record NewTimeout (callback : k.Callback) (e e' : EngineInner k l) : Type 0 where
    pub tok : ℕ
    pub handle : k.Handle
    pub is_there : l.get e'.timeouts tok ≡ some (callback, some handle)
    pub others : (u : ℕ) → u ≢ tok → l.get e'.timeouts u ≡ l.get e.timeouts u
    pub conns : e'.conns ≡ e.conns
    pub listeners : e'.listeners ≡ e.listeners
    pub config : e'.config ≡ e.config

  set_timeout-NewTimeout :
      (e : EngineInner k l) (duration : ℕ) (callback : k.Callback) (w : k.World)
      → OnDone (NewTimeout callback e) (set_timeout v e duration callback w)
  unfolding set_timeout
  set_timeout-NewTimeout e duration callback w =
      elim (Option-cases (l.insert e.timeouts (callback, none))) [
        | inl full ↦ rw full tt
        | inr ((t, timeouts), room) ↦
            let there = l.insert-same e.timeouts timeouts t (callback, none) room in
            let stored =
              λ (h : k.Handle). record e { timeouts = l.store timeouts t (callback, some h) } in
            let new_one : (h : k.Handle) → NewTimeout callback e (stored h) = λ h. record {
              tok = t;
              handle = h;
              is_there = l.store-same timeouts t (callback, none) (callback, some h) there;
              others = λ u ne.
                  l.store-other timeouts t u (callback, some h) ne
                  ∙ l.insert-other e.timeouts timeouts t u (callback, none) room ne;
              conns = refl;
              listeners = refl;
              config = refl;
            } in
            rw (room, there)
              (OnDone-continue (NewTimeout callback e) (v.loop_timeout t duration w)
                (λ r. unwrap_answer r >>= λ h. pure (stored h))
                (λ r w'.
                  OnDone-continue (NewTimeout callback e) (unwrap_answer r w')
                    (λ h. pure (stored h)) (λ h w''. new_one h)))
      ]

  timeout-OnDone :
      (n : NetEngine k l EventLoop) (duration : ℕ) (callback : k.Callback) (w : k.World)
      → OnDone
          (λ a. NewTimeout callback n.inner a.inner)
          (NetEngine.timeout v m n duration callback w)
  unfolding NetEngine.timeout
  timeout-OnDone n duration callback w =
      OnDone-continue_from (NewTimeout callback n.inner) (λ a. NewTimeout callback n.inner a.inner)
        (set_timeout v n.inner duration callback w) (λ e. pure (record n { inner = e }))
        (set_timeout-NewTimeout n.inner duration callback w) (λ e w' q. q)

  -- The three calls together.
  together :
      (e₀ e₁ e₂ e₃ : EngineInner k l) (callback : k.Callback) (t tok : ℕ)
      → e₀ ≡ Engine.new default_config
      → NewListener e₀ e₁ t
      → NewConn e₁ e₂ tok
      → NewTimeout callback e₂ e₃
      → IsSetUp e₃ callback tok
  unfolding Engine.new
  together e₀ e₁ e₂ e₃ callback t tok start a b c =
      let here =
        Single-Added e₀.listeners e₁.listeners t 0 128 (ap (λ e. e.listeners) start) a.listeners in
      let there =
        Single-Added e₁.conns e₂.conns tok 256 10496 (a.conns ∙ ap (λ e. e.conns) start) b.conns in
      let free = b.timeouts ∙ a.timeouts ∙ ap (λ e. e.timeouts) start in
      record {
        listener = (
          t,
          a.listeners.entry,
          subst (λ s. Single s t a.listeners.entry) (sym (c.listeners ∙ b.listeners)) here,
        );
        conn = (b.conns.entry, subst (λ s. Single s tok b.conns.entry) (sym c.conns) there);
        timer = (
          c.tok,
          c.handle,
          record {
            is_there = c.is_there;
            others = λ u ne. c.others u ne ∙ ap (λ s. l.get s u) free ∙ l.get-starting_at 129 255 u;
          },
        );
        config = c.config ∙ b.config ∙ a.config ∙ ap (λ e. e.config) start;
      }

  -- Where the set-up does not panic, the engine has one listener, one connection, at the token of
  -- the stream that the caller gets, and one timeout, with the callback and a timer; its
  -- configuration is the default one.
  pub set_up-IsSetUp :
      (host : k.Host) (port duration : ℕ) (callback : k.Callback) (w : k.World)
      → OnDone (λ r. IsSetUp r.0.inner callback r.2.tok) (set_up host port duration callback w)
  unfolding set_up
  set_up-IsSetUp host port duration callback w =
      let P = λ (r : NetEngine k l EventLoop × k.Rx × NetStream k.Channel k.Rx).
        IsSetUp r.0.inner callback r.2.tok in
      OnDone-continue_from (λ n. n.inner ≡ Engine.new default_config) P (NetEngine.new v m w) _
        (new-OnDone w)
        (λ ne w₀ fresh.
          OnDone-continue_from (λ a. Listens ne.inner (a.0.inner, a.1)) P
            (NetEngine.listen v m ne host port w₀) _ (listen-OnDone ne host port w₀)
            (λ a w₁ heard. unwrap_result-OnDone P a.1 _ w₁ (λ rx is_rx.
              let (t, one) : (t : ℕ) × NewListener ne.inner a.0.inner t =
                subst (λ r. Listens ne.inner (a.0.inner, r)) is_rx heard in
              OnDone-continue_from (λ b. Connects a.0.inner (b.0.inner, b.1)) P
                (NetEngine.connect v m a.0 host port w₁) _ (connect-OnDone a.0 host port w₁)
                (λ b w₂ joined. unwrap_result-OnDone P b.1 _ w₂ (λ cl is_cl.
                  OnDone-continue_from (λ c. NewTimeout callback b.0.inner c.inner) P
                    (NetEngine.timeout v m b.0 duration callback w₂) _
                    (timeout-OnDone b.0 duration callback w₂)
                    (λ c w₃ timed.
                      together ne.inner a.0.inner b.0.inner c.inner callback t cl.tok fresh one
                        (subst (λ r. Connects a.0.inner (b.0.inner, r)) is_cl joined) timed))))))
