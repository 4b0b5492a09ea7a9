-- ===== src/Reactor/Engine/Loop/Timers.antt =====
-- The timeouts of an engine: each has its handle whenever an event can arrive.
use rx_rust.Base.{
  ℕ, ◌≡◌, ◌≢◌, refl, sym, ap, ◌∙◌, Bool-cases, inl, inr, Option, none, some, Option-cases, arith,
  ◌==◌, [], ◌∷◌, ◌++◌,
}
use rx_rust.Effect.{Result, ok, err, pure, ◌>>=◌, OnDone, OnDone-continue, OnDone-weaken}
use rx_rust.NetStream.{NetStream}
use rx_rust.Reactor.Connection.{StreamBuf}
use rx_rust.Reactor.Services.{Kinds, Services, Slabs, unwrap_answer}
use rx_rust.Reactor.Engine.{
  EngineInner, Failure, no_socket, not_bound, not_listening, slab_full, not_registered,
  not_connected,
}
use rx_rust.Reactor.Engine.Events.{
  readable, readable_listener, writable, notify, flush, clear_unless, timeout, set_timeout,
}
use rx_rust.Reactor.Engine.Accepting.{Accepts, readable_listener-Accepts}
use rx_rust.Reactor.Engine.Isolation.{Only, events-Only}
use rx_rust.Reactor.Engine.Opening.Endings.{Connects, Listens}

module _ {k : Kinds} {l : Slabs} where
  pub record IsArmed (e : EngineInner k l) : Type 0 where
    pub armed :
        (tok : ℕ) (t : k.Callback × Option k.Handle)
        → l.get e.timeouts tok ≡ some t
        → (h : k.Handle) × (t.1 ≡ some h)

  unfoldable pub Same : EngineInner k l → EngineInner k l → Type 0
  Same e e' = e'.timeouts ≡ e.timeouts

  pub Same-IsArmed : (e e' : EngineInner k l) → Same e e' → IsArmed e → IsArmed e'
  unfolding Same
  Same-IsArmed e e' s a = record {
    armed = λ tok t h. a.armed tok t (ap (λ q. l.get q tok) (sym s) ∙ h);
  }

  pub Connects-Same :
      (e e' : EngineInner k l) (r : Result (NetStream k.Channel k.Rx) Failure)
      → Connects e (e', r)
      → Same e e'
  unfolding Same
  Connects-Same e e' (ok s) h = h.timeouts
  Connects-Same e e' (err no_socket) h = ap (λ e. e.timeouts) h
  Connects-Same e e' (err slab_full) h = ap (λ e. e.timeouts) h
  Connects-Same e e' (err not_registered) (t, h) = h.timeouts
  Connects-Same e e' (err not_connected) (t, h) = h.timeouts
  Connects-Same e e' (err not_bound) h = absurd h
  Connects-Same e e' (err not_listening) h = absurd h

  pub Listens-Same :
      (e e' : EngineInner k l) (r : Result k.Rx Failure) → Listens e (e', r) → Same e e'
  unfolding Same
  Listens-Same e e' (ok s) (t, h) = h.timeouts
  Listens-Same e e' (err not_registered) (t, h) = h.timeouts
  Listens-Same e e' (err no_socket) h = ap (λ e. e.timeouts) h
  Listens-Same e e' (err slab_full) h = ap (λ e. e.timeouts) h
  Listens-Same e e' (err not_bound) h = ap (λ e. e.timeouts) h
  Listens-Same e e' (err not_listening) h = ap (λ e. e.timeouts) h
  Listens-Same e e' (err not_connected) h = absurd h

  Accepts-Same : (tx : k.Tx) (e e' : EngineInner k l) → Accepts tx e e' → Same e e'
  unfolding Same
  Accepts-Same tx e e' (inl same) = ap (λ e. e.timeouts) same
  Accepts-Same tx e e' (inr (t, n, _, _, _, _, _)) = n.timeouts

  -- A timeout that is stored with its handle keeps the others as they are.
  store-IsArmed :
      (e : EngineInner k l) (tok : ℕ) (cb : k.Callback) (old : k.Callback × Option k.Handle)
      (h : k.Handle) (timeouts : l.Slab (k.Callback × Option k.Handle))
      → l.get timeouts tok ≡ some old
      → ((u : ℕ) → u ≢ tok → l.get timeouts u ≡ l.get e.timeouts u)
      → IsArmed e
      → IsArmed (record e { timeouts = l.store timeouts tok (cb, some h) })
  store-IsArmed e tok cb old h timeouts here others a = record {
    armed = λ u t got. elim (Bool-cases (u == tok)) [
      | inl hit ↦
          let same : u ≡ tok = ground arith in
          let stored : some t ≡ some (cb, some h) =
            sym got
            ∙ ap (l.get (l.store timeouts tok (cb, some h))) same
            ∙ l.store-same timeouts tok old (cb, some h) here in
          (h, cc)
      | inr miss ↦
          let apart : u ≢ tok = λ e. ground arith in
          a.armed u t
            (sym (others u apart) ∙ sym (l.store-other timeouts tok u (cb, some h) apart) ∙ got)
    ];
  }

  module _ (v : Services k) (fuel : ℕ) where
    pub readable-Same :
        (e : EngineInner k l) (token : ℕ) (hint : k.Hint) (w : k.World)
        → OnDone (Same e) (readable v fuel e token hint w)
    unfolding readable Same
    readable-Same e token hint w = elim (Bool-cases (l.contains e.listeners token)) [
      | inl listener ↦ elim (Option-cases (l.get e.listeners token)) [
        | inl gone ↦ rw (listener, readable_listener, gone) tt
        | inr ((a, tx), here) ↦ rw listener (
            OnDone-weaken (Accepts tx e) (Same e) (Accepts-Same tx e)
              (readable_listener v e token w) (readable_listener-Accepts v e token a tx w here))
      ]
      | inr other ↦
          OnDone-weaken (Only token e) (Same e) (λ e' o. o.timeouts)
            (readable v fuel e token hint w) ((events-Only v fuel e token w other).0 hint)
    ]

    pub writable-Same :
        (e : EngineInner k l) (token : ℕ) (w : k.World)
        → OnDone (Same e) (writable v fuel e token w)
    unfolding writable Same
    writable-Same e token w = elim (Option-cases (l.get e.conns token)) [
      | inl gone ↦ rw (gone, writable) refl
      | inr (c, here) ↦
          rw (here, writable)
            (OnDone-continue (Same e) (flush v fuel token c w)
              (λ c'. pure (record e { conns = l.store e.conns token c' })) (λ c' w'. refl))
    ]

    pub notify-Same :
        (e : EngineInner k l) (msg : StreamBuf k.Buf) (w : k.World)
        → OnDone (Same e) (notify v fuel e msg w)
    unfolding notify Same
    notify-Same e msg w = elim (Option-cases (l.get e.conns msg.token)) [
      | inl gone ↦ rw (gone, notify) refl
      | inr (c, here) ↦
          rw (here, notify)
            (OnDone-continue (Same e)
              (flush v fuel msg.token (record c { outbuf = c.outbuf ++ msg ∷ [] }) w)
              (λ c'. pure (record e { conns = l.store e.conns msg.token c' })) (λ c' w'. refl))
    ]

    pub timeout-IsArmed :
        (e : EngineInner k l) (token : ℕ) (w : k.World)
        → IsArmed e
        → OnDone IsArmed (timeout v e token w)
    unfolding timeout
    timeout-IsArmed e token w a = elim (Option-cases (l.get e.timeouts token)) [
      | inl gone ↦ rw gone tt
      | inr (t, here) ↦
          let (h, armed) = a.armed token t here in
          rw here (
            OnDone-continue IsArmed (v.call_back t.0 w)
              (λ c. clear_unless v c.1 t.1 >>= λ _.
                pure (record e { timeouts = l.store e.timeouts token (c.0, t.1) }))
              (λ c w'.
                OnDone-continue IsArmed (clear_unless v c.1 t.1 w')
                  (λ _. pure (record e { timeouts = l.store e.timeouts token (c.0, t.1) }))
                  (λ _ w''.
                    rw armed (store-IsArmed e token c.0 t h e.timeouts here (λ u ne. refl) a))))
    ]

    pub set_timeout-IsArmed :
        (e : EngineInner k l) (duration : ℕ) (callback : k.Callback) (w : k.World)
        → IsArmed e
        → OnDone IsArmed (set_timeout v e duration callback w)
    unfolding set_timeout
    set_timeout-IsArmed e duration callback w a =
        elim (Option-cases (l.insert e.timeouts (callback, none))) [
          | inl full ↦ rw full tt
          | inr ((tok, timeouts), room) ↦
              let there = l.insert-same e.timeouts timeouts tok (callback, none) room in
              let others = λ (u : ℕ) (ne : u ≢ tok).
                l.insert-other e.timeouts timeouts tok u (callback, none) room ne in
              rw (room, there)
                (OnDone-continue IsArmed (v.loop_timeout tok duration w)
                  (λ r. unwrap_answer r >>= λ h.
                    pure (record e { timeouts = l.store timeouts tok (callback, some h) }))
                  (λ r w'.
                    OnDone-continue IsArmed (unwrap_answer r w')
                      (λ h. pure (record e { timeouts = l.store timeouts tok (callback, some h) }))
                      (λ h w''.
                        store-IsArmed e tok callback (callback, none) h timeouts there others a)))
        ]
