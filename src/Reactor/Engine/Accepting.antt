-- ===== src/Reactor/Engine/Accepting.antt =====
-- What `readable` does for a listener.
use rx_rust.Base.{ℕ, ◌≡◌, refl, ◌⊎◌, inl, inr, Option, none, some, []}
use rx_rust.Effect.{
  done, ok, err, Action, pure, ◌>>=◌, OnDone, OnDone-continue, OnDone-continue_from,
}
use rx_rust.Reactor.Connection
use rx_rust.Reactor.Connection.{ready, would_block, MioResult}
use rx_rust.Reactor.Services.{Kinds, Services, Slabs, unwrap_answer, unwrap_some}
use rx_rust.Reactor.Engine.{Conn, EngineInner, new_buf, connection}
use rx_rust.Reactor.Engine.Events.{welcomed, accepted, readable_listener}
use rx_rust.Reactor.Engine.Slots.{Added-insert, NewConn, NewConn-Added}

module _ {k : Kinds} {l : Slabs} where
  -- The engine is as it was, or has one connection more, which sends its messages to this sender,
  -- and has nothing to write and nothing read.
  abbrev pub Accepts : k.Tx → EngineInner k l → EngineInner k l → Type 0
  Accepts tx e e' =
      (e' ≡ e)
      ⊎ ((t : ℕ) × NewConn e e' t
          × (c : Conn k) × (l.get e'.conns t ≡ some c)
          × (c.conn_tx ≡ tx)
          × (c.outbuf ≡ [])
          × (c.marker ≡ 0))

  module _ (v : Services k) (e : EngineInner k l) (tx : k.Tx) where
    welcomed-Accepts :
        (s : k.Sock) (buf : k.ReadBuf) (r : Option (ℕ × l.Slab (Conn k)))
        → l.insert e.conns (connection v s tx buf) ≡ r
        → (w : k.World) → OnDone (Accepts tx e) (welcomed v e r w)
    unfolding welcomed Connection.new
    welcomed-Accepts s buf (some (tok, conns)) i w =
        let event = v.interest_insert v.readable_event v.hup_event in
        let last : k.World → OnDone (Accepts tx e) (done (record e { conns = conns }), w) = λ w.
          inr (
            tok,
            NewConn-Added e (Added-insert l e.conns conns tok (connection v s tx buf) i),
            connection v s tx buf,
            l.insert-same e.conns conns tok (connection v s tx buf) i,
            refl,
            refl,
            refl,
          ) in
        OnDone-continue (Accepts tx e) (unwrap_some (l.get conns tok) w)
          (λ c. v.register c.sock tok event >>= λ r.
            unwrap_answer r >>= λ _. pure (record e { conns = conns }))
          (λ c w'.
            OnDone-continue (Accepts tx e) (v.register c.sock tok event w')
              (λ r. unwrap_answer r >>= λ _. pure (record e { conns = conns }))
              (λ r w''.
                OnDone-continue (Accepts tx e) (unwrap_answer r w'')
                  (λ _. pure (record e { conns = conns })) (λ _ w3. last w3)))
    welcomed-Accepts s buf none i w = inl refl

    accepted-Accepts :
        (r : MioResult k.Sock) (w : k.World) → OnDone (Accepts tx e) (accepted v e tx r w)
    unfolding accepted
    accepted-Accepts (ok (ready s)) w =
        OnDone-continue (Accepts tx e) (new_buf v e.config.read_buf_sz e.config.allocator w)
          (λ buf. welcomed v e (l.insert e.conns (connection v s tx buf)))
          (λ buf w'. welcomed-Accepts s buf _ refl w')
    accepted-Accepts (ok would_block) w = inl refl
    accepted-Accepts (err _) w = inl refl

  -- An event of a listener that the engine survives brings at most one connection, at a token that
  -- was free; it is fresh, and its messages go to the receiver that `listen` gave. Nothing else
  -- changes.
  pub readable_listener-Accepts :
      (v : Services k) (e : EngineInner k l) (token : ℕ) (a : k.Acceptor) (tx : k.Tx) (w : k.World)
      → l.get e.listeners token ≡ some (a, tx)
      → OnDone (Accepts tx e) (readable_listener v e token w)
  unfolding readable_listener
  readable_listener-Accepts v e token a tx w here =
      let last : EngineInner k l → Action k.World (EngineInner k l) = λ e'.
        v.reregister_acceptor a token v.readable_event >>= λ r. unwrap_answer r >>= λ _. pure e' in
      rw here (
        OnDone-continue (Accepts tx e) (v.accept a w) (λ r. accepted v e tx r >>= last)
          (λ r w'.
            OnDone-continue_from (Accepts tx e) (Accepts tx e) (accepted v e tx r w') last
              (accepted-Accepts v e tx r w')
              (λ e' w'' h.
                OnDone-continue (Accepts tx e) (v.reregister_acceptor a token v.readable_event w'')
                  (λ r. unwrap_answer r >>= λ _. pure e')
                  (λ r w3.
                    OnDone-continue (Accepts tx e) (unwrap_answer r w3) (λ _. pure e')
                      (λ _ w4. h)))))
