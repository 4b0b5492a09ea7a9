-- ===== src/Reactor/Engine/Isolation.antt =====
-- Which connections an event can touch.
use rx_rust.Base.{
  ℕ, ◌≡◌, ◌≢◌, refl, ◌∙◌, Bool, true, false, inl, inr, none, Option-cases, [], ◌∷◌, ◌++◌,
}
use rx_rust.Effect.{continue, pure, OnDone, OnDone-continue}
use rx_rust.Reactor.Services.{Kinds, Services, Slabs}
use rx_rust.Reactor.Engine.{Conn, EngineInner}
use rx_rust.Reactor.Engine.Events.{
  readable, readable_connection, watch, flush, read_from, drop_or_watch, writable, notify,
}

module _ {k : Kinds} {l : Slabs} where
  -- The two engines differ at most in the connection of this token.
  pub record Only (token : ℕ) (e e' : EngineInner k l) : Type 0 where
    pub others : (u : ℕ) → u ≢ token → l.get e'.conns u ≡ l.get e.conns u
    pub listeners : e'.listeners ≡ e.listeners
    pub timeouts : e'.timeouts ≡ e.timeouts
    pub config : e'.config ≡ e.config

  pub Only-same : (token : ℕ) (e : EngineInner k l) → Only token e e
  Only-same token e = record {
    others = λ u h. refl;
    listeners = refl;
    timeouts = refl;
    config = refl;
  }

  pub Only-store :
      (token : ℕ) (e : EngineInner k l) (c : Conn k)
      → Only token e (record e { conns = l.store e.conns token c })
  Only-store token e c = record {
    others = λ u h. l.store-other e.conns token u c h;
    listeners = refl;
    timeouts = refl;
    config = refl;
  }

  pub Only-trans :
      (token : ℕ) (e e' e'' : EngineInner k l)
      → Only token e e'
      → Only token e' e''
      → Only token e e''
  Only-trans token e e' e'' o o' = record {
    others = λ u h. o'.others u h ∙ o.others u h;
    listeners = o'.listeners ∙ o.listeners;
    timeouts = o'.timeouts ∙ o.timeouts;
    config = o'.config ∙ o.config;
  }

  Only-remove :
      (token : ℕ) (e : EngineInner k l) → Only token e (record e { conns = l.remove e.conns token })
  Only-remove token e = record {
    others = λ u h. l.remove-other e.conns token u h;
    listeners = refl;
    timeouts = refl;
    config = refl;
  }

  module _ (v : Services k) where
    drop_or_watch-Only :
        (b : Bool) (e : EngineInner k l) (token : ℕ) (c : Conn k) (w : k.World)
        → OnDone (Only token e) (drop_or_watch v b e token c w)
    drop_or_watch-Only true e token c w = Only-remove token e
    drop_or_watch-Only false e token c w =
        OnDone-continue (Only token e) (watch v token c v.readable_event w)
          (λ c'. pure (record e { conns = l.store e.conns token c' }))
          (λ c' w'. Only-store token e c')

    -- Whatever mio and the protocol answer, an event that an engine survives, of a token that is no
    -- listener's, leaves the connections of all other tokens, the listeners, the timeouts and the
    -- configuration as they were: a socket that can be read, one that can be written, and a message
    -- that is to be sent.
    pub events-Only :
        (fuel : ℕ) (e : EngineInner k l) (token : ℕ) (w : k.World)
        → l.contains e.listeners token ≡ false
        → ((hint : k.Hint) → OnDone (Only token e) (readable v fuel e token hint w))
          × OnDone (Only token e) (writable v fuel e token w)
          × ((buf : k.Buf)
              → OnDone (Only token e) (notify v fuel e (record { buf = buf; token = token }) w))
    unfolding readable readable_connection writable notify
    events-Only fuel e token w other = elim (Option-cases (l.get e.conns token)) [
      | inl gone ↦ (
        rw (other, gone) (λ hint. Only-same token e),
        rw (gone, writable) (Only-same token e),
        λ buf. rw (gone, notify) (Only-same token e),
      )
      | inr (c, here) ↦
          let flushed : (c : Conn k)
              → OnDone (Only token e) (
                  continue (flush v fuel token c w)
                    (λ c'. pure (record e { conns = l.store e.conns token c' }))) =
            λ c.
              OnDone-continue (Only token e) (flush v fuel token c w)
                (λ c'. pure (record e { conns = l.store e.conns token c' }))
                (λ c' w'. Only-store token e c') in
          (
            rw (other, here)
                (λ hint.
                  OnDone-continue (Only token e) (read_from v fuel e.config token c w)
                    (drop_or_watch v (v.contains_huphint hint) e token)
                    (drop_or_watch-Only (v.contains_huphint hint) e token)),
            rw (here, writable) (flushed c),
            λ buf.
                rw (here, notify)
                  (flushed
                    (record c { outbuf = c.outbuf ++ record { buf = buf; token = token } ∷ [] })),
          )
    ]

    -- A connection whose other end has hung up is not there after its last read.
    pub readable-gone :
        (fuel : ℕ) (e : EngineInner k l) (token : ℕ) (hint : k.Hint) (w : k.World)
        → l.contains e.listeners token ≡ false
        → v.contains_huphint hint ≡ true
        → OnDone (λ e'. l.get e'.conns token ≡ none) (readable v fuel e token hint w)
    unfolding readable readable_connection
    readable-gone fuel e token hint w other hup = elim (Option-cases (l.get e.conns token)) [
      | inl gone ↦ rw (other, gone) gone
      | inr (c, here) ↦
          rw (other, here, hup)
            (OnDone-continue (λ e'. l.get e'.conns token ≡ none)
              (read_from v fuel e.config token c w) (drop_or_watch v true e token)
              (λ c' w'. l.remove-same e.conns token))
    ]
