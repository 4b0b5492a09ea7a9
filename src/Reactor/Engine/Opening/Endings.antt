-- ===== src/Reactor/Engine/Opening/Endings.antt =====
-- Every ending of `connect` and `listen`, and what the slabs hold after it.
use rx_rust.Base.{ℕ, ◌%◌, ◌^◌, ◌≡◌, refl, Option, none, some}
use rx_rust.Effect.{Result, ok, err, pure, ◌>>=◌, OnDone, OnDone-continue}
use rx_rust.NetStream
use rx_rust.NetStream.{NetStream}
use rx_rust.Reactor.Services.{Kinds, Answer, Services, Slabs, unwrap_some}
use rx_rust.Reactor.Engine.{
  Conn, EngineInner, Failure, no_socket, not_bound, not_listening, slab_full, not_registered,
  not_connected, new_buf, connection,
}
use rx_rust.Reactor.Engine.Slots.{
  Added, Added-insert, NewConn, NewConn-Added, NewListener, NewListener-Added,
}
use rx_rust.Reactor.Engine.Opening.{
  first_address, connected, registered, inserted, opened, connect, polled, kept, listening, bound,
  opened_local, listen,
}

module _ {k : Kinds} {l : Slabs} where
  -- How `connect` ends: with a stream, the connection is in the slab at the stream's token. Where
  -- the registration or the connection to the server fails, the connection is in the slab as well.
  abbrev pub Connects :
      EngineInner k l → EngineInner k l × Result (NetStream k.Channel k.Rx) Failure → Type 0
  Connects e (e', ok s) = NewConn e e' s.tok
  Connects e (e', err no_socket) = e' ≡ e
  Connects e (e', err slab_full) = e' ≡ e
  Connects e (e', err not_registered) = (t : ℕ) × NewConn e e' t
  Connects e (e', err not_connected) = (t : ℕ) × NewConn e e' t
  Connects e (e', err not_bound) = ⊥
  Connects e (e', err not_listening) = ⊥

  -- How `listen` ends.
  abbrev pub Listens : EngineInner k l → EngineInner k l × Result k.Rx Failure → Type 0
  Listens e (e', ok rx) = (t : ℕ) × NewListener e e' t
  Listens e (e', err not_registered) = (t : ℕ) × NewListener e e' t
  Listens e (e', err not_connected) = ⊥
  Listens e (e', err no_socket) = e' ≡ e
  Listens e (e', err slab_full) = e' ≡ e
  Listens e (e', err not_bound) = e' ≡ e
  Listens e (e', err not_listening) = e' ≡ e

  module _ (v : Services k) (e : EngineInner k l) where
    connected-Connects :
        (conns : l.Slab (Conn k)) (tok : ℕ) (rx : k.Rx) (r : Answer (Unit {0})) (w : k.World)
        → Added l e.conns conns tok
        → OnDone (Connects e) (connected v (record e { conns = conns }) tok rx r w)
    unfolding connected NetStream.new
    connected-Connects conns tok rx (ok a) w h =
        OnDone-continue (Connects e) (v.loop_channel w)
          (λ dtx. pure (record e { conns = conns }, ok (NetStream.new tok rx dtx)))
          (λ dtx w'. NewConn-Added e h)
    connected-Connects conns tok rx (err a) w h = (tok, NewConn-Added e h)

    registered-Connects :
        (conns : l.Slab (Conn k)) (tok : ℕ) (rx : k.Rx) (ip : k.Addr) (port : ℕ)
        → (r : Answer (Unit {0})) (w : k.World) → Added l e.conns conns tok
        → OnDone (Connects e) (registered v (record e { conns = conns }) tok rx ip port r w)
    unfolding registered
    registered-Connects conns tok rx ip port (ok a) w h =
        let e' = record e { conns = conns } in
        OnDone-continue (Connects e) (unwrap_some (l.get conns tok) w)
          (λ c. v.connect_socket c.sock ip (port % 2 ^ 16) >>= connected v e' tok rx)
          (λ c w'.
            OnDone-continue (Connects e) (v.connect_socket c.sock ip (port % 2 ^ 16) w')
              (connected v e' tok rx) (λ r w''. connected-Connects conns tok rx r w'' h))
    registered-Connects conns tok rx ip port (err a) w h = (tok, NewConn-Added e h)

    inserted-Connects :
        (rx : k.Rx) (ip : k.Addr) (port : ℕ) (c : Conn k) (r : Option (ℕ × l.Slab (Conn k)))
        → l.insert e.conns c ≡ r
        → (w : k.World) → OnDone (Connects e) (inserted v e rx ip port r w)
    unfolding inserted
    inserted-Connects rx ip port c (some (tok, conns)) i w =
        let e' = record e { conns = conns } in
        OnDone-continue (Connects e) (unwrap_some (l.get conns tok) w)
          (λ c. v.register c.sock tok v.readable_event >>= registered v e' tok rx ip port)
          (λ c' w'.
            OnDone-continue (Connects e) (v.register c'.sock tok v.readable_event w')
              (registered v e' tok rx ip port)
              (λ r w''.
                registered-Connects conns tok rx ip port r w''
                  (Added-insert l e.conns conns tok c i)))
    inserted-Connects rx ip port c none i w = refl

    opened-Connects :
        (ip : k.Addr) (port : ℕ) (r : Answer k.Sock) (w : k.World)
        → OnDone (Connects e) (opened v e ip port r w)
    unfolding opened
    opened-Connects ip port (ok s) w =
        OnDone-continue (Connects e) (v.sync_channel e.config.queue_size w)
          (λ c. new_buf v e.config.read_buf_sz e.config.allocator >>= λ buf.
            inserted v e c.1 ip port (l.insert e.conns (connection v s c.0 buf)))
          (λ c w'.
            OnDone-continue (Connects e) (new_buf v e.config.read_buf_sz e.config.allocator w')
              (λ buf. inserted v e c.1 ip port (l.insert e.conns (connection v s c.0 buf)))
              (λ buf w''. inserted-Connects c.1 ip port (connection v s c.0 buf) _ refl w''))
    opened-Connects ip port (err _) w = refl

    -- Where `connect` does not end in a panic, a stream comes with a connection at a token that was
    -- free, and nothing else changes. Where the registration or the connection to the server fails,
    -- such a connection is left in the slab all the same. The other errors leave the engine as it
    -- was.
    pub connect-Connects :
        (host : k.Host) (port : ℕ) (w : k.World) → OnDone (Connects e) (connect v e host port w)
    unfolding connect
    connect-Connects host port w =
        OnDone-continue (Connects e) (v.get_host_addresses host w)
          (λ addrs. first_address addrs >>= λ ip. v.socket >>= opened v e ip port)
          (λ addrs w'.
            OnDone-continue (Connects e) (first_address addrs w')
              (λ ip. v.socket >>= opened v e ip port)
              (λ ip w''.
                OnDone-continue (Connects e) (v.socket w'') (opened v e ip port)
                  (opened-Connects ip port)))

    polled-Listens :
        (listeners : l.Slab (k.Acceptor × k.Tx)) (token : ℕ) (rx : k.Rx) (r : Answer (Unit {0}))
        → Added l e.listeners listeners token
        → Listens e (polled v (record e { listeners = listeners }) rx r)
    unfolding polled
    polled-Listens listeners token rx (ok _) h = (token, NewListener-Added e h)
    polled-Listens listeners token rx (err _) h = (token, NewListener-Added e h)

    kept-Listens :
        (rx : k.Rx) (a : k.Acceptor × k.Tx) (r : Option (ℕ × l.Slab (k.Acceptor × k.Tx)))
        → l.insert e.listeners a ≡ r
        → (w : k.World) → OnDone (Listens e) (kept v e rx r w)
    unfolding kept
    kept-Listens rx a (some (token, listeners)) i w =
        let e' = record e { listeners = listeners } in
        OnDone-continue (Listens e) (unwrap_some (l.get listeners token) w)
          (λ b. v.register_acceptor b.0 token v.readable_event >>= λ r. pure (polled v e' rx r))
          (λ b w'.
            OnDone-continue (Listens e) (v.register_acceptor b.0 token v.readable_event w')
              (λ r. pure (polled v e' rx r))
              (λ r w''.
                polled-Listens listeners token rx r
                  (Added-insert l e.listeners listeners token a i)))
    kept-Listens rx a none i w = refl

    listening-Listens :
        (r : Answer k.Acceptor) (w : k.World) → OnDone (Listens e) (listening v e r w)
    unfolding listening
    listening-Listens (ok a) w =
        OnDone-continue (Listens e) (v.sync_channel e.config.queue_size w)
          (λ c. kept v e c.1 (l.insert e.listeners (a, c.0)))
          (λ c. kept-Listens c.1 (a, c.0) _ refl)
    listening-Listens (err _) w = refl

    bound-Listens : (r : Answer k.Sock) (w : k.World) → OnDone (Listens e) (bound v e r w)
    unfolding bound
    bound-Listens (ok s) w =
        OnDone-continue (Listens e) (v.listen_on s 255 w) (listening v e) listening-Listens
    bound-Listens (err _) w = refl

    opened_local-Listens :
        (ip : k.Addr) (port : ℕ) (r : Answer k.Sock) (w : k.World)
        → OnDone (Listens e) (opened_local v e ip port r w)
    unfolding opened_local
    opened_local-Listens ip port (ok s) w =
        OnDone-continue (Listens e) (v.bind s ip (port % 2 ^ 16) w) (bound v e) bound-Listens
    opened_local-Listens ip port (err _) w = refl

    -- Where `listen` does not end in a panic, a receiver comes with a listener at a token that was
    -- free. Where the registration fails, the listener is left in the slab all the same. The other
    -- errors leave the engine as it was.
    pub listen-Listens :
        (host : k.Host) (port : ℕ) (w : k.World) → OnDone (Listens e) (listen v e host port w)
    unfolding listen
    listen-Listens host port w =
        OnDone-continue (Listens e) (v.get_host_addresses host w)
          (λ addrs. first_address addrs >>= λ ip. v.socket >>= opened_local v e ip port)
          (λ addrs w'.
            OnDone-continue (Listens e) (first_address addrs w')
              (λ ip. v.socket >>= opened_local v e ip port)
              (λ ip w''.
                OnDone-continue (Listens e) (v.socket w'') (opened_local v e ip port)
                  (opened_local-Listens ip port)))
