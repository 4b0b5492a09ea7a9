-- ===== src/Reactor/Engine/Opening.antt =====
-- src/reactor.rs, `connect` and `listen` of `EngineInner`, with every error.
pub mod Endings
pub mod Working
use rx_rust.Base.{ℕ, ◌%◌, ◌^◌, Option, none, some, List, [], ◌∷◌}
use rx_rust.Effect.{Result, ok, err, Action, pure, panic, ◌>>=◌}
use rx_rust.NetStream
use rx_rust.NetStream.{NetStream}
use rx_rust.Reactor.Services.{Kinds, Answer, Services, Slabs, unwrap_some}
use rx_rust.Reactor.Engine.{
  Conn, EngineInner, Failure, no_socket, not_bound, not_listening, slab_full, not_registered,
  not_connected, new_buf, connection,
}

-- `get_host_addresses(…).unwrap()[0]`
abbrev first_address : {W A : Type 0} → Answer (List A) → Action W A
first_address (ok (a ∷ _)) = pure a
first_address (ok []) = panic
first_address (err _) = panic

module _ {k : Kinds} {l : Slabs} (v : Services k) where
  -- `connect`, from the answer of the connection to the server on.
  connected :
      EngineInner k l
      → ℕ
      → k.Rx
      → Answer (Unit {0})
      → Action k.World (EngineInner k l × Result (NetStream k.Channel k.Rx) Failure)
  connected e tok rx (ok _) = do dtx ← v.loop_channel; pure (e, ok (NetStream.new tok rx dtx))
  connected e tok rx (err _) = pure (e, err not_connected)

  -- From the answer of the registration on.
  registered :
      EngineInner k l
      → ℕ
      → k.Rx
      → k.Addr
      → ℕ
      → Answer (Unit {0})
      → Action k.World (EngineInner k l × Result (NetStream k.Channel k.Rx) Failure)
  unfolding connected
  registered e tok rx ip port (ok _) = do
    c ← unwrap_some (l.get e.conns tok)
    r ← v.connect_socket c.sock ip (port % 2 ^ 16)
    connected e tok rx r
  registered e tok rx ip port (err _) = pure (e, err not_registered)

  -- From the answer of the slab on.
  inserted :
      EngineInner k l
      → k.Rx
      → k.Addr
      → ℕ
      → Option (ℕ × l.Slab (Conn k))
      → Action k.World (EngineInner k l × Result (NetStream k.Channel k.Rx) Failure)
  unfolding registered
  inserted e rx ip port (some (tok, conns)) = do
    c ← unwrap_some (l.get conns tok)
    r ← v.register c.sock tok v.readable_event
    registered (record e { conns = conns }) tok rx ip port r
  inserted e rx ip port none = pure (e, err slab_full)

  -- From the answer of the new socket on.
  opened :
      EngineInner k l
      → k.Addr
      → ℕ
      → Answer k.Sock
      → Action k.World (EngineInner k l × Result (NetStream k.Channel k.Rx) Failure)
  unfolding inserted
  opened e ip port (ok s) = do
    (tx, rx) ← v.sync_channel e.config.queue_size
    buf ← new_buf v e.config.read_buf_sz e.config.allocator
    inserted e rx ip port (l.insert e.conns (connection v s tx buf))
  opened e ip port (err _) = pure (e, err no_socket)

  -- `EngineInner::connect`
  unfoldable pub connect :
      EngineInner k l
      → k.Host
      → ℕ
      → Action k.World (EngineInner k l × Result (NetStream k.Channel k.Rx) Failure)
  unfolding opened
  connect e host port = do
    addrs ← v.get_host_addresses host
    ip ← first_address addrs
    s ← v.socket
    opened e ip port s

  -- `listen`, from the answer of the registration on.
  polled : EngineInner k l → k.Rx → Answer (Unit {0}) → EngineInner k l × Result k.Rx Failure
  polled e rx (ok _) = (e, ok rx)
  polled e rx (err _) = (e, err not_registered)

  -- From the answer of the slab on.
  kept :
      EngineInner k l
      → k.Rx
      → Option (ℕ × l.Slab (k.Acceptor × k.Tx))
      → Action k.World (EngineInner k l × Result k.Rx Failure)
  unfolding polled
  kept e rx (some (token, listeners)) = do
    a ← unwrap_some (l.get listeners token)
    r ← v.register_acceptor a.0 token v.readable_event
    pure (polled (record e { listeners = listeners }) rx r)
  kept e rx none = pure (e, err slab_full)

  -- From the answer of the listening socket on.
  listening :
      EngineInner k l → Answer k.Acceptor → Action k.World (EngineInner k l × Result k.Rx Failure)
  unfolding kept
  listening e (ok a) = do
    (tx, rx) ← v.sync_channel e.config.queue_size
    kept e rx (l.insert e.listeners (a, tx))
  listening e (err _) = pure (e, err not_listening)

  -- From the answer of the bound socket on.
  bound : EngineInner k l → Answer k.Sock → Action k.World (EngineInner k l × Result k.Rx Failure)
  unfolding listening
  bound e (ok s) = do a ← v.listen_on s 255; listening e a
  bound e (err _) = pure (e, err not_bound)

  -- From the answer of the new socket on.
  opened_local :
      EngineInner k l
      → k.Addr
      → ℕ
      → Answer k.Sock
      → Action k.World (EngineInner k l × Result k.Rx Failure)
  unfolding bound
  opened_local e ip port (ok s) = do b ← v.bind s ip (port % 2 ^ 16); bound e b
  opened_local e ip port (err _) = pure (e, err no_socket)

  -- `EngineInner::listen`
  unfoldable pub listen :
      EngineInner k l → k.Host → ℕ → Action k.World (EngineInner k l × Result k.Rx Failure)
  unfolding opened_local
  listen e addr port = do
    addrs ← v.get_host_addresses addr
    ip ← first_address addrs
    s ← v.socket
    opened_local e ip port s
