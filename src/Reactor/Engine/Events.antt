-- ===== src/Reactor/Engine/Events.antt =====
-- src/reactor.rs, the handlers of `EngineInner`, and `timeout` of `NetEngine`. `fuel` is for the
-- loops over the write queue and the messages of one read.
use rx_rust.Base.{
  ℕ, ◌%◌, ◌^◌, Bool, true, false, Option, none, some, List, [], ◌∷◌, ◌++◌, length, ltb,
  if◌then◌else◌,
}
use rx_rust.Effect.{ok, err, Action, pure, ◌>>=◌}
use rx_rust.Reactor.Connection.{StreamBuf, ready, would_block, MioResult, drain, parse}
use rx_rust.Reactor.Services.{Kinds, Services, Slabs, unwrap_answer, unwrap_some}
use rx_rust.Reactor.Engine.{NetEngineConfig, Conn, EngineInner, new_buf, connection}

module _ {k : Kinds} (v : Services k) where
  -- The read buffer is replaced where little room is left, and the bytes that were not taken move.
  abbrev pub refill : NetEngineConfig k → Conn k → k.Buf → Action k.World (Conn k)
  refill cfg c abuf =
      if ltb (v.buf_len c.buf) (cfg.min_read_buf_sz % 2 ^ 32)
      then (do
        newbuf ← new_buf v cfg.read_buf_sz cfg.allocator
        pure (record c {
          buf = if ltb 0 (v.io.len abuf) then v.buf_fill newbuf abuf else newbuf;
          marker = 0;
        }))
      else pure c

  -- What is done with the bytes of one read.
  unfoldable pub receive :
      ℕ → NetEngineConfig k → ℕ → Conn k → MioResult ℕ → Action k.World (Conn k)
  receive fuel cfg token c (ok (ready n)) = do
    abuf ← unwrap_some (v.slice_pos_from_begin c.buf c.marker n)
    (proto, marker, rest) ← parse v.protocol v.send fuel c.conn_tx token c.proto c.marker abuf
    refill cfg (record c { proto = proto; marker = marker }) rest
  receive fuel cfg token c (ok would_block) = pure c
  receive fuel cfg token c (err _) = pure c

  -- `Connection::read`
  abbrev pub read_connection : Conn k → Action k.World (MioResult ℕ × k.ReadBuf)
  read_connection c = v.read c.sock c.buf

  -- `c.read()`, and the match on it.
  unfoldable pub read_from : ℕ → NetEngineConfig k → ℕ → Conn k → Action k.World (Conn k)
  unfolding receive
  read_from fuel cfg token c = do
    (result, buf) ← read_connection c
    receive fuel cfg token (record c { buf = buf }) result

  -- The registration for one event more.
  unfoldable pub watch : ℕ → Conn k → k.Interest → Action k.World (Conn k)
  watch token c event = do
    let c' = record c { interest = v.interest_insert c.interest event }
    r ← v.reregister c'.sock token c'.interest
    _ ← unwrap_answer r
    pure c'

  -- Where something is left of the write queue, the connection waits to write.
  unfoldable pub await_write : ℕ → Conn k → List (StreamBuf k.Buf) → Action k.World (Conn k)
  unfolding watch
  await_write token c out =
      if ltb 0 (length out)
      then watch token (record c { outbuf = out }) v.writable_event
      else pure (record c { outbuf = out })

  -- The write queue is drained.
  unfoldable pub flush : ℕ → ℕ → Conn k → Action k.World (Conn k)
  flush fuel token c = do out ← drain v.io v.write fuel c.sock c.outbuf; await_write token c out

  -- The timer is cleared where the callback says so.
  abbrev pub clear_unless : Bool → Option k.Handle → Action k.World (Unit {0})
  clear_unless true handle = pure tt
  clear_unless false handle = do h ← unwrap_some handle; _ ← v.clear_timeout h; pure tt

module _ {k : Kinds} {l : Slabs} (v : Services k) where
  -- The connection is in the slab, or there was no room.
  unfoldable pub welcomed :
      EngineInner k l → Option (ℕ × l.Slab (Conn k)) → Action k.World (EngineInner k l)
  welcomed e (some (tok, conns)) = do
    c ← unwrap_some (l.get conns tok)
    r ← v.register c.sock tok (v.interest_insert v.readable_event v.hup_event)
    _ ← unwrap_answer r
    pure (record e { conns = conns })
  welcomed e none = pure e

  -- What `accept` gave becomes a connection.
  unfoldable pub accepted :
      EngineInner k l → k.Tx → MioResult k.Sock → Action k.World (EngineInner k l)
  unfolding welcomed
  accepted e tx (ok (ready s)) = do
    buf ← new_buf v e.config.read_buf_sz e.config.allocator
    welcomed e (l.insert e.conns (connection v s tx buf))
  accepted e tx (ok would_block) = pure e
  accepted e tx (err _) = pure e

  -- `readable`, for a listener.
  unfoldable pub readable_listener : EngineInner k l → ℕ → Action k.World (EngineInner k l)
  unfolding accepted
  readable_listener e token = do
    a ← unwrap_some (l.get e.listeners token)
    r ← v.accept a.0
    e' ← accepted e a.1 r
    again ← v.reregister_acceptor a.0 token v.readable_event
    _ ← unwrap_answer again
    pure e'

  -- The end of `readable`: the connection is dropped, or waits for more to read.
  abbrev pub drop_or_watch : Bool → EngineInner k l → ℕ → Conn k → Action k.World (EngineInner k l)
  drop_or_watch true e token c = pure (record e { conns = l.remove e.conns token })
  drop_or_watch false e token c = do
    c' ← watch v token c v.readable_event
    pure (record e { conns = l.store e.conns token c' })

  -- `readable`, for a connection. The hint says that the other end has hung up.
  unfoldable pub readable_connection :
      ℕ → EngineInner k l → ℕ → k.Hint → Conn k → Action k.World (EngineInner k l)
  unfolding read_from watch
  readable_connection fuel e token hint c = do
    c' ← read_from v fuel e.config token c
    drop_or_watch (v.contains_huphint hint) e token c'

  unfoldable pub readable : ℕ → EngineInner k l → ℕ → k.Hint → Action k.World (EngineInner k l)
  unfolding readable_listener readable_connection
  readable fuel e token hint =
      if l.contains e.listeners token
      then readable_listener e token
      else elim (l.get e.conns token) [
        | some c ↦ readable_connection fuel e token hint c
        | none ↦ pure e
      ]

  unfoldable pub writable : ℕ → EngineInner k l → ℕ → Action k.World (EngineInner k l)
  unfolding flush
  writable fuel e token = elim (l.get e.conns token) [
    | some c ↦ do c' ← flush v fuel token c; pure (record e { conns = l.store e.conns token c' })
    | none ↦ pure e
  ]

  unfoldable pub notify : ℕ → EngineInner k l → StreamBuf k.Buf → Action k.World (EngineInner k l)
  unfolding flush
  notify fuel e msg = elim (l.get e.conns msg.token) [
    | some c ↦ do
      c' ← flush v fuel msg.token (record c { outbuf = c.outbuf ++ msg ∷ [] })
      pure (record e { conns = l.store e.conns msg.token c' })
    | none ↦ pure e
  ]

  -- The handler `timeout`.
  unfoldable pub timeout : EngineInner k l → ℕ → Action k.World (EngineInner k l)
  timeout e tok = do
    t ← unwrap_some (l.get e.timeouts tok)
    (cb, more) ← v.call_back t.0
    _ ← clear_unless v more t.1
    pure (record e { timeouts = l.store e.timeouts tok (cb, t.1) })

  -- `NetEngine::timeout`
  unfoldable pub set_timeout : EngineInner k l → ℕ → k.Callback → Action k.World (EngineInner k l)
  set_timeout e duration callback = do
    (tok, timeouts) ← unwrap_some (l.insert e.timeouts (callback, none))
    r ← v.loop_timeout tok duration
    handle ← unwrap_answer r
    t ← unwrap_some (l.get timeouts tok)
    pure (record e { timeouts = l.store timeouts tok (t.0, some handle) })
