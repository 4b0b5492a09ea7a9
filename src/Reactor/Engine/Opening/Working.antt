-- ===== src/Reactor/Engine/Opening/Working.antt =====
-- That `connect`, `listen` and `set_timeout` succeed where the system gives what it is asked for.
use rx_rust.Base.{ℕ, ◌%◌, ◌^◌, ◌<◌, ◌≡◌, refl, Option, none, some, List, ◌∷◌, arith}
use rx_rust.Effect.{done, ok}
use rx_rust.NetStream
use rx_rust.NetStream.{NetStream}
use rx_rust.Reactor.Services.{Kinds, Services, Slabs}
use rx_rust.Reactor.Engine.{Conn, EngineInner, default_config, new_buf, connection}
use rx_rust.Reactor.Engine.Events.{set_timeout}
use rx_rust.Reactor.Engine.Opening.{
  connected, registered, inserted, opened, connect, polled, kept, listening, bound, opened_local,
  listen,
}

-- Every call that `connect`, `listen` and `set_timeout` make of mio, iobuf and the standard library
-- succeeds, and a slab that was just made has room.
pub record Works {k : Kinds} (v : Services k) (l : Slabs) : Type 1 where
  pub resolves :
      (h : k.Host) (w : k.World)
      → (a : k.Addr) × (more : List k.Addr) × (w' : k.World) × (v.get_host_addresses h w
          ≡ (done (ok (a ∷ more)), w'))
  pub opens : (w : k.World) → (s : k.Sock) × (w' : k.World) × (v.socket w ≡ (done (ok s), w'))
  pub binds :
      (s : k.Sock) (a : k.Addr) (port : ℕ) (w : k.World)
      → (s' : k.Sock) × (w' : k.World) × (v.bind s a port w ≡ (done (ok s'), w'))
  pub listens :
      (s : k.Sock) (n : ℕ) (w : k.World)
      → (a : k.Acceptor) × (w' : k.World) × (v.listen_on s n w ≡ (done (ok a), w'))
  pub connects :
      (s : k.Sock) (a : k.Addr) (port : ℕ) (w : k.World)
      → (w' : k.World) × (v.connect_socket s a port w ≡ (done (ok tt), w'))
  pub makes_channel :
      (n : ℕ) (w : k.World)
      → (tx : k.Tx) × (rx : k.Rx) × (w' : k.World) × (v.sync_channel n w ≡ (done (tx, rx), w'))
  pub makes_buf :
      (n : ℕ) (w : k.World) → (b : k.ReadBuf) × (w' : k.World) × (v.buf_new n w ≡ (done b, w'))
  pub registers :
      (s : k.Sock) (t : ℕ) (i : k.Interest) (w : k.World)
      → (w' : k.World) × (v.register s t i w ≡ (done (ok tt), w'))
  pub registers_acceptor :
      (a : k.Acceptor) (t : ℕ) (i : k.Interest) (w : k.World)
      → (w' : k.World) × (v.register_acceptor a t i w ≡ (done (ok tt), w'))
  pub has_channel :
      (w : k.World) → (c : k.Channel) × (w' : k.World) × (v.loop_channel w ≡ (done c, w'))
  pub sets_timer :
      (t d : ℕ) (w : k.World)
      → (h : k.Handle) × (w' : k.World) × (v.loop_timeout t d w ≡ (done (ok h), w'))
  pub has_room :
      {A : Type 0} (start capacity : ℕ) (a : A)
      → start < capacity
      → (t : ℕ) × (s : l.Slab A) × (l.insert (l.starting_at start capacity) a ≡ some (t, s))

module _ {k : Kinds} {l : Slabs} (v : Services k) (works : Works v l) where
  open works use {
    resolves, opens, binds, listens, connects, makes_channel, makes_buf, registers,
    registers_acceptor, has_channel, sets_timer, has_room,
  }

  pub listen-ok :
      (e : EngineInner k l) (host : k.Host) (port : ℕ) (w : k.World)
      → e.listeners ≡ l.starting_at 0 128
      → (s : l.Slab (k.Acceptor × k.Tx)) × (rx : k.Rx) × (w' : k.World) × (listen v e host port w
          ≡ (done (record e { listeners = s }, ok rx), w'))
  unfolding listen opened_local bound listening kept polled
  listen-ok e host port w fresh =
      let (ip, more, w₁, e₁) = resolves host w in
      let (s, w₂, e₂) = opens w₁ in
      let (s', w₃, e₃) = binds s ip (port % 2 ^ 16) w₂ in
      let (a, w₄, e₄) = listens s' 255 w₃ in
      let (tx, rx, w₅, e₅) = makes_channel e.config.queue_size w₄ in
      let (t, slab, e₆) = has_room 0 128 (a, tx) (omega arith) in
      let there = l.insert-same (l.starting_at 0 128) slab t (a, tx) e₆ in
      let (w₆, e₇) = registers_acceptor a t v.readable_event w₅ in
      (slab, rx, w₆, rw (e₁, e₂, e₃, e₄, e₅, fresh, e₆, there, e₇) refl)

  pub connect-ok :
      (e : EngineInner k l) (host : k.Host) (port : ℕ) (w : k.World)
      → e.conns ≡ l.starting_at 256 10496
      → e.config ≡ default_config
      → (s : l.Slab (Conn k)) × (cl : NetStream k.Channel k.Rx) × (w' : k.World) × (connect v e host
            port w
          ≡ (done (record e { conns = s }, ok cl), w'))
  unfolding connect opened inserted registered connected new_buf
  connect-ok e host port w fresh cfg =
      let (ip, more, w₁, e₁) = resolves host w in
      let (s, w₂, e₂) = opens w₁ in
      let (tx, rx, w₃, e₃) = makes_channel 524288 w₂ in
      let (b, w₄, e₄) = makes_buf 1536 w₃ in
      let c = connection v s tx b in
      let (t, slab, e₅) = has_room 256 10496 c (omega arith) in
      let there = l.insert-same (l.starting_at 256 10496) slab t c e₅ in
      let (w₅, e₆) = registers c.sock t v.readable_event w₄ in
      let (w₆, e₇) = connects c.sock ip (port % 2 ^ 16) w₅ in
      let (ch, w₇, e₈) = has_channel w₆ in
      (
        slab,
        NetStream.new t rx ch,
        w₇,
        rw (e₁, e₂, cfg, e₃, e₄, fresh, e₅, there, e₆, there, e₇, e₈) refl,
      )

  pub set_timeout-ok :
      (e : EngineInner k l) (duration : ℕ) (callback : k.Callback) (w : k.World)
      → e.timeouts ≡ l.starting_at 129 255
      → (e' : EngineInner k l) × (w' : k.World) × (set_timeout v e duration callback w
          ≡ (done e', w'))
  unfolding set_timeout
  set_timeout-ok e duration callback w fresh =
      let (t, slab, e₁) =
        has_room {A = k.Callback × Option k.Handle} 129 255 (callback, none) (omega arith) in
      let there = l.insert-same (l.starting_at 129 255) slab t (callback, none) e₁ in
      let (h, w₁, e₂) = sets_timer t duration w in
      (
        record e { timeouts = l.store slab t (callback, some h) },
        w₁,
        rw (fresh, e₁, e₂, there) refl,
      )
