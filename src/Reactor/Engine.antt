-- ===== src/Reactor/Engine.antt =====
-- src/reactor.rs, `NetEngineConfig`, `EngineInner` and its handlers, and the methods of `NetEngine`
-- that keep state. The event loop is part of the world; an engine goes in and comes out.
pub mod Opening
pub mod Events
pub mod Slots
pub mod Accepting
pub mod Loop
pub mod Isolation
pub mod Sending
pub mod Framing
pub mod Receiving
use rx_rust.Base.{
  ℕ, ◌+◌, ◌%◌, ◌^◌, Bool, true, false, Option, none, some, List, [], ◌∷◌, ◌++◌, length, ltb,
  if◌then◌else◌,
}
use rx_rust.Effect.{Result, ok, err, Action, pure, panic, ◌>>=◌, ◌>>◌}
use rx_rust.Protocol.{Protocol}
use rx_rust.Reactor.Connection
use rx_rust.Reactor.Connection.{
  StreamBuf, ProtoMsg, NonBlock, ready, would_block, MioResult, Connection, drain, parse,
}
use rx_rust.Reactor.Services.{Kinds, Answer, Services, Slabs, unwrap_answer, unwrap_some}

pub record NetEngineConfig (k : Kinds) : Type 0 where
  pub queue_size : ℕ
  pub read_buf_sz : ℕ
  pub min_read_buf_sz : ℕ
  pub max_connections : ℕ
  pub poll_timeout_ms : ℕ
  pub allocator : Option k.Allocator

-- The configuration that `NetEngine::new` chooses.
abbrev pub default_config : {k : Kinds} → NetEngineConfig k
default_config = record {
  queue_size = 524288;
  read_buf_sz = 1536;
  min_read_buf_sz = 64;
  max_connections = 10240;
  poll_timeout_ms = 100;
  allocator = none;
}

pub record EventLoopConfig : Type 0 where
  pub io_poll_timeout_ms : ℕ
  pub notify_capacity : ℕ
  pub messages_per_tick : ℕ
  pub timer_tick_ms : ℕ
  pub timer_wheel_size : ℕ
  pub timer_capacity : ℕ

abbrev pub event_loop_config : ℕ → ℕ → EventLoopConfig
event_loop_config queue_sz timeout = record {
  io_poll_timeout_ms = timeout;
  notify_capacity = queue_sz;
  messages_per_tick = 512;
  timer_tick_ms = 100;
  timer_wheel_size = 1024;
  timer_capacity = 65536;
}

abbrev pub Conn : Kinds → Type 0
Conn k = Connection k.Sock k.Buf k.ReadBuf k.Interest k.Tx k.ProtoState

pub record EngineInner (k : Kinds) (l : Slabs) : Type 0 where
  pub listeners : l.Slab (k.Acceptor × k.Tx)
  pub timeouts : l.Slab (k.Callback × Option k.Handle)
  pub conns : l.Slab (Conn k)
  pub config : NetEngineConfig k

-- The messages of the errors.
pub data Failure : Type 0 where
  no_socket : Failure
  not_bound : Failure
  not_listening : Failure
  slab_full : Failure
  not_registered : Failure
  not_connected : Failure

-- `EngineInner::new`
unfoldable pub new : {k : Kinds} {l : Slabs} → NetEngineConfig k → EngineInner k l
new {k} {l} cfg = record {
  listeners = l.starting_at 0 128;
  timeouts = l.starting_at 129 255;
  conns = l.starting_at 256 (cfg.max_connections + 256);
  config = cfg;
}

module _ {k : Kinds} (v : Services k) where
  -- The function `new_buf`.
  unfoldable pub new_buf : ℕ → Option k.Allocator → Action k.World k.ReadBuf
  new_buf sz (some alloc) = v.buf_new_with_allocator sz alloc
  new_buf sz none = v.buf_new sz

  abbrev pub connection : k.Sock → k.Tx → k.ReadBuf → Conn k
  connection = Connection.new v.hup_event v.protocol.new
