-- ===== src/Reactor/Services.antt =====
-- What src/reactor.rs calls of mio, iobuf and the standard library: the kinds of objects, the
-- calls, and mio's slabs with their laws.
use rx_rust.Base.{ℕ, ◌≡◌, ◌≢◌, Bool, Option, none, some, List}
use rx_rust.Effect.{Result, Action, pure, panic}
use rx_rust.Protocol.{Iobuf, Protocol}
use rx_rust.Sendable.{SendError}
use rx_rust.Reactor.Connection.{ProtoMsg, MioResult}

-- A socket or an acceptor stands for its descriptor: what it does changes the world.
pub record Kinds : Type 1 where
  pub World : Type 0
  pub Sock : Type 0
  pub Acceptor : Type 0
  pub Buf : Type 0
  pub ReadBuf : Type 0
  pub Interest : Type 0
  pub Hint : Type 0
  pub Tx : Type 0
  pub Rx : Type 0
  pub Channel : Type 0
  pub Callback : Type 0
  pub Handle : Type 0
  pub Allocator : Type 0
  pub Host : Type 0
  pub Addr : Type 0
  pub ProtoState : Type 0
  pub Output : Type 0

-- The answer of a call that gives something or an error.
abbrev pub Answer : Type 0 → Type 0
Answer A = Result A (Unit {0})

pub record Services (k : Kinds) : Type 0 where
  pub io : Iobuf k.Buf
  pub protocol : Protocol k.World k.ProtoState k.Buf k.Output
  pub send :
      k.Tx → ProtoMsg k.Output → Action k.World (Result (Unit {0}) (SendError (ProtoMsg k.Output)))
  pub sync_channel : ℕ → Action k.World (k.Tx × k.Rx)
  -- The append buffers of iobuf.
  pub buf_new : ℕ → Action k.World k.ReadBuf
  pub buf_new_with_allocator : ℕ → k.Allocator → Action k.World k.ReadBuf
  pub buf_len : k.ReadBuf → ℕ
  pub buf_fill : k.ReadBuf → k.Buf → k.ReadBuf
  pub slice_pos_from_begin : k.ReadBuf → ℕ → ℕ → Option k.Buf
  -- The sockets.
  pub get_host_addresses : k.Host → Action k.World (Answer (List k.Addr))
  pub socket : Action k.World (Answer k.Sock)
  pub connect_socket : k.Sock → k.Addr → ℕ → Action k.World (Answer (Unit {0}))
  pub bind : k.Sock → k.Addr → ℕ → Action k.World (Answer k.Sock)
  pub listen_on : k.Sock → ℕ → Action k.World (Answer k.Acceptor)
  pub accept : k.Acceptor → Action k.World (MioResult k.Sock)
  pub read : k.Sock → k.ReadBuf → Action k.World (MioResult ℕ × k.ReadBuf)
  pub write : k.Sock → k.Buf → Action k.World (MioResult ℕ × k.Buf)
  -- The event loop. All registrations are edge-triggered.
  pub readable_event : k.Interest
  pub writable_event : k.Interest
  pub hup_event : k.Interest
  pub interest_insert : k.Interest → k.Interest → k.Interest
  pub contains_huphint : k.Hint → Bool
  pub register : k.Sock → ℕ → k.Interest → Action k.World (Answer (Unit {0}))
  pub reregister : k.Sock → ℕ → k.Interest → Action k.World (Answer (Unit {0}))
  pub register_acceptor : k.Acceptor → ℕ → k.Interest → Action k.World (Answer (Unit {0}))
  pub reregister_acceptor : k.Acceptor → ℕ → k.Interest → Action k.World (Answer (Unit {0}))
  pub loop_channel : Action k.World k.Channel
  pub loop_timeout : ℕ → ℕ → Action k.World (Answer k.Handle)
  pub clear_timeout : k.Handle → Action k.World Bool
  pub call_back : k.Callback → Action k.World (k.Callback × Bool)

-- mio's slab: a store that gives a token for what is put into it. `store` is an assignment through
-- what `get_mut` gives.
pub record Slabs : Type 1 where
  pub Slab : Type 0 → Type 0
  pub starting_at : {A : Type 0} → ℕ → ℕ → Slab A
  pub contains : {A : Type 0} → Slab A → ℕ → Bool
  pub get : {A : Type 0} → Slab A → ℕ → Option A
  pub store : {A : Type 0} → Slab A → ℕ → A → Slab A
  pub insert : {A : Type 0} → Slab A → A → Option (ℕ × Slab A)
  pub remove : {A : Type 0} → Slab A → ℕ → Slab A
  pub get-starting_at :
      {A : Type 0} (start capacity t : ℕ) → get {A = A} (starting_at start capacity) t ≡ none
  pub store-same :
      {A : Type 0} (s : Slab A) (t : ℕ) (a b : A) → get s t ≡ some a → get (store s t b) t ≡ some b
  pub store-other :
      {A : Type 0} (s : Slab A) (t u : ℕ) (b : A) → u ≢ t → get (store s t b) u ≡ get s u
  pub remove-same : {A : Type 0} (s : Slab A) (t : ℕ) → get (remove s t) t ≡ none
  pub remove-other : {A : Type 0} (s : Slab A) (t u : ℕ) → u ≢ t → get (remove s t) u ≡ get s u
  pub insert-fresh :
      {A : Type 0} (s s' : Slab A) (t : ℕ) (a : A) → insert s a ≡ some (t, s') → get s t ≡ none
  pub insert-same :
      {A : Type 0} (s s' : Slab A) (t : ℕ) (a : A) → insert s a ≡ some (t, s') → get s' t ≡ some a
  pub insert-other :
      {A : Type 0} (s s' : Slab A) (t u : ℕ) (a : A)
      → insert s a ≡ some (t, s')
      → u ≢ t
      → get s' u ≡ get s u

-- `unwrap`, of an answer and of an option.
abbrev pub unwrap_answer : {W A : Type 0} → Answer A → Action W A
unwrap_answer (Result.ok a) = pure a
unwrap_answer (Result.err e) = panic

abbrev pub unwrap_some : {W A : Type 0} → Option A → Action W A
unwrap_some (some a) = pure a
unwrap_some none = panic
