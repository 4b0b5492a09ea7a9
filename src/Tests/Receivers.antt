-- ===== src/Tests/Receivers.antt =====
-- A connection that receives whole messages. The world is what the receiver has been sent, the
-- messages that the reads to come will bring, the bytes that were written, and the registrations, the
-- last one first. A read buffer is its bytes and the room that is left.
use rx_rust.Base.{
  ℕ, ◌+◌, ◌-◌, ◌%◌, ◌^◌, ◌≤◌, if◌then◌else◌, ◌≡◌, refl, ap, Bool, true, false, Option, none, some,
  List, [], ◌∷◌, ◌++◌, length, take, drop, arith, leb,
}
use rx_rust.Effect.{Outcome, done, ok, pure}
use rx_rust.Protocol.{BufProtocol, buf_protocol, buf_protocol_impl, append}
use rx_rust.Reactor.Connection
use rx_rust.Reactor.Connection.{ProtoMsg, StreamBuf, ready, would_block, MioResult}
use rx_rust.Reactor.Services.{Kinds, Services}
use rx_rust.Reactor.Engine.{Conn, EngineInner, new, new_buf, default_config, connection}
use rx_rust.Reactor.Engine.Receiving.{Peer, encoded}
use rx_rust.Reactor.Engine.Loop.{Event, can_read}
use rx_rust.Reactor.Engine.Loop.Received.{Received, handle_all-Received}
use rx_rust.Tests.Slabs.{slabs}
use rx_rust.Tests.Reactors.{lists}

abbrev pub Messages : Type 0
Messages = List (ProtoMsg (List ℕ))

abbrev pub Coming : Type 0
Coming = List (List (List ℕ))

abbrev pub World : Type 0
World = Messages × Coming × List ℕ × List (ℕ × List ℕ)

abbrev pub ReadBuf : Type 0
ReadBuf = List ℕ × ℕ

abbrev bytes_of : List (List ℕ) → List ℕ
bytes_of [] = []
bytes_of (o ∷ os) = o ++ bytes_of os

-- A read brings the messages that come next, where there is room for them, or would block.
abbrev read_next : ReadBuf → World → Outcome (MioResult ℕ × ReadBuf) × World
read_next b (ms, [], out, polls) = (done (ok would_block, b), (ms, [], out, polls))
read_next b (ms, os ∷ later, out, polls) =
    let n = length (bytes_of os) in
    if leb n b.1
    then (done (ok (ready n), (b.0 ++ bytes_of os, b.1 - n)), (ms, later, out, polls))
    else (done (ok would_block, b), (ms, os ∷ later, out, polls))

-- A socket that takes two bytes at a time.
abbrev write_some : List ℕ → World → Outcome (MioResult ℕ × List ℕ) × World
write_some b (ms, coming, out, polls) =
    (done (ok (ready (length (take 2 b))), drop 2 b), (ms, coming, out ++ take 2 b, polls))

abbrev pub kinds : Kinds
kinds = record {
  World = World;
  Sock = ℕ;
  Acceptor = ℕ;
  Buf = List ℕ;
  ReadBuf = ReadBuf;
  Interest = List ℕ;
  Hint = Bool;
  Tx = Unit {0};
  Rx = Unit {0};
  Channel = Unit {0};
  Callback = ℕ;
  Handle = ℕ;
  Allocator = Unit {0};
  Host = ℕ;
  Addr = ℕ;
  ProtoState = BufProtocol;
  Output = List ℕ;
}

-- A message has two bytes.
abbrev pub services : Services kinds
services = record {
  io = lists;
  protocol = buf_protocol_impl lists 2;
  send = λ tx m w. (done (ok tt), (w.0 ++ m ∷ [], w.1, w.2, w.3));
  sync_channel = λ n. pure (tt, tt);
  buf_new = λ n. pure ([], n % 2 ^ 32);
  buf_new_with_allocator = λ n a. pure ([], n % 2 ^ 32);
  buf_len = λ b. b.1;
  buf_fill = λ b a. (b.0 ++ a, b.1 - length a);
  slice_pos_from_begin = λ b pos n. some (take n (drop pos b.0));
  get_host_addresses = λ h. pure (ok (h ∷ []));
  socket = pure (ok 7);
  connect_socket = λ s a port. pure (ok tt);
  bind = λ s a port. pure (ok s);
  listen_on = λ s n. pure (ok s);
  accept = λ a. pure (ok (ready 8));
  read = λ s b. read_next b;
  write = λ s b. write_some b;
  readable_event = 1 ∷ [];
  writable_event = 2 ∷ [];
  hup_event = 4 ∷ [];
  interest_insert = λ i j. i ++ j;
  contains_huphint = λ h. h;
  register = λ s t i. pure (ok tt);
  reregister = λ s t i w. (done (ok tt), (w.0, w.1, w.2, (t, i) ∷ w.3));
  register_acceptor = λ s t i. pure (ok tt);
  reregister_acceptor = λ s t i. pure (ok tt);
  loop_channel = pure tt;
  loop_timeout = λ t d. pure (ok t);
  clear_timeout = λ h. pure true;
  call_back = λ c. pure (c, true);
}

pub two_bytes :
    (p : BufProtocol) (b : List ℕ) (w : World) (o rest : List ℕ)
    → length o ≡ 2
    → b ≡ o ++ rest
    → (b' : List ℕ) × (services.protocol.append p b w ≡ (done (p, some (o, b', length o)), w))
      × (b' ≡ rest)
unfolding buf_protocol_impl append
two_bytes buf_protocol b w [] rest h e = absurd (omega arith)
two_bytes buf_protocol b w (x ∷ []) rest h e = absurd (omega arith)
two_bytes buf_protocol b w (x ∷ y ∷ []) rest h e =
    let enough : leb 2 (2 + length rest) ≡ true = ground arith in (rest, rw e (ground arith), refl)
two_bytes buf_protocol b w (x ∷ y ∷ z ∷ o) rest h e = absurd (omega arith)

pub no_bytes :
    (p : BufProtocol) (b : List ℕ) (w : World)
    → b ≡ []
    → services.protocol.append p b w ≡ (done (p, none), w)
unfolding buf_protocol_impl append
no_bytes p b w e = rw e refl

pub fresh_bytes :
    (sz : ℕ) (a : Option (Unit {0})) (w : World)
    → (b : ReadBuf) × (w' : World) × (new_buf services sz a w ≡ (done b, w'))
      × (b.0 ≡ [])
      × (b.1 ≡ sz % 2 ^ 32)
      × (w'.0 ≡ w.0)
      × (w'.1 ≡ w.1)
      × (w'.2 ≡ w.2)
unfolding new_buf
fresh_bytes sz none w = (([], sz % 2 ^ 32), w, refl, refl, refl, refl, refl, refl)
fresh_bytes sz (some a) w = (([], sz % 2 ^ 32), w, refl, refl, refl, refl, refl, refl)

drop_front : (front new : List ℕ) → drop (length front) (front ++ new) ≡ new
drop_front [] new = refl
drop_front (x ∷ front) new = drop_front front new

take_all : (new : List ℕ) → take (length new) new ≡ new
take_all [] = refl
take_all (x ∷ new) = ap (◌∷◌ x) (take_all new)

pub slice_bytes :
    (b : ReadBuf) (pos n : ℕ) (front new : List ℕ)
    → b.0 ≡ front ++ new
    → length front ≡ pos
    → length new ≡ n
    → (a : List ℕ) × (services.slice_pos_from_begin b pos n ≡ some a) × (a ≡ new)
slice_bytes b pos n front new e at len =
    (new, rw (e, ← at, ← len, drop_front front new, take_all new) refl, refl)

abbrev pub peer : Peer services tt
peer = record {
  got = λ w. w.0;
  unread = λ w. w.1;
  out = λ w. w.2;
  held = λ b. b.0;
  encode = λ o. o;
  IsMessage = λ o. length o ≡ 2;
  takes = two_bytes;
  waits = no_bytes;
  sends = λ m w. (ok tt, (w.0 ++ m ∷ [], w.1, w.2, w.3), refl, refl, refl, refl);
  fresh = fresh_bytes;
  slices = slice_bytes;
  registers = λ s t i w. ((w.0, w.1, w.2, (t, i) ∷ w.3), refl, refl, refl, refl);
}

-- Two bytes of an earlier message stand in front of the marker; after four bytes more, too little
-- room is left.
abbrev pub conn : Conn kinds
conn = record (connection services 7 tt (8 ∷ 9 ∷ [], 65)) { marker = 2 }

abbrev pub engine : EngineInner kinds slabs
engine = record (new default_config) { conns = some conn ∷ [] }

-- What comes: two messages, none, and one.
abbrev pub coming : Coming
coming = ((1 ∷ 2 ∷ []) ∷ (3 ∷ 4 ∷ []) ∷ []) ∷ [] ∷ ((5 ∷ 6 ∷ []) ∷ []) ∷ []

bytes_of-encoded : (os : List (List ℕ)) → bytes_of os ≡ encoded services tt peer os
bytes_of-encoded [] = refl
bytes_of-encoded (o ∷ os) = ap (◌++◌ o) (bytes_of-encoded os)

pub comes :
    (s : ℕ) (b : ReadBuf) (w : World) (os : List (List ℕ)) (later : Coming)
    → w.1 ≡ os ∷ later
    → length (encoded services tt peer os) ≤ b.1
    → (buf : ReadBuf) × (w' : World) × (services.read s b w
        ≡ (done (ok (ready (length (encoded services tt peer os))), buf), w'))
      × (buf.0 ≡ b.0 ++ encoded services tt peer os)
      × (buf.1 + length (encoded services tt peer os) ≡ b.1)
      × (w'.0 ≡ w.0)
      × (w'.1 ≡ later)
      × (w'.2 ≡ w.2)
comes s b w os later e room =
    let bytes = bytes_of-encoded os in
    let n = length (encoded services tt peer os) in
    let fits : leb n b.1 ≡ true = ground arith in
    (
      (b.0 ++ encoded services tt peer os, b.1 - n),
      (w.0, later, w.2, w.3),
      rw (e, bytes, fits) refl,
      refl,
      omega arith,
      refl,
      refl,
      refl,
    )

-- Two events, and a read that is still to come.
abbrev pub events : List (Event kinds)
events = can_read 0 false ∷ can_read 0 false ∷ []

handle_all-Received_example :
    Received services tt peer {l = slabs} 5 0 comes events engine
      ([], coming, [], [])
      ((1 ∷ 2 ∷ []) ∷ (3 ∷ 4 ∷ []) ∷ [])
      (((5 ∷ 6 ∷ []) ∷ []) ∷ [])
unfolding Connection.new new
handle_all-Received_example =
    handle_all-Received services tt peer {l = slabs} 5 0 comes events
      (((1 ∷ 2 ∷ []) ∷ (3 ∷ 4 ∷ []) ∷ []) ∷ [] ∷ []) (((5 ∷ 6 ∷ []) ∷ []) ∷ []) engine conn
      ([], coming, [], []) (refl, refl, (refl, refl, tt)) refl refl
      (((refl, (refl, tt)), omega arith, omega arith), ((tt, omega arith, omega arith), tt))
      (omega arith) refl refl refl refl (omega arith) (omega arith)
