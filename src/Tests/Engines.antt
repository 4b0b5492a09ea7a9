-- ===== src/Tests/Engines.antt =====
-- The engine at concrete inputs. The world is the bytes on the wire.
use rx_rust.Base.{
  inl, ℕ, zero, suc, ◌≡◌, refl, Bool, true, none, some, List, [], ◌∷◌, ◌++◌, take, drop, arith,
}
use rx_rust.Effect.{Outcome, done, panicked, out_of_fuel, Result, ok, err, pure, OnDone}
use rx_rust.Protocol.{BufProtocol, buf_protocol_impl}
use rx_rust.Reactor.Connection
use rx_rust.Reactor.Connection.{StreamBuf, ready, would_block, MioResult}
use rx_rust.Reactor.Services.{Kinds, Services}
use rx_rust.Reactor.Engine.{Conn, EngineInner, new, default_config, connection}
use rx_rust.Reactor.Engine.Events.{
  readable, readable_listener, writable, notify, timeout, set_timeout,
}
use rx_rust.Reactor.Engine.Accepting.{Accepts, readable_listener-Accepts}
use rx_rust.Reactor.Draining.{Wrote}
use rx_rust.Reactor.Engine.Loop.{Event, notified, can_write, Reach, start, later, sets_timeout}
use rx_rust.Reactor.Engine.Loop.Sent.{Sent, handle_all-Sent}
use rx_rust.Reactor.Engine.Loop.Reachable.{timeout-Reach}
use rx_rust.Reactor.Engine.Isolation.{Only, events-Only}
use rx_rust.Tests.Slabs.{slabs}
use rx_rust.Tests.Reactors.{lists, write_byte, write_byte-Wrote}
use rx_rust.Reactor.Engine.Opening.{connect, listen}
use rx_rust.Reactor.Engine.Opening.Endings.{Connects, connect-Connects, Listens, listen-Listens}

-- Buffers, read buffers and messages are lists of bytes; everything else is a number or nothing.
abbrev pub kinds : Kinds
kinds = record {
  World = List ℕ;
  Sock = ℕ;
  Acceptor = ℕ;
  Buf = List ℕ;
  ReadBuf = List ℕ;
  Interest = List ℕ;
  Hint = Bool;
  Tx = Unit {0};
  Rx = Unit {0};
  Channel = Unit {0};
  Callback = ℕ;
  Handle = ℕ;
  Allocator = Unit {0};
  Host = ℕ;
  Addr = ℕ;
  ProtoState = BufProtocol;
  Output = List ℕ;
}

-- A server that refuses connections to the port 0, and sockets that have three bytes to read.
abbrev refuse_zero : ℕ → Result (Unit {0}) (Unit {0})
refuse_zero zero = err tt
refuse_zero (suc n) = ok tt

abbrev pub services : Services kinds
services = record {
  io = lists;
  protocol = buf_protocol_impl lists 2;
  send = λ tx m. pure (ok tt);
  sync_channel = λ n. pure (tt, tt);
  buf_new = λ n. pure [];
  buf_new_with_allocator = λ n a. pure [];
  buf_len = λ b. 100;
  buf_fill = λ b a. b ++ a;
  slice_pos_from_begin = λ b pos n. some (take n (drop pos b));
  get_host_addresses = λ h. pure (ok (h ∷ []));
  socket = pure (ok 7);
  connect_socket = λ s a port. pure (refuse_zero port);
  bind = λ s a port. pure (ok s);
  listen_on = λ s n. pure (ok s);
  accept = λ a. pure (ok (ready 8));
  read = λ s b. pure (ok (ready 3), b ++ 1 ∷ 2 ∷ 3 ∷ []);
  write = write_byte;
  readable_event = 1 ∷ [];
  writable_event = 2 ∷ [];
  hup_event = 4 ∷ [];
  interest_insert = λ i j. i ++ j;
  contains_huphint = λ h. h;
  register = λ s t i. pure (ok tt);
  reregister = λ s t i. pure (ok tt);
  register_acceptor = λ s t i. pure (ok tt);
  reregister_acceptor = λ s t i. pure (ok tt);
  loop_channel = pure tt;
  loop_timeout = λ t d. pure (ok t);
  clear_timeout = λ h. pure true;
  call_back = λ c. pure (c, true);
}

-- An engine with one connection, in the slab's second entry, and no listener.
abbrev pub conn : Conn kinds
conn = connection services 7 tt []

abbrev pub engine : EngineInner kinds slabs
engine = record (new default_config) { conns = none ∷ some conn ∷ [] }

events-Only_example :
    ((hint : Bool) → OnDone (Only 1 engine) (readable services 9 engine 1 hint []))
    × OnDone (Only 1 engine) (writable services 9 engine 1 [])
    × ((buf : List ℕ)
        → OnDone (Only 1 engine) (notify services 9 engine (record { buf = buf; token = 1 }) []))
unfolding new
events-Only_example = events-Only services 9 engine 1 [] refl

-- Six bytes are to be sent, and the wire takes four of them.
abbrev message : StreamBuf (List ℕ)
message = record { buf = 1 ∷ 2 ∷ 3 ∷ 4 ∷ 5 ∷ 6 ∷ []; token = 1 }

abbrev pub reregisters :
    (s t : ℕ) (i w : List ℕ)
    → (w' : List ℕ) × (services.reregister s t i w ≡ (done (ok tt), w')) × (w' ≡ w)
reregisters s t i w = (w, refl, refl)

-- The server refuses, and the connection stays in the slab.
connect-Connects_example : OnDone (Connects engine) (connect services engine 3 0 [])
connect-Connects_example = connect-Connects services engine 3 0 []

listen-Listens_example : OnDone (Listens engine) (listen services engine 3 80 [])
listen-Listens_example = listen-Listens services engine 3 80 []

-- An engine with one timeout.
abbrev timed : EngineInner kinds slabs
timed = record (new default_config) { timeouts = some (5, some 0) ∷ [] }

timed-Reach : Reach services 9 default_config timed
unfolding new set_timeout
timed-Reach = later start (sets_timeout 40 5 [] [] refl)

timeout-Reach_example :
    (last : List ℕ) × (timeout services timed 0 []
      ≡ (done (record timed { timeouts = some (5, some 0) ∷ [] }), last))
timeout-Reach_example =
    timeout-Reach services 9 default_config timed 0 (5, some 0) 5 true [] [] timed-Reach refl refl
      (λ h w. (true, w, refl))

-- An engine with one listener.
abbrev listening : EngineInner kinds slabs
listening = record (new default_config) { listeners = some (7, tt) ∷ [] }

readable_listener-Accepts_example :
    OnDone (Accepts tt listening) (readable_listener services listening 0 [])
unfolding new
readable_listener-Accepts_example = readable_listener-Accepts services listening 0 7 tt [] refl

-- Two messages, and an event in between that the socket can be written.
-- The same, with a world that remembers the registrations, the last one first.
abbrev Noted : Type 0
Noted = List ℕ × List (ℕ × List ℕ)

abbrev noting_kinds : Kinds
noting_kinds = record kinds { World = Noted }

abbrev aside : {A : Type 0} → List (ℕ × List ℕ) → Outcome A × List ℕ → Outcome A × Noted
aside notes (r, wire) = (r, (wire, notes))

abbrev noting : Services noting_kinds
noting = record {
  io = lists;
  protocol = buf_protocol_impl lists 2;
  send = λ tx m. pure (ok tt);
  sync_channel = λ n. pure (tt, tt);
  buf_new = λ n. pure [];
  buf_new_with_allocator = λ n a. pure [];
  buf_len = λ b. 100;
  buf_fill = λ b a. b ++ a;
  slice_pos_from_begin = λ b pos n. some (take n (drop pos b));
  get_host_addresses = λ h. pure (ok (h ∷ []));
  socket = pure (ok 7);
  connect_socket = λ s a port. pure (refuse_zero port);
  bind = λ s a port. pure (ok s);
  listen_on = λ s n. pure (ok s);
  accept = λ a. pure (ok (ready 8));
  read = λ s b. pure (ok (ready 3), b ++ 1 ∷ 2 ∷ 3 ∷ []);
  write = λ s b w. aside w.1 (write_byte s b w.0);
  readable_event = 1 ∷ [];
  writable_event = 2 ∷ [];
  hup_event = 4 ∷ [];
  interest_insert = λ i j. i ++ j;
  contains_huphint = λ h. h;
  register = λ s t i. pure (ok tt);
  reregister = λ s t i w. (done (ok tt), (w.0, (t, i) ∷ w.1));
  register_acceptor = λ s t i. pure (ok tt);
  reregister_acceptor = λ s t i. pure (ok tt);
  loop_channel = pure tt;
  loop_timeout = λ t d. pure (ok t);
  clear_timeout = λ h. pure true;
  call_back = λ c. pure (c, true);
}

-- The last registration was this one.
abbrev Polled : Noted → ℕ → List ℕ → Type 0
Polled w t i = (notes : List (ℕ × List ℕ)) × (w.1 ≡ (t, i) ∷ notes)

aside-Wrote :
    (b : List ℕ) (w : Noted) (r : Outcome (MioResult ℕ × List ℕ) × List ℕ)
    → Wrote lists (λ w. w) b w.0 r
    → Wrote lists (λ (w : Noted). w.0) b w (aside w.1 r)
aside-Wrote b w (done (ok (ready n), b'), w') h = h
aside-Wrote b w (done (ok would_block, b'), w') h = h
aside-Wrote b w (done (err e, b'), w') h = h
aside-Wrote b w (panicked, w') h = h
aside-Wrote b w (out_of_fuel, w') h = h

abbrev noting_engine : EngineInner noting_kinds slabs
noting_engine = record (new default_config) { conns = none ∷ some (connection noting 7 tt []) ∷ [] }

abbrev noting_events : List (Event noting_kinds)
noting_events =
    notified message ∷ can_write 1 ∷ notified (record { buf = 7 ∷ 8 ∷ []; token = 1 }) ∷ []

handle_all-Sent_example :
    Sent noting
      (λ (w : Noted). w.0)
      Polled
      {l = slabs}
      40
      1
      (λ s b w. aside-Wrote b w (write_byte s b w.0) (write_byte-Wrote s b w.0))
      (λ s t i w. ((w.0, (t, i) ∷ w.1), refl, refl, (w.1, refl)))
      noting_events
      noting_engine
      []
      ([], [])
unfolding Connection.new
handle_all-Sent_example =
    handle_all-Sent noting (λ (w : Noted). w.0) Polled {l = slabs} 40 1
      (λ s b w. aside-Wrote b w (write_byte s b w.0) (write_byte-Wrote s b w.0))
      (λ s t i w. ((w.0, (t, i) ∷ w.1), refl, refl, (w.1, refl))) noting_events noting_engine
      (connection noting 7 tt []) ([], []) (refl, (refl, (refl, tt))) refl (inl refl) (omega arith)
