-- ===== src/Reactor/Connection.antt =====
-- src/reactor.rs, `StreamBuf`, `ProtoMsg`, `Connection` and its methods, and the loop of `readable`
-- that cuts messages.
use rx_rust.Base.{
  ℕ, zero, suc, ◌+◌, ◌%◌, ◌^◌, Bool, true, false, none, some, List, [], ◌∷◌, if◌then◌else◌, ◌==◌,
}
use rx_rust.Effect.{out_of_fuel, Result, ok, err, Action, pure, ◌>>=◌}
use rx_rust.Protocol.{Iobuf, Protocol}
use rx_rust.Sendable.{SendError}

-- A buffer with the token of the socket that it came from or is to go to.
pub record StreamBuf (B : Type 0) : Type 0 where
  pub buf : B
  pub token : ℕ

pub record ProtoMsg (T : Type 0) : Type 0 where
  pub msg : T
  pub token : ℕ

-- mio's answers: `MioResult<NonBlock<A>>`.
pub data NonBlock (A : Type 0) : Type 0 where
  ready : A → NonBlock A
  would_block : NonBlock A

abbrev pub MioResult : Type 0 → Type 0
MioResult A = Result (NonBlock A) (Unit {0})

-- `Sock`, `ReadBuf`, `Interest` and `Tx` are mio's socket, iobuf's append buffer, mio's set of
-- events and the standard library's sender.
pub record Connection (Sock B ReadBuf Interest Tx T : Type 0) : Type 0 where
  pub sock : Sock
  pub outbuf : List (StreamBuf B)
  pub interest : Interest
  pub conn_tx : Tx
  pub marker : ℕ
  pub proto : T
  pub buf : ReadBuf

-- The queue after a write of its front buffer, and whether the loop goes on.
abbrev pub after_write :
    {B : Type 0} → MioResult ℕ → ℕ → StreamBuf B → List (StreamBuf B) → List (StreamBuf B) × Bool
after_write (ok (ready n)) sz b rest = (if n == sz then rest else b ∷ rest, true)
after_write (ok would_block) sz b rest = (b ∷ rest, false)
after_write (err e) sz b rest = (b ∷ rest, false)

module _ {Sock B ReadBuf Interest Tx T : Type 0} where
  -- `Connection::new`; `hup` is `event::HUP`, `proto` what `T::new` gives.
  unfoldable pub new : Interest → T → Sock → Tx → ReadBuf → Connection Sock B ReadBuf Interest Tx T
  new hup proto s tx rbuf = record {
    sock = s;
    outbuf = [];
    interest = hup;
    conn_tx = tx;
    marker = 0;
    proto = proto;
    buf = rbuf;
  }

-- A write takes bytes from the buffer, and says how many, or that it would block, or fails.
module _ {W Sock B : Type 0} (io : Iobuf B) (write : Sock → B → Action W (MioResult ℕ × B)) where
  -- `drain_write_queue_to_socket`: the queue that is left; the method returns its length.
  unfoldable pub drain : ℕ → Sock → List (StreamBuf B) → Action W (List (StreamBuf B))
  drain zero s out w = (out_of_fuel, w)
  drain (suc fuel) s [] w = pure [] w
  drain (suc fuel) s (b ∷ rest) w =
      (do
        (result, buf') ← write s b.buf
        let left = after_write result (io.len b.buf) (record b { buf = buf' }) rest
        if left.1 then drain fuel s left.0 else pure left.0)
        w

-- The loop of `readable` that takes messages from the bytes that have arrived, sends them on, and
-- moves the marker, a `u32`. What the sender answers is dropped.
module _ {W B Tx T Output : Type 0} (p : Protocol W T B Output)
    (send : Tx → ProtoMsg Output → Action W (Result (Unit {0}) (SendError (ProtoMsg Output)))) where
  unfoldable pub parse : ℕ → Tx → ℕ → T → ℕ → B → Action W (T × ℕ × B)
  parse zero tx token proto marker abuf w = (out_of_fuel, w)
  parse (suc fuel) tx token proto marker abuf w =
      (do
        (proto', found) ← p.append proto abuf
        elim found [
          | none ↦ pure (proto', marker, abuf)
          | some (item, remaining, consumed) ↦ do
            _ ← send tx (record { msg = item; token = token })
            parse fuel tx token proto' ((marker + consumed) % 2 ^ 32) remaining
        ])
        w
