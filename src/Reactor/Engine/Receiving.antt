-- ===== src/Reactor/Engine/Receiving.antt =====
-- What `readable` makes of reads that bring whole messages.
use mathlib.Core.List.{append_assoc, append-nil}
use rx_rust.Base.{
  ℕ, zero, suc, ◌+◌, ◌%◌, ◌^◌, ◌<◌, ◌≤◌, ◌≡◌, refl, sym, ap, subst, ◌∙◌, false, Bool-cases, inl,
  inr, Option, none, some, List, [], ◌∷◌, ◌++◌, map, length, length-append, All, arith, ltb,
}
use rx_rust.Effect.{Outcome, done, Result, ok}
use rx_rust.Sendable.{SendError}
use rx_rust.Reactor.Connection.{ProtoMsg, ready, parse}
use rx_rust.Reactor.Parsing.{addressed}
use rx_rust.Reactor.Services.{Kinds, Services, Slabs}
use rx_rust.Reactor.Engine.{Conn, EngineInner, NetEngineConfig, new_buf}
use rx_rust.Reactor.Engine.Events.{
  refill, receive, read_from, watch, drop_or_watch, readable_connection, readable,
}

-- The room that a read buffer has at least, once `readable` is through with it.
abbrev pub least : {k : Kinds} → NetEngineConfig k → ℕ
least cfg = cfg.min_read_buf_sz % 2 ^ 32

-- What the far side of a connection, its buffers and its protocol do: `got` is what the receiver
-- behind `tx` has been sent, `unread` the messages that further reads will bring, `out` bytes that
-- have been written somewhere, which receiving leaves alone, `held` the bytes in a read buffer, and
-- a message is its bytes.
pub record Peer {k : Kinds} (v : Services k) (tx : k.Tx) : Type 1 where
  pub got : k.World → List (ProtoMsg k.Output)
  pub unread : k.World → List (List k.Output)
  pub out : k.World → List ℕ
  pub held : k.ReadBuf → List ℕ
  pub encode : k.Output → List ℕ
  pub IsMessage : k.Output → Type 0
  pub takes :
      (p : k.ProtoState) (b : k.Buf) (w : k.World) (o : k.Output) (rest : List ℕ)
      → IsMessage o
      → v.io.bytes b ≡ encode o ++ rest
      → (b' : k.Buf) × (v.protocol.append p b w ≡ (done (p, some (o, b', length (encode o))), w))
        × (v.io.bytes b' ≡ rest)
  pub waits :
      (p : k.ProtoState) (b : k.Buf) (w : k.World)
      → v.io.bytes b ≡ []
      → v.protocol.append p b w ≡ (done (p, none), w)
  pub sends :
      (m : ProtoMsg k.Output) (w : k.World)
      → (r : Result (Unit {0}) (SendError (ProtoMsg k.Output))) × (w' : k.World) × (v.send tx m w
          ≡ (done r, w'))
        × (got w' ≡ got w ++ m ∷ [])
        × (unread w' ≡ unread w)
        × (out w' ≡ out w)
  pub fresh :
      (sz : ℕ) (a : Option k.Allocator) (w : k.World)
      → (b : k.ReadBuf) × (w' : k.World) × (new_buf v sz a w ≡ (done b, w'))
        × (held b ≡ [])
        × (v.buf_len b ≡ sz % 2 ^ 32)
        × (got w' ≡ got w)
        × (unread w' ≡ unread w)
        × (out w' ≡ out w)
  pub slices :
      (b : k.ReadBuf) (pos n : ℕ) (front new : List ℕ)
      → held b ≡ front ++ new
      → length front ≡ pos
      → length new ≡ n
      → (a : k.Buf) × (v.slice_pos_from_begin b pos n ≡ some a) × (v.io.bytes a ≡ new)
  pub registers :
      (s : k.Sock) (t : ℕ) (i : k.Interest) (w : k.World)
      → (w' : k.World) × (v.reregister s t i w ≡ (done (ok tt), w'))
        × (got w' ≡ got w)
        × (unread w' ≡ unread w)
        × (out w' ≡ out w)

module _ {k : Kinds} (v : Services k) (tx : k.Tx) (peer : Peer v tx) where
  open peer use {
    got, unread, out, held, encode, IsMessage, takes, waits, sends, fresh, slices, registers,
  }

  -- The bytes of several messages.
  abbrev pub encoded : List k.Output → List ℕ
  encoded [] = []
  encoded (o ∷ os) = encode o ++ encoded os

  -- A round of the loop that finds a message.
  parse-round :
      (fuel token : ℕ) (p : k.ProtoState) (marker n : ℕ) (o : k.Output) (b b' : k.Buf)
      (w w₁ : k.World) (r : Result (Unit {0}) (SendError (ProtoMsg k.Output)))
      (ending : Outcome (k.ProtoState × ℕ × k.Buf) × k.World)
      → v.protocol.append p b w ≡ (done (p, some (o, b', n)), w)
      → v.send tx (addressed token o) w ≡ (done r, w₁)
      → marker + n < 2 ^ 32
      → parse v.protocol v.send fuel tx token p (marker + n) b' w₁ ≡ ending
      → parse v.protocol v.send (suc fuel) tx token p marker b w ≡ ending
  unfolding parse
  parse-round fuel token p marker n o b b' w w₁ r ending taken sent fits e =
      let moved : (marker + n) % 2 ^ 32 ≡ marker + n = omega arith in rw (taken, sent, moved) e

  parse-encoded_whole :
      (os : List k.Output) (fuel token : ℕ) (p : k.ProtoState) (marker : ℕ) (b : k.Buf)
      (w : k.World)
      → All IsMessage os
      → length os < fuel
      → marker + length (encoded os) < 2 ^ 32
      → v.io.bytes b ≡ encoded os
      → (rest : k.Buf) × (w' : k.World) × (parse v.protocol v.send fuel tx token p marker b w
          ≡ (done (p, marker + length (encoded os), rest), w'))
        × (v.io.bytes rest ≡ [])
        × (got w' ≡ got w ++ map (addressed token) os)
        × (unread w' ≡ unread w)
        × (out w' ≡ out w)
  unfolding parse
  parse-encoded_whole os zero token p marker b w all h fits e = absurd (omega arith)
  parse-encoded_whole [] (suc fuel) token p marker b w all h fits e =
      let still : marker + 0 ≡ marker = omega arith in
      (b, w, rw (waits p b w e, still) refl, e, sym (append-nil (got w)), refl, refl)
  parse-encoded_whole (o ∷ os) (suc fuel) token p marker b w (is, all) h fits e =
      let (b', taken, left) = takes p b w o (encoded os) is e in
      let (r, w₁, sent, held_by, kept, aside) = sends (addressed token o) w in
      let both = length-append (encode o) (encoded os) in
      let (rest, w₂, ended, none_left, all_got, later, aside') =
        parse-encoded_whole os fuel token p (marker + length (encode o)) b' w₁ all (omega arith)
          (omega (arith, fits, both)) left in
      let place : marker + length (encode o) + length (encoded os)
          ≡ marker + length (encode o ++ encoded os) =
        omega (arith, both) in
      (
        rest,
        w₂,
        parse-round fuel token p marker (length (encode o)) o b b' w w₁ r _ taken sent
            (omega (arith, fits, both)) (ended ∙ ap (λ n. (done (p, n, rest), w₂)) place),
        none_left,
        all_got
            ∙ ap (λ (ms : List (ProtoMsg k.Output)). ms ++ map (addressed token) os) held_by
            ∙ append_assoc (got w) (addressed token o ∷ []) (map (addressed token) os),
        later ∙ kept,
        aside' ∙ aside,
      )

  -- The marker stands behind all that the buffer holds.
  abbrev pub InStep : k.ReadBuf → ℕ → Type 0
  InStep buf marker = marker ≡ length (held buf)

  refill-InStep :
      (cfg : NetEngineConfig k) (c : Conn k) (abuf : k.Buf) (w : k.World)
      → v.io.bytes abuf ≡ []
      → InStep c.buf c.marker
      → least cfg ≤ cfg.read_buf_sz % 2 ^ 32
      → length (held c.buf) + v.buf_len c.buf < 2 ^ 32
      → (buf : k.ReadBuf) × (marker : ℕ) × (w' : k.World) × (refill v cfg c abuf w
          ≡ (done (record c { buf = buf; marker = marker }), w'))
        × InStep buf marker
        × (length (held buf) + v.buf_len buf < 2 ^ 32)
        × (least cfg ≤ v.buf_len buf)
        × (got w' ≡ got w)
        × (unread w' ≡ unread w)
        × (out w' ≡ out w)
  refill-InStep cfg c abuf w none_left i ample fits =
      elim (Bool-cases (ltb (v.buf_len c.buf) (cfg.min_read_buf_sz % 2 ^ 32))) [
        | inl low ↦
            let (b, w', made, empty, room, same, later, aside) =
              fresh cfg.read_buf_sz cfg.allocator w in
            let nothing : ltb 0 (v.io.len abuf) ≡ false =
              ground (arith, v.io.len_lem abuf, ap length none_left) in
            (
              b,
              0,
              w',
              rw (low, made, nothing) refl,
              rw empty refl,
              omega (arith, ap length empty, room),
              omega (arith, ample, room),
              same,
              later,
              aside,
            )
        | inr room ↦ (c.buf, c.marker, w, rw room refl, i, fits, ground arith, refl, refl, refl)
      ]

  module _ (fuel token n : ℕ) (c : Conn k) (to_tx : c.conn_tx ≡ tx) (buf : k.ReadBuf)
      (os : List k.Output) (w w₁ : k.World)
      (reads : v.read c.sock c.buf w ≡ (done (ok (ready n), buf), w₁)) (quiet : got w₁ ≡ got w)
      (all : All IsMessage os) (brought : held buf ≡ held c.buf ++ encoded os)
      (counted : n ≡ length (encoded os)) (fits : length (held buf) + v.buf_len buf < 2 ^ 32)
      (enough : length os < fuel) (in_step : InStep c.buf c.marker) where
    read_from-InStep :
        (cfg : NetEngineConfig k)
        → least cfg ≤ cfg.read_buf_sz % 2 ^ 32
        → (buf' : k.ReadBuf) × (marker : ℕ) × (w' : k.World) × (read_from v fuel cfg token c w
            ≡ (done (record c { buf = buf'; marker = marker }), w'))
          × InStep buf' marker
          × (length (held buf') + v.buf_len buf' < 2 ^ 32)
          × (least cfg ≤ v.buf_len buf')
          × (got w' ≡ got w ++ map (addressed token) os)
          × (unread w' ≡ unread w₁)
          × (out w' ≡ out w₁)
    unfolding read_from receive
    read_from-InStep cfg ample =
        let whole : length (held buf) ≡ length (held c.buf) + length (encoded os) =
          ap length brought ∙ length-append (held c.buf) (encoded os) in
        let (abuf, sliced, bytes) =
          slices buf c.marker n (held c.buf) (encoded os) brought (sym in_step) (sym counted) in
        let (rest, w₂, parsed, none_left, all_got, later, aside) =
          parse-encoded_whole os fuel token c.proto c.marker abuf w₁ all enough
            (omega (arith, fits, whole, in_step)) bytes in
        let parsed' =
          subst
            (λ t.
              parse v.protocol v.send fuel t token c.proto c.marker abuf w₁
              ≡ (done (c.proto, c.marker + length (encoded os), rest), w₂))
            (sym to_tx) parsed in
        let (buf', marker, w₃, filled, i, fits', room, same, still, aside') =
          refill-InStep cfg (record c { buf = buf; marker = c.marker + length (encoded os) }) rest
            w₂ none_left (omega (arith, whole, in_step)) ample fits in
        (
          buf',
          marker,
          w₃,
          rw (reads, sliced, parsed') filled,
          i,
          fits',
          room,
          same
              ∙ all_got
              ∙ ap (λ (ms : List (ProtoMsg k.Output)). ms ++ map (addressed token) os) quiet,
          still ∙ later,
          aside' ∙ aside,
        )

    -- Where a protocol's messages are known by their bytes, and the far side, the buffers and the
    -- event loop answer as they should, an event that the socket of a connection can be read, on
    -- which a read brings whole messages and the other end has not hung up, is handled, where there
    -- is fuel for one round more than there are messages and the read buffer is then one for fewer
    -- than 2 ^ 32 bytes: the receiver is sent the messages, in their order, with the token of the
    -- connection, and no others, and what further reads will bring is as the read left it. The
    -- marker, which stood behind all bytes in the read buffer, does so again, whether or not the
    -- buffer was replaced, which is then again one for fewer than 2 ^ 32 bytes, and the connection's
    -- write queue is as it was. A buffer that was made is large enough for the least room that the
    -- configuration asks for, and the read buffer has that room.
    pub readable-InStep :
        {l : Slabs} (e : EngineInner k l) (hint : k.Hint)
        → l.contains e.listeners token ≡ false
        → l.get e.conns token ≡ some c
        → v.contains_huphint hint ≡ false
        → least e.config ≤ e.config.read_buf_sz % 2 ^ 32
        → (c' : Conn k) × (w' : k.World) × (readable v fuel e token hint w
            ≡ (done (record e { conns = l.store e.conns token c' }), w'))
          × (got w' ≡ got w ++ map (addressed token) os)
          × (unread w' ≡ unread w₁)
          × (out w' ≡ out w₁)
          × InStep c'.buf c'.marker
          × (length (held c'.buf) + v.buf_len c'.buf < 2 ^ 32)
          × (least e.config ≤ v.buf_len c'.buf)
          × (c'.outbuf ≡ c.outbuf)
          × (c'.conn_tx ≡ tx)
    unfolding readable readable_connection watch
    readable-InStep {l} e hint other here open_still ample =
        let (buf', marker, w₂, read, i, fits', room, all_got, later, aside) =
          read_from-InStep e.config ample in
        let (w₃, registered, same, still, aside') =
          registers c.sock token (v.interest_insert c.interest v.readable_event) w₂ in
        (
          record c {
            buf = buf';
            marker = marker;
            interest = v.interest_insert c.interest v.readable_event;
          },
          w₃,
          rw (other, here, read, open_still, drop_or_watch, registered) refl,
          same ∙ all_got,
          still ∙ later,
          aside' ∙ aside,
          i,
          fits',
          room,
          refl,
          to_tx,
        )
