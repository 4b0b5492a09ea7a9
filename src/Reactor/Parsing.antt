-- ===== src/Reactor/Parsing.antt =====
-- The messages that `readable` cuts from the bytes that have arrived, under `BufProtocol`.
use mathlib.Core.List.{append_assoc}
use rx_rust.Base.{
  ℕ, zero, suc, ◌+◌, ◌*◌, ◌%◌, ◌^◌, ◌≤◌, ◌<◌, ◌≡◌, refl, ap, ◌∙◌, true, Bool-cases, inl, inr, List,
  [], ◌∷◌, ◌++◌, map, length, take, drop, take-append-drop, length-drop, length-take, All, arith,
  leb,
}
use rx_rust.Effect.{Outcome, done, out_of_fuel, Result, Action}
use rx_rust.Sendable.{SendError}
use rx_rust.Processor.Tap.{effects}
use rx_rust.Protocol.{Iobuf, BufProtocol, buf_protocol, append, buf_protocol_impl}
use rx_rust.Reactor.Connection.{ProtoMsg, parse}

-- A queue with any answers.
abbrev pub sender :
    {W Tx M : Type 0}
    → (M → W → Result (Unit {0}) (SendError M))
    → (M → W → W)
    → Tx
    → M
    → Action W (Result (Unit {0}) (SendError M))
sender answer put tx m w = (done (answer m w), put m w)

-- The bytes of the buffers, one behind the other.
abbrev pub joined : {B : Type 0} → Iobuf B → List B → List ℕ
joined io [] = []
joined io (b ∷ bs) = io.bytes b ++ joined io bs

-- A message with the token of its connection.
abbrev pub addressed : {B : Type 0} → ℕ → B → ProtoMsg B
addressed token b = record { msg = b; token = token }

mark_step :
    (marker size k : ℕ)
    → ((marker + size) % 2 ^ 32 + size * k) % 2 ^ 32 ≡ (marker + size * suc k) % 2 ^ 32
mark_step marker size k = omega arith

module _ {W B Tx : Type 0} (io : Iobuf B)
    (answer : ProtoMsg B → W → Result (Unit {0}) (SendError (ProtoMsg B)))
    (put : ProtoMsg B → W → W) (tx : Tx) (token : ℕ) where
  -- What the loop did with a buffer.
  pub record Cut (size marker : ℕ) (b : B) (w : W) (r : Outcome (BufProtocol × ℕ × B) × W)
      : Type 0 where
    pub items : List B
    pub rest : B
    pub ended : r ≡ (
      done (buf_protocol, (marker + size * length items) % 2 ^ 32, rest),
      effects put (map (addressed token) items) w,
    )
    pub whole : joined io items ++ io.bytes rest ≡ io.bytes b
    pub sized : All (λ i. length (io.bytes i) ≡ size) items
    pub short : length (io.bytes rest) < size

  -- One message more, in front of the others.
  one_more :
      (size marker : ℕ) (front back b : B) (w : W) (r : Outcome (BufProtocol × ℕ × B) × W)
      → size ≤ length (io.bytes b)
      → io.bytes front ≡ take size (io.bytes b)
      → io.bytes back ≡ drop size (io.bytes b)
      → Cut size ((marker + size) % 2 ^ 32) back (put (addressed token front) w) r
      → Cut size marker b w r
  one_more size marker front back b w r fits first left c = record {
    items = front ∷ c.items;
    rest = c.rest;
    ended =
        c.ended
        ∙ ap {B = Outcome (BufProtocol × ℕ × B) × W}
            (λ (k : ℕ). (
              done (buf_protocol, k, c.rest),
              effects put (map (addressed token) c.items) (put (addressed token front) w),
            ))
            (mark_step marker size (length c.items));
    whole =
        append_assoc (io.bytes front) (joined io c.items) (io.bytes c.rest)
        ∙ rw (c.whole, first, left) (take-append-drop size (io.bytes b));
    sized = (omega (arith, ap length first, length-take size (io.bytes b)), c.sized);
    short = c.short;
  }

  -- Where the messages have a size, and enough rounds are given, the loop ends. The messages that
  -- it sent have that size, and they and the rest, which is shorter, are the bytes of the buffer in
  -- their order; the marker has moved by the bytes of the messages, modulo 2 ^ 32, whatever the
  -- queue answered.
  pub parse-Cut :
      (size : ℕ)
      → 0 < size
      → (fuel marker : ℕ) → marker < 2 ^ 32
      → (b : B) (w : W) → length (io.bytes b) < fuel
      → Cut size marker b w (
          parse
            (buf_protocol_impl io size)
            (sender answer put)
            fuel
            tx
            token
            buf_protocol
            marker
            b
            w)
  unfolding parse buf_protocol_impl append
  parse-Cut size pos zero marker m b w h = absurd (omega arith)
  parse-Cut size pos (suc fuel) marker m b w h = elim (Bool-cases (leb size (io.len b))) [
    | inl more ↦
        let fits : size ≤ length (io.bytes b) = ground (arith, io.len_lem b) in
        let (front, back, e, first, left) = io.split_at_lem b size fits in
        rw (more, e)
          (one_more size marker front back b w _ fits first left (
            parse-Cut size pos fuel ((marker + size) % 2 ^ 32) (omega arith) back
              (put (addressed token front) w)
              (omega (arith, ap length left, length-drop size (io.bytes b)))))
    | inr less ↦
        let still : (marker + size * 0) % 2 ^ 32 ≡ marker = omega arith in
        record {
          items = [];
          rest = b;
          ended = rw (less, still);
          whole = refl;
          sized = tt;
          short = ground (arith, io.len_lem b);
        }
  ]

  -- A message size of 0 makes the loop endless: however many rounds it is given, it is not through.
  pub parse_endless :
      (fuel marker : ℕ) (b : B) (w : W)
      → (parse (buf_protocol_impl io 0) (sender answer put) fuel tx token buf_protocol marker b w).0
        ≡ out_of_fuel
  unfolding parse buf_protocol_impl append
  parse_endless zero marker b w = refl
  parse_endless (suc fuel) marker b w =
      let (front, back, e, first, left) = io.split_at_lem b 0 (omega arith) in
      let some_left : leb 0 (io.len b) ≡ true = ground arith in
      rw (some_left, e)
        (parse_endless fuel ((marker + 0) % 2 ^ 32) back (put (addressed token front) w))
