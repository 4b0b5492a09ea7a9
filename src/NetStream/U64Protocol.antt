-- ===== src/NetStream/U64Protocol.antt =====
-- src/net_stream.rs, the protocol of its tests: a message is a `u64`, in the bytes that it has in
-- memory. The machine is little-endian.
use mathlib.Core.List.{append_assoc}
use rx_rust.Base.{
  ℕ, zero, suc, ◌+◌, ◌*◌, ◌/◌, ◌%◌, ◌^◌, ◌≤◌, ◌<◌, ◌≡◌, refl, ap, ◌∙◌, true, false, Option, none,
  some, List, [], ◌∷◌, ◌++◌, map, length, take, drop, All, arith, leb, if◌then◌else◌,
}
use rx_rust.Effect.{done, Result, Action, pure, panic}
use rx_rust.Sendable.{SendError}
use rx_rust.Processor.Tap.{effects}
use rx_rust.Protocol.{Iobuf, Protocol}
use rx_rust.Reactor.Connection.{StreamBuf, ProtoMsg, parse}
use rx_rust.Reactor.Parsing.{sender, addressed}

-- `to_bytes`, of a value with this many bytes.
abbrev pub to_bytes : ℕ → ℕ → List ℕ
to_bytes zero v = []
to_bytes (suc n) v = v % 256 ∷ to_bytes n (v / 256)

-- The number that stands in memory.
abbrev pub from_bytes : List ℕ → ℕ
from_bytes [] = 0
from_bytes (x ∷ xs) = x + 256 * from_bytes xs

pub data U64Protocol : Type 0 where
  u64_protocol : U64Protocol

module _ {W B : Type 0} (io : Iobuf B) where
  -- The `unwrap` of `split_at`, and the read through the pointer.
  abbrev pub cut : Option (B × B) → Action W (U64Protocol × Option (ℕ × B × ℕ))
  cut none = panic
  cut (some (a, b)) = pure (u64_protocol, some (from_bytes (take 8 (io.bytes a)), b, 8))

  unfoldable pub append : U64Protocol → B → Action W (U64Protocol × Option (ℕ × B × ℕ))
  append p buf = if leb 8 (io.len buf) then cut (io.split_at buf 8) else pure (p, none)

  unfoldable pub u64_protocol_impl : Protocol W U64Protocol B ℕ
  u64_protocol_impl = record { new = u64_protocol; append = append }

-- `isize_to_strbuf`, of a `u64`. The copy is iobuf's: a parameter.
abbrev pub unwrap_buf : {W B : Type 0} → Option B → Action W (StreamBuf B)
unwrap_buf none = panic
unwrap_buf (some b) = pure (record { buf = b; token = 0 })

unfoldable pub isize_to_strbuf : {W B : Type 0} → (List ℕ → Option B) → ℕ → Action W (StreamBuf B)
isize_to_strbuf copy v = unwrap_buf (copy (to_bytes 8 v))

-- `strbuf_to_isize`, of eight bytes, which are read through the buffer's pointer.
unfoldable pub strbuf_to_isize : {B : Type 0} → Iobuf B → StreamBuf B → ℕ
strbuf_to_isize io buf = from_bytes (take 8 (io.bytes buf.buf))

-- The bytes of several values, one behind the other.
abbrev pub encoded : List ℕ → List ℕ
encoded [] = []
encoded (v ∷ vs) = to_bytes 8 v ++ encoded vs

from_bytes-to_bytes : (v : ℕ) → v < 2 ^ 64 → from_bytes (to_bytes 8 v) ≡ v
from_bytes-to_bytes v h = omega arith

-- Where iobuf copies what it is given, the buffer made of a number reads back as the number modulo
-- 2 ^ 64.
pub strbuf_to_isize-isize_to_strbuf :
    {W B : Type 0} (io : Iobuf B) (copy : List ℕ → Option B)
    → ((xs : List ℕ) → (b : B) × (copy xs ≡ some b) × (io.bytes b ≡ xs))
    → (v : ℕ) (w : W)
    → (m : StreamBuf B) × (isize_to_strbuf copy v w ≡ (done m, w))
      × (strbuf_to_isize io m ≡ v % 2 ^ 64)
unfolding isize_to_strbuf strbuf_to_isize
strbuf_to_isize-isize_to_strbuf io copy copies v w =
    let (b, e, same) = copies (to_bytes 8 v) in
    (record { buf = b; token = 0 }, rw e refl, rw same (omega arith))

take_front : (v : ℕ) (ys : List ℕ) → take 8 (take 8 (to_bytes 8 v ++ ys)) ≡ to_bytes 8 v
take_front v ys = refl

mark_step :
    (marker k : ℕ) → ((marker + 8) % 2 ^ 32 + 8 * k) % 2 ^ 32 ≡ (marker + 8 * suc k) % 2 ^ 32
mark_step marker k = omega arith

module _ {W B Tx : Type 0} (io : Iobuf B)
    (answer : ProtoMsg ℕ → W → Result (Unit {0}) (SendError (ProtoMsg ℕ)))
    (put : ProtoMsg ℕ → W → W) (tx : Tx) (token : ℕ) where
  -- Bytes that are those of some values, and of a part of one more value, are cut into those
  -- values: the loop of `readable` ends, within one round for each value and one more, it has sent
  -- the values on in their order, the part is what is left, and the marker has moved by eight bytes
  -- for each value, modulo 2 ^ 32.
  pub parse-encoded :
      (vs : List ℕ) (part : List ℕ) (fuel marker : ℕ) (b : B) (w : W)
      → All (λ v. v < 2 ^ 64) vs
      → length part < 8
      → length vs < fuel
      → marker < 2 ^ 32
      → io.bytes b ≡ encoded vs ++ part
      → (rest : B) × (parse
            (u64_protocol_impl io)
            (sender answer put)
            fuel
            tx
            token
            u64_protocol
            marker
            b
            w
          ≡ (
            done (u64_protocol, (marker + 8 * length vs) % 2 ^ 32, rest),
            effects put (map (addressed token) vs) w,
          ))
        × (io.bytes rest ≡ part)
  unfolding parse u64_protocol_impl append
  parse-encoded vs part zero marker b w small p h m e = absurd (omega arith)
  parse-encoded [] part (suc fuel) marker b w small p h m e =
      let few : leb 8 (io.len b) ≡ false = ground (arith, io.len_lem b, ap length e) in
      let still : (marker + 8 * 0) % 2 ^ 32 ≡ marker = omega arith in (b, rw (few, still) refl, e)
  parse-encoded (v ∷ vs) part (suc fuel) marker b w (small, smalls) p h m e =
      let all_of_it : io.bytes b ≡ to_bytes 8 v ++ (encoded vs ++ part) =
        e ∙ append_assoc (to_bytes 8 v) (encoded vs) part in
      let enough : 8 ≤ length (io.bytes b) = omega (arith, ap length all_of_it) in
      let more : leb 8 (io.len b) ≡ true = ground (arith, io.len_lem b, enough) in
      let (front, back, split, first, left) = io.split_at_lem b 8 enough in
      let value : from_bytes (take 8 (io.bytes front)) ≡ v =
        rw (first, all_of_it) (from_bytes-to_bytes v small) in
      let (rest, ih, leftover) =
        parse-encoded vs part fuel ((marker + 8) % 2 ^ 32) back (put (addressed token v) w) smalls p
          (omega arith) (omega arith) (left ∙ ap (drop 8) all_of_it) in
      (rest, rw (more, split, value, ← mark_step marker (length vs)) ih, leftover)
