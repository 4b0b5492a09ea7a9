-- ===== src/Tests/Reactors.antt =====
-- The connections at concrete inputs. A buffer is a list of bytes, the wire and the queue are
-- lists.
use mathlib.Core.List.{append-nil}
use rx_rust.Base.{sym, ℕ, ◌≡◌, refl, some, List, [], ◌∷◌, ◌++◌, length, take, drop, arith}
use rx_rust.Effect.{done, out_of_fuel, Result, ok, Action}
use rx_rust.Sendable.{SendError}
use rx_rust.Protocol.{Iobuf, buf_protocol, append, buf_protocol_impl}
use rx_rust.Reactor.Connection.{StreamBuf, ProtoMsg, ready, would_block, MioResult, drain, parse}
use rx_rust.Reactor.Draining.{Wrote, Drained, drain-Drained}
use rx_rust.Reactor.Parsing.{sender, Cut, parse-Cut, parse_endless}

abbrev pub lists : Iobuf (List ℕ)
lists = record {
  bytes = λ b. b;
  len = length;
  split_at = λ b n. some (take n b, drop n b);
  len_lem = λ b. refl;
  split_at_lem = λ b n h. (take n b, drop n b, refl, refl, refl);
}

-- A socket that takes one byte at a time, and a wire that holds four.
abbrev pub write_byte : ℕ → List ℕ → Action (List ℕ) (MioResult ℕ × List ℕ)
write_byte s [] w = (done (ok (ready 0), []), w)
write_byte s (x ∷ b) (x1 ∷ x2 ∷ x3 ∷ x4 ∷ w) = (done (ok would_block, x ∷ b), x1 ∷ x2 ∷ x3 ∷ x4 ∷ w)
write_byte s (x ∷ b) w = (done (ok (ready 1), b), w ++ x ∷ [])

pub write_byte-Wrote : (s : ℕ) (b w : List ℕ) → Wrote lists (λ w. w) b w (write_byte s b w)
write_byte-Wrote s [] w = (omega arith, λ h. absurd (omega arith), sym (append-nil w), refl)
write_byte-Wrote s (x ∷ b) [] = (omega arith, λ h. omega arith, refl, refl)
write_byte-Wrote s (x ∷ b) (x1 ∷ []) = (omega arith, λ h. omega arith, refl, refl)
write_byte-Wrote s (x ∷ b) (x1 ∷ x2 ∷ []) = (omega arith, λ h. omega arith, refl, refl)
write_byte-Wrote s (x ∷ b) (x1 ∷ x2 ∷ x3 ∷ []) = (omega arith, λ h. omega arith, refl, refl)
write_byte-Wrote s (x ∷ b) (x1 ∷ x2 ∷ x3 ∷ x4 ∷ w) = (refl, refl)

abbrev waiting : List (StreamBuf (List ℕ))
waiting =
    record { buf = 1 ∷ 2 ∷ 3 ∷ []; token = 5 } ∷ record { buf = 4 ∷ 5 ∷ 6 ∷ []; token = 5 } ∷ []

drain_lem :
    drain lists write_byte 9 7 waiting []
    ≡ (done (record { buf = 5 ∷ 6 ∷ []; token = 5 } ∷ []), 1 ∷ 2 ∷ 3 ∷ 4 ∷ [])
unfolding drain
drain_lem = refl

drain-Drained_example : Drained lists (λ w. w) waiting [] (drain lists write_byte 9 7 waiting [])
drain-Drained_example =
    drain-Drained lists (λ w. w) write_byte write_byte-Wrote 9 7 waiting [] (omega arith)

-- A queue that takes every message.
abbrev Message : Type 0
Message = ProtoMsg (List ℕ)

abbrev accepting : Message → List Message → Result (Unit {0}) (SendError Message)
accepting m w = ok tt

abbrev enqueue : Message → List Message → List Message
enqueue m w = w ++ m ∷ []

parse_lem :
    parse
      (buf_protocol_impl lists 2)
      (sender accepting enqueue)
      6
      tt
      5
      buf_protocol
      0
      (1 ∷ 2 ∷ 3 ∷ 4 ∷ 5 ∷ [])
      []
    ≡ (
      done (buf_protocol, 4, 5 ∷ []),
      record { msg = 1 ∷ 2 ∷ []; token = 5 } ∷ record { msg = 3 ∷ 4 ∷ []; token = 5 } ∷ [],
    )
unfolding parse buf_protocol_impl append
parse_lem = refl

parse-Cut_example : Cut lists accepting enqueue tt 5 2 0 (1 ∷ 2 ∷ 3 ∷ 4 ∷ 5 ∷ []) [] (
    parse
      (buf_protocol_impl lists 2)
      (sender accepting enqueue)
      6
      tt
      5
      buf_protocol
      0
      (1 ∷ 2 ∷ 3 ∷ 4 ∷ 5 ∷ [])
      [])
parse-Cut_example =
    parse-Cut lists accepting enqueue tt 5 2 (omega arith) 6 0 (omega arith)
      (1 ∷ 2 ∷ 3 ∷ 4 ∷ 5 ∷ []) [] (omega arith)

parse_endless_example :
    (parse
      (buf_protocol_impl lists 0)
      (sender accepting enqueue)
      100
      tt
      5
      buf_protocol
      0
      (1 ∷ [])
      []).0
    ≡ out_of_fuel
parse_endless_example = parse_endless lists accepting enqueue tt 5 100 0 (1 ∷ []) []
