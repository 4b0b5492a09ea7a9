-- ===== src/Protocol.antt =====
-- src/protocol.rs: how messages are cut from the bytes that arrive. The buffers are iobuf's: a
-- parameter, with what the code relies on.
use rx_rust.Base.{ℕ, ◌≤◌, ◌≡◌, Option, none, some, List, length, take, drop, leb, if◌then◌else◌}
use rx_rust.Effect.{Action, pure, panic}

-- A buffer, seen through the bytes in its window.
pub record Iobuf (B : Type 0) : Type 0 where
  pub bytes : B → List ℕ
  pub len : B → ℕ
  pub split_at : B → ℕ → Option (B × B)
  pub len_lem : (b : B) → len b ≡ length (bytes b)
  pub split_at_lem :
      (b : B) (n : ℕ)
      → n ≤ length (bytes b)
      → (front : B) × (back : B) × (split_at b n ≡ some (front, back))
        × (bytes front ≡ take n (bytes b))
        × (bytes back ≡ drop n (bytes b))

-- `append` gives a message, the bytes behind it, and how many bytes it took, or nothing yet.
pub record Protocol (W T B Output : Type 0) : Type 0 where
  pub new : T
  pub append : T → B → Action W (T × Option (Output × B × ℕ))

pub data BufProtocol : Type 0 where
  buf_protocol : BufProtocol

-- `HasSize`, of a type that stands for its number alone, and the instance that `protocol_size!`
-- gives it.
pub record HasSize : Type 0 where
  pub size : ℕ

unfoldable pub protocol_size : ℕ → HasSize
protocol_size value = record { size = value }

-- `size` is what the type parameter's `HasSize::size` gives, as `protocol_size!` defines it.
module _ {W B : Type 0} (io : Iobuf B) (size : ℕ) where
  -- The `unwrap` of `split_at`.
  abbrev cut : Option (B × B) → Action W (BufProtocol × Option (B × B × ℕ))
  cut none = panic
  cut (some (a, b)) = pure (buf_protocol, some (a, b, size))

  unfoldable pub append : BufProtocol → B → Action W (BufProtocol × Option (B × B × ℕ))
  append p buf = if leb size (io.len buf) then cut (io.split_at buf size) else pure (p, none)

  unfoldable pub buf_protocol_impl : Protocol W BufProtocol B B
  buf_protocol_impl = record { new = buf_protocol; append = append }
