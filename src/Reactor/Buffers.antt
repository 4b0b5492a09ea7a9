-- ===== src/Reactor/Buffers.antt =====
-- src/reactor.rs, the buffers: `Clone` for `StreamBuf`, and mio's `Buf` and `MutBuf` for
-- `StreamBuf` and `ReadBuf`. iobuf's calls are parameters; `advance` fails where the buffer is
-- shorter.
use rx_rust.Base.{
  ℕ, ◌+◌, ◌%◌, ◌^◌, ◌≤◌, ◌<◌, ◌≡◌, refl, ap, Option, none, some, List, length, drop, length-drop,
  arith,
}
use rx_rust.Effect.{done, Action, pure, panic, ◌>>=◌}
use rx_rust.Protocol.{Iobuf}
use rx_rust.Reactor.Connection.{StreamBuf}

-- The `unwrap` of what `advance` gives.
abbrev pub advanced : {W B : Type 0} → Option B → Action W B
advanced (some b) = pure b
advanced none = panic

-- Where a buffer's length fits a `u32` and iobuf advances as far as there are bytes, the bytes in
-- front are gone, and as many remain as were behind them.
advanced-bytes :
    {B : Type 0} (io : Iobuf B) (iobuf_advance : B → ℕ → Option B)
    → ((b : B) → io.len b < 2 ^ 32)
    → ((b : B) (n : ℕ)
        → n ≤ length (io.bytes b)
        → (b' : B) × (iobuf_advance b n ≡ some b') × (io.bytes b' ≡ drop n (io.bytes b)))
    → (b : B) (cnt : ℕ) → cnt ≤ io.len b
    → (b' : B) × (iobuf_advance b (cnt % 2 ^ 32) ≡ some b')
      × (io.bytes b' ≡ drop cnt (io.bytes b))
      × (io.len b' + cnt ≡ io.len b)
advanced-bytes io iobuf_advance short advances b cnt h =
    let (buf, e, left) = advances b cnt (omega (arith, io.len_lem b)) in
    let fits : cnt % 2 ^ 32 ≡ cnt = omega (arith, short b) in
    (
      buf,
      rw fits e,
      left,
      omega (arith, io.len_lem b, io.len_lem buf, ap length left, length-drop cnt (io.bytes b)),
    )

-- `ReadBuf`, around iobuf's append buffer. The bytes in its window are there to be written, through
-- what `as_mut_window_slice` gives: the bytes, and the buffer once they are replaced.
pub record ReadBuf (A : Type 0) : Type 0 where
  pub append_buf : A

module _ {A : Type 0} (io : Iobuf A) (iobuf_advance : A → ℕ → Option A)
    (as_mut_window_slice : A → List ℕ × (List ℕ → A)) where
  unfoldable pub read_remaining : ReadBuf A → ℕ
  read_remaining b = io.len b.append_buf

  unfoldable pub read_bytes : ReadBuf A → List ℕ
  read_bytes b = io.bytes b.append_buf

  unfoldable pub read_advance : {W : Type 0} → ReadBuf A → ℕ → Action W (ReadBuf A)
  read_advance b cnt = do
    buf ← advanced (iobuf_advance b.append_buf (cnt % 2 ^ 32))
    pure (record { append_buf = buf })

  unfoldable pub mut_bytes : ReadBuf A → List ℕ × (List ℕ → ReadBuf A)
  mut_bytes b =
      let slice = as_mut_window_slice b.append_buf in
      (slice.0, λ xs. record { append_buf = slice.1 xs })

  -- Where a buffer's length fits a `u32` and iobuf advances as far as there are bytes, so does a
  -- read buffer: the bytes in front are gone, and as many remain as were behind them.
  pub read_advance-bytes :
      {W : Type 0}
      → ((b : A) → io.len b < 2 ^ 32)
      → ((b : A) (n : ℕ)
          → n ≤ length (io.bytes b)
          → (b' : A) × (iobuf_advance b n ≡ some b') × (io.bytes b' ≡ drop n (io.bytes b)))
      → (b : ReadBuf A) (cnt : ℕ) (w : W) → cnt ≤ read_remaining b
      → (b' : ReadBuf A) × (read_advance b cnt w ≡ (done b', w))
        × (read_bytes b' ≡ drop cnt (read_bytes b))
        × (read_remaining b' + cnt ≡ read_remaining b)
  unfolding read_remaining read_bytes read_advance
  read_advance-bytes short advances b cnt w h =
      let (buf, e, left, count) =
        advanced-bytes io iobuf_advance short advances b.append_buf cnt h in
      (record { append_buf = buf }, rw e refl, left, count)

module _ {B : Type 0} (io : Iobuf B) (clone_buf : B → B) (iobuf_advance : B → ℕ → Option B) where
  unfoldable pub clone : StreamBuf B → StreamBuf B
  clone b = record { buf = clone_buf b.buf; token = b.token }

  unfoldable pub remaining : StreamBuf B → ℕ
  remaining b = io.len b.buf

  unfoldable pub bytes : StreamBuf B → List ℕ
  bytes b = io.bytes b.buf

  -- The count is cut to a `u32`.
  unfoldable pub advance : {W : Type 0} → StreamBuf B → ℕ → Action W (StreamBuf B)
  advance b cnt = do
    buf ← advanced (iobuf_advance b.buf (cnt % 2 ^ 32))
    pure (record b { buf = buf })

  -- Where a buffer's length fits a `u32` and iobuf advances as far as there are bytes, so does a
  -- stream's buffer: the bytes in front are gone, and as many remain as were behind them.
  pub advance-bytes :
      {W : Type 0}
      → ((b : B) → io.len b < 2 ^ 32)
      → ((b : B) (n : ℕ)
          → n ≤ length (io.bytes b)
          → (b' : B) × (iobuf_advance b n ≡ some b') × (io.bytes b' ≡ drop n (io.bytes b)))
      → (b : StreamBuf B) (cnt : ℕ) (w : W) → cnt ≤ remaining b
      → (b' : StreamBuf B) × (advance b cnt w ≡ (done b', w))
        × (bytes b' ≡ drop cnt (bytes b))
        × (remaining b' + cnt ≡ remaining b)
        × (b'.token ≡ b.token)
  unfolding remaining bytes advance
  advance-bytes short advances b cnt w h =
      let (buf, e, left, count) = advanced-bytes io iobuf_advance short advances b.buf cnt h in
      (record { buf = buf; token = b.token }, rw e refl, left, count, refl)
