-- ===== src/Sendable.antt =====
-- src/sendable.rs: the trait `Sendable`, which wraps the senders of the standard library and of
-- mio. Those senders are parameters here: what a call of their own `send` answers.
pub use rx_rust.Effect.{Result, ok, err}
use rx_rust.Effect.{Action, pure, ◌>>=◌}

-- A value that could not be sent comes back.
pub record Sendable (W Q I : Type 0) : Type 0 where
  pub send : Q → I → Action W (Result (Unit {0}) I)

-- `std::sync::mpsc::SendError`
pub data SendError (A : Type 0) : Type 0 where
  send_error : A → SendError A

abbrev pub unwrap_error : {A : Type 0} → Result (Unit {0}) (SendError A) → Result (Unit {0}) A
unwrap_error (ok _) = ok tt
unwrap_error (err (send_error e)) = err e

abbrev pub pass_result : {A : Type 0} → Result (Unit {0}) A → Result (Unit {0}) A
pass_result (ok _) = ok tt
pass_result (err e) = err e

module _ {W Q A : Type 0} where
  -- The instance for `Sender`.
  unfoldable pub channel_sendable :
      (Q → A → Action W (Result (Unit {0}) (SendError A))) → Sendable W Q A
  channel_sendable inner = record { send = λ q a. (do r ← inner q a; pure (unwrap_error r)) }

  -- The instance for `SyncSender`, whose `send` waits for room.
  unfoldable pub sync_channel_sendable :
      (Q → A → Action W (Result (Unit {0}) (SendError A))) → Sendable W Q A
  sync_channel_sendable inner = record { send = λ q a. (do r ← inner q a; pure (unwrap_error r)) }

  -- The instance for `EventLoopSender`.
  unfoldable pub event_loop_sendable : (Q → A → Action W (Result (Unit {0}) A)) → Sendable W Q A
  event_loop_sendable inner = record { send = λ q a. (do r ← inner q a; pure (pass_result r)) }
