-- ===== src/SerialIo.antt =====
-- smartDoor/serial_io.h: the serial port as its clients use it. The functions return `-1` (`none`)
-- or a count; a received count comes here as the bytes that were put at the start of the buffer.
use smart_door_lock.Base.{ℕ, ◌≤◌, ◌≡◌, List, ◌++◌, Option, some, Bool, length}

pub record SerialIo : Type 1 where
  -- The state of the port, the modem at its other end included.
  pub Dev : Type 0
  pub serial_init : ℕ → Dev → Bool × Dev
  pub serial_disable : Dev → Dev
  pub serial_flush_input_buff : Dev → Dev
  pub serial_send : List ℕ → Dev → Option ℕ × Dev
  -- `serial_recv max_len timeout_ms`
  pub serial_recv : ℕ → ℕ → Dev → Option (List ℕ) × Dev
  -- The bytes that have gone out, for the statements.
  pub wire : Dev → List ℕ
  pub wire-flush : (d : Dev) → wire (serial_flush_input_buff d) ≡ wire d
  pub wire-send :
      (bs : List ℕ) (d : Dev) (n : ℕ)
      → (serial_send bs d).0 ≡ some n
      → wire (serial_send bs d).1 ≡ wire d ++ bs
  pub wire-recv : (n t : ℕ) (d : Dev) → wire (serial_recv n t d).1 ≡ wire d

-- No more bytes come back than were asked for, as the comment of `SerialRecv` says of `max_len`.
pub record IsBounded (io : SerialIo) : Type 0 where
  pub recv-length :
      (n t : ℕ) (d : io.Dev) (bs : List ℕ) → (io.serial_recv n t d).0 ≡ some bs → length bs ≤ n
