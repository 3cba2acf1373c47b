-- ===== src/Cellular/Connection.antt =====
-- cellular.c: opening, using and closing the connection. In transparent mode the line carries the
-- connection's bytes, and `+++` leads back to commands.
pub mod Mode
pub mod Transfer
mod Tests
use smart_door_lock.Base.{
  ℕ, List, [], ◌∷◌, ◌++◌, Bool, true, false, ◌||◌, Option, none, some, length, drop, replicate,
  if◌then◌else◌,
}
use smart_door_lock.Base.Bytes.{buffer, codes, c_string, contains}
use smart_door_lock.SerialIo.{SerialIo}
use smart_door_lock.Exec.{Result, ok, err, fault, Exec, pure, raise, check, ◌>>=◌, ◌>>◌}
use smart_door_lock.Cellular.{Cell, State, flush, send, recv, exchange, has, set_transparent}
use smart_door_lock.Cellular.Text.{stop_transparent, siso_comm, sist_comm, sisc_comm, short_time}

-- `bzero(buf, 10)`
abbrev pub clear_10 : List ℕ → List ℕ
clear_10 buf = replicate 10 0 ++ drop 10 buf

-- The array after `bs` was received at its start.
abbrev pub overwrite : List ℕ → List ℕ → List ℕ
overwrite bs buf = bs ++ drop (length bs) buf

module _ (io : SerialIo) where
  pub cellular_connect : Exec (State io) Unit
  unfolding exchange set_transparent
  cellular_connect = do
    opened ← exchange io siso_comm 18 short_time
    check (has opened (codes "OK") || has opened (codes "^SISW"))
    started ← exchange io sist_comm 18 short_time
    check (has started (codes "OK") || has started (codes "CONNECT"))
    set_transparent io true

  -- The buffer of 20 bytes as the first part leaves it, for the second. The `+++` is sent without a
  -- flush of the input.
  pub leave_transparent : Bool → Exec (State io) (List ℕ)
  unfolding send recv set_transparent
  leave_transparent false = pure (replicate 20 0)
  leave_transparent true = do
    send io stop_transparent
    reply ← recv io 15 short_time
    check (has reply (codes "OK") || has reply (codes "NO CARRIER"))
    set_transparent io false
    pure (clear_10 (buffer 20 reply))

  pub transparent : Exec (State io) Bool
  transparent s = (ok s.transparent_mode, s)

  -- The reply to `AT^SISC=0` is read into what the buffer then holds.
  pub cellular_close : Exec (State io) Unit
  unfolding transparent leave_transparent exchange
  cellular_close = do
    mode ← transparent
    buf ← leave_transparent mode
    reply ← exchange io sisc_comm 9 short_time
    check (contains (c_string (overwrite reply buf)) (codes "OK"))

  -- The number of bytes written, or -1.
  unfoldable pub cellular_write : List ℕ → Exec (State io) ℕ
  unfolding flush send
  cellular_write payload = do flush io; send io payload

  unfoldable pub cellular_read : ℕ → ℕ → Exec (State io) (List ℕ)
  unfolding recv
  cellular_read max_len timeout_ms = recv io max_len timeout_ms
