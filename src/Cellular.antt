-- ===== src/Cellular.antt =====
-- smartDoor/cellular.c: the AT commands to the modem, over the port of serial_io.h. A state is the
-- port with the flag `transparentMode`. The replies are read by the C string functions.
pub mod Text
pub mod Wire
pub mod Scan
pub mod Modem
pub mod Signal
pub mod Identity
pub mod Operators
pub mod Profile
pub mod Connection
pub mod Script
use smart_door_lock.Base.{
  ℕ, ◌+◌, ◌≡◌, ◌<◌, List, [], ◌∷◌, ◌++◌, Bool, true, false, ◌||◌, not, Option, none, some, length,
  take, replicate, ltb, if◌then◌else◌,
}
use smart_door_lock.Base.Bytes.{codes, c_string, contains}
use smart_door_lock.SerialIo.{SerialIo}
use smart_door_lock.Exec.{Result, ok, err, fault, Exec, pure, raise, check, ◌>>=◌, ◌>>◌}

-- The port's state and the global `transparentMode`.
pub record Cell (Dev : Type 0) : Type 0 where
  pub dev : Dev
  pub transparent_mode : Bool

-- `strstr(buf, word)` on an array that held zeros before `bs` was received into it.
abbrev pub has : List ℕ → List ℕ → Bool
has bs word = contains (c_string bs) word

module _ (io : SerialIo) where
  abbrev pub State : Type 0
  State = Cell io.Dev

  unfoldable pub flush : Exec State Unit
  flush s = (ok tt, record s { dev = io.serial_flush_input_buff s.dev })

  abbrev pub sent : Option ℕ → Result ℕ
  sent none = err
  sent (some n) = ok n

  -- `if (SerialSend(...) == -1) return -1;`
  unfoldable pub send : List ℕ → Exec State ℕ
  send bs s = let (r, d) = io.serial_send bs s.dev in (sent r, record s { dev = d })

  abbrev pub received : Option (List ℕ) → Result (List ℕ)
  received none = err
  received (some bs) = ok bs

  -- `if (SerialRecv(...) == -1) return -1;`
  unfoldable pub recv : ℕ → ℕ → Exec State (List ℕ)
  recv n t s = let (r, d) = io.serial_recv n t s.dev in (received r, record s { dev = d })

  -- Flush, send a command and receive the reply: the steps that almost every function begins with.
  pub exchange : List ℕ → ℕ → ℕ → Exec State (List ℕ)
  unfolding flush send recv
  exchange command n t = do flush; send command; recv n t

  -- The same, and the reply must hold `OK`.
  pub command_ok : List ℕ → ℕ → ℕ → Exec State Unit
  unfolding exchange
  command_ok command n t = do reply ← exchange command n t; check (has reply (codes "OK"))

  pub set_transparent : Bool → Exec State Unit
  set_transparent b s = (ok tt, record s { transparent_mode = b })
