-- ===== src/Cellular/Modem.antt =====
-- cellular.c: starting the modem, waiting for it to answer and to register, choosing an operator.
pub mod Start
pub mod Registration
mod Tests
use smart_door_lock.Base.{
  ℕ, zero, suc, ◌+◌, ◌-◌, List, [], ◌∷◌, ◌++◌, Bool, true, false, ◌||◌, not, Option, none, some,
  length, ltb, ◌==◌, if◌then◌else◌,
}
use smart_door_lock.Base.Bytes.{buffer, codes}
use smart_door_lock.Base.Int.{ℤ, pos, negsuc}
use smart_door_lock.SerialIo.{SerialIo}
use smart_door_lock.Exec.{Result, ok, err, fault, Exec, pure, raise, crash, check, ◌>>=◌, ◌>>◌}
use smart_door_lock.Cellular.{Cell, State, flush, send, recv, exchange, command_ok, has}
use smart_door_lock.Cellular.Text.{
  at, echo_off, scfg, creg, rounds, short_time, medium_time, long_time, scan_past, cops_manual,
}

pub data Options : Type 0 where
  all echo_and_scfg scfg_only wait_to_start turn_echo_off none_op : Options

module _ {S : Type 0} where
  abbrev pub attempt : Result (Unit {0}) × S → Exec S (Unit {0}) → Result (Unit {0}) × S
  attempt (ok a, s) again = (ok a, s)
  attempt (err, s) again = again s
  attempt (fault, s) again = (fault, s)

  -- `for (i = 0; i < n; i++) { if (m succeeds) return 0; } return -1;`
  unfoldable pub retry : ℕ → Exec S (Unit {0}) → Exec S (Unit {0})
  retry zero m s = (err, s)
  retry (suc n) m s = attempt (m s) (retry n m)

-- The `status` in a `+CREG` reply: the digit behind the first comma. `err` if it is not 0 to 5.
abbrev status_of : Option (ℕ × List ℕ) → Result ℕ
status_of none = fault
status_of (some (count, [])) = fault
status_of (some (count, b ∷ _)) = if ltb b b'0' || ltb b'5' b then err else ok (b - b'0')

pub parse_status : List ℕ → Result ℕ
parse_status reply = status_of (scan_past b',' 25 (buffer 30 reply) 0)

module _ (io : SerialIo) where
  wait_ready : Exec (State io) Unit
  unfolding recv
  wait_ready = do reply ← recv io 50 medium_time; check (has reply (codes "+PBREADY"))

  -- The `switch` of `initialization_options`; the first two cases fall through.
  pub initialization_options : Options → Exec (State io) Unit
  unfolding wait_ready command_ok
  initialization_options all = do
    wait_ready
    command_ok io echo_off 50 short_time
    command_ok io scfg 50 short_time
  initialization_options echo_and_scfg = do
    command_ok io echo_off 50 short_time
    command_ok io scfg 50 short_time
  initialization_options scfg_only = command_ok io scfg 50 short_time
  initialization_options wait_to_start = wait_ready
  initialization_options turn_echo_off = command_ok io echo_off 50 short_time
  initialization_options none_op = pure tt

  serial_start : ℕ → Exec (State io) Unit
  serial_start baud s = let (up, d) = io.serial_init baud s.dev in check up (record s { dev = d })

  pub cellular_init : Exec (State io) Unit
  unfolding serial_start initialization_options
  cellular_init = do serial_start 115200; initialization_options echo_and_scfg

  pub cellular_disable : State io → State io
  cellular_disable s = record s { dev = io.serial_disable s.dev }

  pub cellular_check_modem : Exec (State io) Unit
  unfolding command_ok
  cellular_check_modem = command_ok io at 10 short_time

  pub cellular_wait_until_modem_responds : Exec (State io) Unit
  unfolding cellular_check_modem retry
  cellular_wait_until_modem_responds = retry rounds cellular_check_modem

  -- The status is also stored where it is refused; the only caller reads it after a 0.
  pub cellular_get_registration_status : Exec (State io) ℕ
  unfolding exchange parse_status
  cellular_get_registration_status = do
    reply ← exchange io creg 25 short_time
    check (not (ltb (length reply) 11))
    λ s. (parse_status reply, s)

  pub registered_once : Exec (State io) Unit
  unfolding cellular_get_registration_status
  registered_once = do status ← cellular_get_registration_status; check (status == 1 || status == 5)

  unfoldable pub cellular_wait_until_registered : Exec (State io) Unit
  unfolding registered_once retry
  cellular_wait_until_registered = retry rounds registered_once

  unfoldable pub cellular_set_operator : ℤ → ℤ → Exec (State io) Unit
  unfolding command_ok
  cellular_set_operator (pos zero) operator_code =
      command_ok io (codes "AT+COPS=0\r\n") 10 long_time
  cellular_set_operator (pos (suc zero)) operator_code =
      command_ok io (cops_manual operator_code) 10 long_time
  cellular_set_operator (pos (suc (suc zero))) operator_code =
      command_ok io (codes "AT+COPS=2\r\n") 10 long_time
  cellular_set_operator _ operator_code = raise
