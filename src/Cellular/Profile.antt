-- ===== src/Cellular/Profile.antt =====
-- cellular.c: the connection profile (`AT^SICS`) and the service profile (`AT^SISS`).
pub mod Sequence
use smart_door_lock.Base.{
  ℕ, zero, suc, ◌+◌, ◌-◌, List, [], ◌∷◌, ◌++◌, Bool, true, false, Option, none, some, length, take,
  replicate, ltb, if◌then◌else◌,
}
use smart_door_lock.Base.Bytes.{codes}
use smart_door_lock.Base.Int.{ℤ, pos, negsuc}
use smart_door_lock.SerialIo.{SerialIo}
use smart_door_lock.Exec.{Result, ok, err, fault, Exec, pure, raise, crash, check, ◌>>=◌, ◌>>◌}
use smart_door_lock.Cellular.{Cell, State, flush, send, exchange, command_ok, has}
use smart_door_lock.Cellular.Text.{
  sics_contype, sics_inact, sics_apn, siss_srvtype, siss_connid, siss_socktcp, short_time,
}

-- `f_size = snprintf(buf_send, 1023, ...)` into the zeroed array of 1024 bytes, and the `f_size` bytes
-- that are sent from it: at most 1022 bytes of the text, then NULs; past the array is a `fault`.
unfoldable pub formatted : List ℕ → Option (List ℕ)
formatted text =
    if ltb 1024 (length text)
    then none
    else if ltb 1022 (length text)
    then some (take 1022 text ++ replicate (length text - 1022) 0)
    else some text

module _ (io : SerialIo) where
  send_formatted : Option (List ℕ) → Exec (State io) Unit
  unfolding command_ok
  send_formatted none = crash
  send_formatted (some bs) = command_ok io bs 9 short_time

  -- The third `SerialRecv`: on -1 the source only prints, and reads the array, which holds zeros.
  recv_or_nothing : Exec (State io) (List ℕ)
  recv_or_nothing s =
      let (r, d) = io.serial_recv 9 short_time s.dev in
      (ok (elim r [ none ↦ [] | some bs ↦ bs ]), record s { dev = d })

  pub cellular_setup_internet_connection_profile : ℤ → Exec (State io) Unit
  unfolding command_ok send_formatted recv_or_nothing flush send
  cellular_setup_internet_connection_profile (negsuc n) = raise
  cellular_setup_internet_connection_profile (pos inact_time_sec) = do
    command_ok io sics_contype 9 short_time
    send_formatted (formatted (sics_inact inact_time_sec))
    flush io
    send io sics_apn
    reply ← recv_or_nothing
    check (has reply (codes "OK"))

  -- The address is `none` where `IP` is NULL.
  pub cellular_setup_internet_service_profile : Option (List ℕ) → ℤ → ℤ → Exec (State io) Unit
  unfolding command_ok send_formatted
  cellular_setup_internet_service_profile none port keepintvl_sec = raise
  cellular_setup_internet_service_profile (some ip) port (negsuc n) = raise
  cellular_setup_internet_service_profile (some ip) port (pos keepintvl_sec) = do
    command_ok io siss_srvtype 9 short_time
    command_ok io siss_connid 9 short_time
    send_formatted (formatted (siss_socktcp ip port keepintvl_sec))
