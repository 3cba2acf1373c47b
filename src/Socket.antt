-- ===== src/Socket.antt =====
-- smartDoor/socket_linux_modem.c: a TCP socket over the cellular modem. The file's globals are the
-- list of operators and their number.
pub mod Choice
mod Tests
use smart_door_lock.Base.{
  ℕ, List, [], ◌∷◌, Bool, true, Option, none, some, take, replicate, if◌then◌else◌,
}
use smart_door_lock.Base.Int.{ℤ, pos}
use smart_door_lock.SerialIo.{SerialIo}
use smart_door_lock.Exec.{Result, ok, err, fault, Exec, pure, raise, check, ◌>>=◌, ◌>>◌}
use smart_door_lock.Cellular.{State}
use smart_door_lock.Cellular.Modem.{
  attempt, cellular_init, cellular_disable, cellular_wait_until_modem_responds,
  cellular_set_operator, cellular_wait_until_registered,
}
use smart_door_lock.Cellular.Operators.{
  OperatorInfo, unknown_operator, max_operator_name, Found, cellular_get_operators,
}
use smart_door_lock.Cellular.Profile.{
  cellular_setup_internet_connection_profile, cellular_setup_internet_service_profile,
}
use smart_door_lock.Cellular.Connection.{
  cellular_connect, cellular_write, cellular_read, cellular_close,
}

abbrev pub blank_operator : OperatorInfo
blank_operator = record {
  operator_name = replicate max_operator_name 0;
  operator_code = pos 0;
  access_technology = replicate 4 0;
  operator_status = unknown_operator;
}

-- `oplist[25] = {0}`
abbrev pub blank_oplist : List OperatorInfo
blank_oplist = replicate 25 blank_operator

pub record Socket (Cell : Type 0) : Type 0 where
  pub cell : Cell
  pub oplist : List OperatorInfo
  pub ops_found : ℕ

module _ (io : SerialIo) where
  abbrev pub SocketState : Type 0
  SocketState = Socket (State io)

  -- A function of cellular.c.
  unfoldable pub cellular : {A : Type 0} → Exec (State io) A → Exec SocketState A
  cellular m s = let (r, c) = m s.cell in (r, record s { cell = c })

  -- `bzero(oplist, ...); opsFound = 0;`
  clear_operators : Exec SocketState Unit
  clear_operators s = (ok tt, record s { oplist = blank_oplist; ops_found = 0 })

  operators : Exec SocketState (List OperatorInfo × ℕ)
  operators s = (ok (s.oplist, s.ops_found), s)

  store_operators : Found → Exec SocketState Unit
  store_operators f s = (ok tt, record s { oplist = f.op_list; ops_found = f.num_ops_found })

  -- `CellularGetOperators(oplist, 25, &opsFound)`
  unfoldable pub find_operators : Exec SocketState Unit
  unfolding cellular operators store_operators
  find_operators = do
    (ops, n) ← operators
    found ← cellular (cellular_get_operators io ops n)
    store_operators found
    check found.code

  -- A round of the loop over the operators: 0 ends it.
  unfoldable pub register_at : OperatorInfo → Exec (State io) Unit
  register_at o = do
    cellular_set_operator io (pos 1) o.operator_code
    cellular_wait_until_registered io

  -- The loop, on the operators that were found. It goes on where a round fails, and so does the program
  -- where all have.
  unfoldable pub try_operators : List OperatorInfo → Exec (State io) Unit
  try_operators [] s = (ok tt, s)
  try_operators (o ∷ os) s = attempt (register_at o s) (try_operators os)

  -- The test on `host` and `port` only prints. The address is `none` where `host` is NULL.
  unfoldable pub socket_init : Option (List ℕ) → ℤ → Exec SocketState Unit
  unfolding cellular clear_operators find_operators operators try_operators
  socket_init host port = do
    clear_operators
    cellular (cellular_init io)
    cellular (cellular_wait_until_modem_responds io)
    find_operators
    (ops, n) ← operators
    cellular (try_operators (take n ops))
    cellular (cellular_setup_internet_connection_profile io (pos 20))
    cellular (cellular_setup_internet_service_profile io host port (pos 80))

  unfoldable pub socket_connect : Exec SocketState Unit
  unfolding cellular
  socket_connect = cellular (cellular_connect io)

  -- The payload is `none` where the pointer is NULL; so with the array of `socket_read`.
  unfoldable pub socket_write : Option (List ℕ) → Exec SocketState ℕ
  unfolding cellular
  socket_write none = raise
  socket_write (some payload) = cellular (cellular_write io payload)

  unfoldable pub socket_read : Bool → ℕ → ℕ → Exec SocketState (List ℕ)
  unfolding cellular
  socket_read is_null max_len timeout_ms =
      if is_null then raise else cellular (cellular_read io max_len timeout_ms)

  unfoldable pub socket_close : Exec SocketState Unit
  unfolding cellular
  socket_close = cellular (cellular_close io)

  -- What `CellularClose` returns is not looked at.
  unfoldable pub socket_de_init : SocketState → SocketState
  socket_de_init s =
      let (_, c) = cellular_close io s.cell in record s { cell = cellular_disable io c }
