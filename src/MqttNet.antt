-- ===== src/MqttNet.antt =====
-- smartDoor/MQTTClient.c: the network callbacks that the MQTT client calls, on the socket.
pub mod Codes
pub mod Delivery
mod Tests
use smart_door_lock.Base.{
  ℕ, ◌≡◌, List, [], ◌∷◌, Bool, true, false, Option, none, some, length, replicate, ltb,
  if◌then◌else◌,
}
use smart_door_lock.Base.Int.{ℤ, pos}
use smart_door_lock.SerialIo.{SerialIo}
use smart_door_lock.Exec.{Result, ok, err, fault, Exec, pure, raise, crash, check, ◌>>=◌, ◌>>◌}
use smart_door_lock.Cellular.{State}
use smart_door_lock.Cellular.Identity.{cellular_get_imei}
use smart_door_lock.Socket.{
  Socket, SocketState, cellular, socket_init, socket_connect, socket_write, socket_read,
  socket_close, socket_de_init,
}

-- The codes of the MQTT library that the callbacks return.
pub data MqttCode : Type 0 where
  code_success code_error_system code_error_network code_error_timeout : MqttCode

-- `g_sock` and `IMEI`: the host, and whether the context's `app_name` points to the IMEI.
pub record Net (Sock : Type 0) : Type 0 where
  pub sock : Sock
  pub host : Option (List ℕ)
  pub imei : List ℕ
  pub named : Bool

-- Bytes, or the code of an error.
pub data Transfer : Type 0 where
  moved : List ℕ → Transfer
  failed : MqttCode → Transfer

module _ (io : SerialIo) where
  abbrev pub NetState : Type 0
  NetState = Net (SocketState io)

  -- A call of the socket whose failure is answered with a code.
  abbrev pub or_code :
      {A : Type 0}
      → MqttCode
      → Result A × SocketState io
      → NetState
      → (A → NetState → Result MqttCode × NetState)
      → Result MqttCode × NetState
  or_code code (ok a, s) n next = next a (record n { sock = s })
  or_code code (err, s) n next = (ok code, record n { sock = s })
  or_code code (fault, s) n next = (fault, record n { sock = s })

  -- `CellularGetIMEI(IMEI, 64)`, whose result is not looked at; the array is as it was where it fails.
  abbrev pub take_imei :
      Result (List ℕ) × SocketState io
      → NetState
      → (NetState → Result MqttCode × NetState)
      → Result MqttCode × NetState
  take_imei (ok imei, s) n next = next (record n { sock = s; imei = imei; named = true })
  take_imei (err, s) n next = next (record n { sock = s; named = true })
  take_imei (fault, s) n next = (fault, record n { sock = s })

  unfoldable pub connect_socket : NetState → Result MqttCode × NetState
  unfolding socket_connect
  connect_socket n =
      or_code code_error_network (socket_connect io n.sock) n (λ _ n'. (ok code_success, n'))

  unfoldable pub net_connect : Option (List ℕ) → ℕ → NetState → Result MqttCode × NetState
  unfolding socket_init cellular connect_socket
  net_connect host port n =
      or_code code_error_system (socket_init io host (pos port) n.sock) (record n { host = host })
        (λ _ n'.
          take_imei (cellular io (cellular_get_imei io (some n'.imei) (pos 64)) n'.sock) n'
            connect_socket)

  abbrev pub read_result : Result (List ℕ) → Result Transfer
  read_result (ok []) = ok (failed code_error_timeout)
  read_result (ok (b ∷ bs)) = ok (moved (b ∷ bs))
  read_result err = ok (failed code_error_network)
  read_result fault = fault

  -- The number of bytes is returned; here they are themselves.
  unfoldable pub net_read :
      (is_null : Bool) → (buf_len timeout_ms : ℕ) → NetState → Result Transfer × NetState
  unfolding socket_read
  net_read is_null buf_len timeout_ms n =
      let (r, s) = socket_read io is_null buf_len timeout_ms n.sock in
      (read_result r, record n { sock = s })

  abbrev pub write_result : List ℕ → Result ℕ → Result Transfer
  write_result buf (ok n) = ok (if ltb n (length buf) then failed code_error_network else moved buf)
  write_result buf err = ok (failed code_error_network)
  write_result buf fault = fault

  -- `buf_len` is returned where the socket took at least that many bytes.
  unfoldable pub net_write : List ℕ → NetState → Result Transfer × NetState
  unfolding socket_write
  net_write buf n =
      let (r, s) = socket_write io (some buf) n.sock in (write_result buf r, record n { sock = s })

  unfoldable pub net_disconnect : NetState → Result MqttCode × NetState
  unfolding socket_close socket_de_init
  net_disconnect n =
      or_code code_error_system (socket_close io n.sock) n
        (λ _ n'. (ok code_success, record n' { sock = socket_de_init io n'.sock }))

  -- `bzero(&g_sock, ...)` leaves the IMEI.
  unfoldable pub mqtt_client_net_init : NetState → NetState
  mqtt_client_net_init n = record n { host = none }

  unfoldable pub mqtt_client_net_de_init : NetState → NetState
  unfolding socket_de_init
  mqtt_client_net_de_init n = record n { sock = socket_de_init io n.sock; host = none }
