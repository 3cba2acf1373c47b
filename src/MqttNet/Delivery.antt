-- ===== src/MqttNet/Delivery.antt =====
-- The way of a packet to the UART: `NetWrite`, `SocketWrite` and `CellularWrite` over the driver of the
-- serial port.
use smart_door_lock.Base.{
  false, Option, none, some, ℕ, ◌<◌, ◌≡◌, ◌∙◌, refl, ap, List, [], ◌∷◌, ◌+◌, ◌*◌, ◌++◌, length,
  arith,
}
use smart_door_lock.Exec.{ok}
use smart_door_lock.Serial.{Uart, serial_flush_input_buff}
use smart_door_lock.Serial.Driver.{World, serial_send}
use smart_door_lock.Serial.Recv.{serial_recv}
use smart_door_lock.Serial.Receive.{Listens, stream, IsClean}
use smart_door_lock.Serial.Fifo.{recv_in_order}
use smart_door_lock.Serial.Transmit.{outgoing}
use smart_door_lock.Serial.Drain.{IsArmed, IsFair}
use smart_door_lock.Serial.Finish.{send-returns}
use smart_door_lock.Serial.Send.{send_in_order}
use smart_door_lock.Serial.Port.{Device, driver, sent_by-returns, received_by-some, flush-IsRing}
use smart_door_lock.Cellular.{send, sent, received, recv, flush}
use smart_door_lock.Cellular.Connection.{cellular_write, cellular_read}
use smart_door_lock.Socket.{socket_write, socket_read, cellular}
use smart_door_lock.MqttNet.{moved, NetState, net_write, net_read, write_result, read_result}

-- The driver below the callbacks.
abbrev pub world : NetState driver → World
world n = n.sock.cell.dev.0

flush-IsArmed : (u : Uart) → IsArmed u → IsArmed (serial_flush_input_buff u)
unfolding serial_flush_input_buff
flush-IsArmed u a = record { on = a.on; ring = a.ring; armed = a.armed }

whole-write_result : (buf : List ℕ) → write_result driver buf (ok (length buf)) ≡ ok (moved buf)
whole-write_result buf = ground arith

-- `NetWrite` returns the length of its buffer, and all that was pending and then the buffer's bytes
-- have been handed to the UART in order, if the UART asks for a byte before every look at the sending
-- buffer and there are more such looks than bytes pending and three times the buffer's.
pub write_transmits :
    (buf : List ℕ) (n : NetState driver)
    → IsArmed (world n).uart
    → IsFair (world n).upcoming
    → (world n).uart.tx_buf.pending_bytes + 3 * length buf < length (world n).upcoming
    → ((net_write driver buf n).0 ≡ ok (moved buf))
      × ((world (net_write driver buf n).1).uart.transmitted ≡ outgoing (world n).uart ++ buf)
unfolding net_write socket_write cellular cellular_write send flush serial_flush_input_buff
write_transmits buf n armed fair room =
    let w = record (world n) { uart = serial_flush_input_buff (world n).uart } in
    let d : Device = (w, flush-IsRing (world n).uart n.sock.cell.dev.1) in
    let (w', e) = send-returns buf w (flush-IsArmed (world n).uart armed) fair room in
    let (returned, left) = sent_by-returns buf d (serial_send buf w) refl w' e in
    (
      ap (λ r. write_result driver buf (sent driver r)) returned ∙ whole-write_result buf,
      ap (λ v. v.uart.transmitted) left ∙ (send_in_order buf w e armed.ring).1,
    )

read_result-moved :
    (o : Option (List ℕ)) (bs : List ℕ)
    → read_result driver (received driver o) ≡ ok (moved bs)
    → o ≡ some bs
read_result-moved none bs h = absurd (cc)
read_result-moved (some []) bs h = absurd (cc)
read_result-moved (some (c ∷ cs)) bs h = cc

-- Where `NetRead` returns bytes, they are the next of those that were pending in the driver or came
-- while it ran, if the receiver was on, no overflow is reported at the end and no byte has come
-- between the load and the store of a `pendingBytes--`; the rest is there to be read later, and the
-- receiver is still on.
pub read_delivers :
    (buf_len timeout_ms : ℕ) (n : NetState driver) (bs : List ℕ)
    → (net_read driver false buf_len timeout_ms n).0 ≡ ok (moved bs)
    → Listens (world n).uart
    → IsClean (world (net_read driver false buf_len timeout_ms n).1).uart
    → (stream (world n) ≡ bs ++ stream (world (net_read driver false buf_len timeout_ms n).1))
      × Listens (world (net_read driver false buf_len timeout_ms n).1).uart
unfolding net_read recv cellular_read socket_read cellular
read_delivers buf_len timeout_ms n bs h l clean =
    let d = n.sock.cell.dev in
    recv_in_order buf_len timeout_ms d.0
      (received_by-some buf_len timeout_ms d (serial_recv buf_len timeout_ms d.0) refl bs
        (read_result-moved _ bs h))
      l clean
