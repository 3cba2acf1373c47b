-- ===== src/Serial/Port.antt =====
-- The driver as an implementation of the port that the cellular code uses (SerialIo). A call that
-- still waits when no more interrupts come never returns; here it counts as -1 and changes nothing,
-- so that a statement about a call that succeeds is about one that returns.
use smart_door_lock.Base.{ℕ, ◌≡◌, ◌∙◌, refl, List, ◌++◌, true, Option, none, some, length, ap}
use smart_door_lock.Serial.{Uart, serial_init, serial_flush_input_buff, serial_disable}
use smart_door_lock.Serial.Ring.{IsRing}
use smart_door_lock.Serial.Driver.{World, serial_send}
use smart_door_lock.Serial.Recv.{serial_recv}
use smart_door_lock.Serial.Fetch.{some-eq}
use smart_door_lock.Serial.Transmit.{outgoing}
use smart_door_lock.Serial.Send.{send_in_order, outgoing-drained}
use smart_door_lock.Serial.Quiet.{Drains-serial_recv}
use smart_door_lock.SerialIo.{SerialIo}

-- A world whose sending buffer is a ring.
abbrev pub Device : Type 0
Device = (w : World) × IsRing w.uart.tx_buf

-- What `SerialSend` returns, and the device afterwards.
pub sent_by :
    (bs : List ℕ) (d : Device) (o : Option (ℕ × World)) → serial_send bs d.0 ≡ o → Option ℕ × Device
sent_by bs d none e = (none, d)
sent_by bs d (some (n, w)) e = (some n, (w, (send_in_order bs d.0 e d.1).2))

pub sent_by-wire :
    (bs : List ℕ) (d : Device) (o : Option (ℕ × World)) (e : serial_send bs d.0 ≡ o) (n : ℕ)
    → (sent_by bs d o e).0 ≡ some n
    → outgoing (sent_by bs d o e).1.0.uart ≡ outgoing d.0.uart ++ bs
unfolding sent_by
sent_by-wire bs d none e n h = absurd (cc)
sent_by-wire bs d (some (k, w)) e n h =
    let (_, all, _, empty) = send_in_order bs d.0 e d.1 in outgoing-drained w.uart empty ∙ all

-- Where `SerialSend` returns, so does the operation of the port.
pub sent_by-returns :
    (bs : List ℕ) (d : Device) (o : Option (ℕ × World)) (e : serial_send bs d.0 ≡ o) (w : World)
    → o ≡ some (length bs, w)
    → ((sent_by bs d o e).0 ≡ some (length bs)) × ((sent_by bs d o e).1.0 ≡ w)
unfolding sent_by
sent_by-returns bs d none e w h = absurd (cc)
sent_by-returns bs d (some (k, v)) e w h =
    (ap (λ (p : ℕ × World). some p.0) (some-eq h), ap (λ (p : ℕ × World). p.1) (some-eq h))

unfoldable pub received_by :
    (n t : ℕ) (d : Device) (o : Option (List ℕ × World))
    → serial_recv n t d.0 ≡ o
    → Option (List ℕ) × Device
received_by n t d none e = (none, d)
received_by n t d (some (bs, w)) e = (some bs, (w, (Drains-serial_recv n t d.0 (bs, w) e).ring d.1))

-- What the port's operation returns is what `SerialRecv` returned.
pub received_by-some :
    (n t : ℕ) (d : Device) (o : Option (List ℕ × World)) (e : serial_recv n t d.0 ≡ o) (bs : List ℕ)
    → (received_by n t d o e).0 ≡ some bs
    → serial_recv n t d.0 ≡ some (bs, (received_by n t d o e).1.0)
unfolding received_by
received_by-some n t d none e bs h = absurd (cc)
received_by-some n t d (some (cs, w)) e bs h = e ∙ ap (λ b. some (b, w)) (some-eq h)

pub received_by-wire :
    (n t : ℕ) (d : Device) (o : Option (List ℕ × World)) (e : serial_recv n t d.0 ≡ o)
    → outgoing (received_by n t d o e).1.0.uart ≡ outgoing d.0.uart
unfolding received_by
received_by-wire n t d none e = refl
received_by-wire n t d (some (bs, w)) e = (Drains-serial_recv n t d.0 (bs, w) e).same d.1

pub flush-outgoing : (u : Uart) → outgoing (serial_flush_input_buff u) ≡ outgoing u
unfolding serial_flush_input_buff
flush-outgoing u = refl

abbrev on_uart : (f : Uart → Uart) → World → World
on_uart f w = record w { uart = f w.uart }

pub init-IsRing : (u : Uart) → IsRing u.tx_buf → IsRing (serial_init u).tx_buf
unfolding serial_init
init-IsRing u r = r

pub flush-IsRing : (u : Uart) → IsRing u.tx_buf → IsRing (serial_flush_input_buff u).tx_buf
unfolding serial_flush_input_buff
flush-IsRing u r = r

pub disable-IsRing : (u : Uart) → IsRing u.tx_buf → IsRing (serial_disable u).tx_buf
unfolding serial_disable
disable-IsRing u r = r

-- The driver keeps the laws of the port.
abbrev pub driver : SerialIo
driver = record {
  Dev = Device;
  serial_init = λ baud d. (true, (on_uart serial_init d.0, init-IsRing d.0.uart d.1));
  serial_disable = λ d. (on_uart serial_disable d.0, disable-IsRing d.0.uart d.1);
  serial_flush_input_buff = λ d. (on_uart serial_flush_input_buff d.0, flush-IsRing d.0.uart d.1);
  serial_send = λ bs d. sent_by bs d (serial_send bs d.0) refl;
  serial_recv = λ n t d. received_by n t d (serial_recv n t d.0) refl;
  wire = λ d. outgoing d.0.uart;
  wire-flush = λ d. flush-outgoing d.0.uart;
  wire-send = λ bs d n h. sent_by-wire bs d (serial_send bs d.0) refl n h;
  wire-recv = λ n t d. received_by-wire n t d (serial_recv n t d.0) refl;
}
