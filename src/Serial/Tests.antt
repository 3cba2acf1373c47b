-- ===== src/Serial/Tests.antt =====
-- The serial driver on short lists of interrupts.
use smart_door_lock.Base.{
  ℕ, ◌≡◌, ◌-◌, ◌^◌, refl, inl, List, [], ◌∷◌, ◌++◌, true, false, some, arith, replicate,
}
use smart_door_lock.Base.Bytes.{codes}
use smart_door_lock.Serial.{Uart, empty_buf, next_index, push, pop, rx_irq_handler, tx_irq_handler}
use smart_door_lock.Serial.Ring.{IsRing, queue}
use smart_door_lock.Serial.Driver.{
  sys_tick, usart0_rx, usart0_tx, World, pop_with, Irq, serial_send,
}
use smart_door_lock.Serial.Recv.{serial_recv}
use smart_door_lock.Serial.Receive.{Listens, stream, IsClean}
use smart_door_lock.Serial.Fifo.{recv_in_order}
use smart_door_lock.Serial.Progress.{recv-returns}
use smart_door_lock.Serial.Send.{send_in_order}
use smart_door_lock.Serial.Drain.{IsArmed}
use smart_door_lock.Serial.Finish.{send-returns}
use smart_door_lock.Serial.Race.{race_loses_byte, race_sends_stray}
use smart_door_lock.Serial.OnePiece.{push_with}
use smart_door_lock.Serial.Whole.{serial_send_with, short_send_in_order}

abbrev switched_on : Uart
switched_on = record {
  rx_buf = empty_buf;
  tx_buf = empty_buf;
  enabled = true;
  rxdatav_enabled = true;
  txbl_enabled = false;
  transmitted = [];
  lost_update = false;
}

empty-IsRing : IsRing empty_buf
empty-IsRing = record { read = omega arith; room = omega arith; write = refl }

switched_on-Listens : Listens switched_on
switched_on-Listens = record { on = refl; asks = refl; ring = empty-IsRing }

switched_on-IsArmed : IsArmed switched_on
switched_on-IsArmed = record { on = refl; ring = empty-IsRing; armed = inl refl }

-- `O`, `K`, `!` and `?` come, two of them while the driver copies, just before the clock wraps.
abbrev hears : World
hears = record {
  uart = switched_on;
  time_since_start = 2 ^ 32 - 1;
  upcoming =
      (sys_tick ∷ [])
      ∷ []
      ∷ (usart0_rx (some b'O') ∷ [])
      ∷ []
      ∷ (usart0_rx (some b'K') ∷ sys_tick ∷ [])
      ∷ (usart0_rx (some b'!') ∷ [])
      ∷ (sys_tick ∷ [])
      ∷ (usart0_rx (some b'?') ∷ [])
      ∷ (usart0_tx true ∷ [])
      ∷ [];
}

recv_two : (w : World) × (serial_recv 2 5 hears ≡ some (codes "OK", w)) × IsClean w.uart
unfolding serial_recv rx_irq_handler next_index
recv_two = (_, refl, (refl, refl))

recv_in_order_example : (stream hears ≡ codes "OK" ++ stream recv_two.0) × Listens recv_two.0.uart
recv_in_order_example = recv_in_order 2 5 hears recv_two.1 switched_on-Listens recv_two.2

-- Nothing comes for 8 ms.
abbrev silent : World
silent = record { uart = switched_on; time_since_start = 7; upcoming = replicate 8 (sys_tick ∷ []) }

recv-returns_example : (result : List ℕ × World) × (serial_recv 10 2 silent ≡ some result)
recv-returns_example =
    recv-returns 10 2 silent (omega arith) (ground arith) (omega arith) (omega arith)

-- The UART asks for a byte at every look.
abbrev ready : World
ready = record {
  uart = switched_on;
  time_since_start = 0;
  upcoming = replicate 13 (usart0_tx true ∷ []);
}

send_at : (w : World) × (serial_send (codes "AT\r\n") ready ≡ some (4, w))
unfolding serial_send tx_irq_handler
send_at = (_, refl)

send_in_order_example :
    (◌≡◌ {A = ℕ} 4 4)
    × (send_at.0.uart.transmitted ≡ [] ++ codes "AT\r\n")
    × IsRing send_at.0.uart.tx_buf
    × (send_at.0.uart.tx_buf.pending_bytes ≡ 0)
unfolding queue
send_in_order_example = send_in_order (codes "AT\r\n") ready send_at.1 empty-IsRing

send-returns_example : (w : World) × (serial_send (codes "AT\r\n") ready ≡ some (4, w))
send-returns_example =
    send-returns (codes "AT\r\n") ready switched_on-IsArmed (ground arith) (omega arith)

-- `A` is pending.
abbrev holds_a : Uart
holds_a = record switched_on {
  rx_buf = record empty_buf { data_at = λ k. b'A'; wr_i = 1; pending_bytes = 1 };
}

holds_a-Listens : Listens holds_a
holds_a-Listens = record {
  on = refl;
  asks = refl;
  ring = record { read = omega arith; room = omega arith; write = refl };
}

race_loses_byte_example :
    (queue (pop_with (usart0_rx (some b'B') ∷ []) holds_a).rx_buf ≡ queue (pop holds_a.rx_buf))
    × (¬ IsRing (pop_with (usart0_rx (some b'B') ∷ []) holds_a).rx_buf)
    × ((pop_with (usart0_rx (some b'B') ∷ []) holds_a).rx_buf.overflow ≡ false)
race_loses_byte_example = race_loses_byte b'B' holds_a holds_a-Listens (omega arith) (omega arith)

-- Interrupts inside each round of the copy; the UART would take a byte in each.
abbrev inside_rounds : ℕ → List (List Irq)
inside_rounds f =
    (usart0_rx (some b'x') ∷ usart0_tx true ∷ []) ∷ (usart0_tx true ∷ sys_tick ∷ []) ∷ []

send_at_with : (w : World) × (serial_send_with inside_rounds (codes "AT\r\n") ready ≡ some (4, w))
unfolding serial_send_with tx_irq_handler rx_irq_handler
send_at_with = (_, refl)

short_send_in_order_example :
    (◌≡◌ {A = ℕ} 4 4)
    × (send_at_with.0.uart.transmitted ≡ [] ++ codes "AT\r\n")
    × IsRing send_at_with.0.uart.tx_buf
    × (send_at_with.0.uart.tx_buf.pending_bytes ≡ 0)
unfolding queue
short_send_in_order_example =
    short_send_in_order inside_rounds (codes "AT\r\n") ready (omega arith) refl send_at_with.1
      empty-IsRing

-- `A` waits to be sent.
abbrev sends_a : Uart
sends_a = record switched_on {
  tx_buf = record empty_buf { data_at = λ k. b'A'; wr_i = 1; pending_bytes = 1 };
  txbl_enabled = true;
}

race_sends_stray_example :
    queue (push_with b'B' (usart0_tx true ∷ []) sends_a).tx_buf
    ≡ queue (pop (push b'B' sends_a.tx_buf)) ++ (b'A' ∷ [])
unfolding next_index
race_sends_stray_example =
    race_sends_stray b'B' sends_a refl refl
      (record { read = omega arith; room = omega arith; write = refl }) (omega arith) (omega arith)
