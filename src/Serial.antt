-- ===== src/Serial.antt =====
-- smartDoor/serial_io_EFR32BG1P232F256GM48.c: the circular buffers of the serial port, the registers
-- of the UART that the driver sets, and the two interrupt handlers. Serial.Driver has the functions
-- that run while interrupts arrive.
pub mod Ring
pub mod View
pub mod Driver
pub mod Recv
pub mod Receive
pub mod Inside
pub mod OnePiece
pub mod Stream
pub mod Fetch
pub mod Fifo
pub mod Transmit
pub mod Send
pub mod Whole
pub mod Drain
pub mod Finish
pub mod Elapsed
pub mod Progress
pub mod Race
pub mod Quiet
pub mod Port
mod Tests
use Prim.Native.Nat.{bit_and}
use smart_door_lock.Base.{
  ℕ, ◌+◌, ◌-◌, ◌%◌, List, [], ◌∷◌, ◌++◌, Bool, true, false, Option, none, some, ltb, ◌==◌,
  if◌then◌else◌,
}
use smart_door_lock.Clock.{u32_mod, sub32}

abbrev pub circular_buf_size : ℕ
circular_buf_size = 256

-- `struct circular_buf`; the array is a function of the index.
pub record CircularBuf : Type 0 where
  pub data_at : ℕ → ℕ
  pub rd_i : ℕ
  pub wr_i : ℕ
  pub pending_bytes : ℕ
  pub overflow : Bool

abbrev pub empty_buf : CircularBuf
empty_buf = record { data_at = λ k. 0; rd_i = 0; wr_i = 0; pending_bytes = 0; overflow = false }

-- `(i + 1) & (CIRCULAR_BUF_SIZE - 1)`
unfoldable pub next_index : ℕ → ℕ
next_index i = bit_and (i + 1) 255

abbrev pub stored : (ℕ → ℕ) → ℕ → ℕ → ℕ → ℕ
stored cells i c k = if k == i then c else cells k

-- The three lines that put a byte into a buffer, in `UartPutData` and in the RX handler.
unfoldable pub push : ℕ → CircularBuf → CircularBuf
push c b = record b {
  data_at = stored b.data_at b.wr_i c;
  wr_i = next_index b.wr_i;
  pending_bytes = (b.pending_bytes + 1) % u32_mod;
}

-- The byte at the read index, and the two lines that take it out, in `UartGetData` and in the TX
-- handler.
unfoldable pub front : CircularBuf → ℕ
front b = b.data_at b.rd_i

unfoldable pub pop : CircularBuf → CircularBuf
pop b = record b { rd_i = next_index b.rd_i; pending_bytes = sub32 b.pending_bytes 1 }

-- `rxBuf` and `txBuf`, the enable flags of the UART and of its two interrupts, and the bytes that
-- were handed to `USART_Tx`. `lost_update` is for the statements only: it is set when a byte comes
-- between the load and the store of `rxBuf.pendingBytes--`.
pub record Uart : Type 0 where
  pub rx_buf : CircularBuf
  pub tx_buf : CircularBuf
  pub enabled : Bool
  pub rxdatav_enabled : Bool
  pub txbl_enabled : Bool
  pub transmitted : List ℕ
  pub lost_update : Bool

-- The RX handler's push, with its test for an overflow.
unfoldable pub receive : ℕ → CircularBuf → CircularBuf
unfolding push
receive rx_data b =
    let b' = push rx_data b in
    if ltb circular_buf_size b'.pending_bytes then record b' { overflow = true } else b'

-- `USART0_RX_IRQHandler`: `none` where the status has no RXDATAV.
unfoldable pub rx_irq_handler : Option ℕ → Uart → Uart
unfolding receive
rx_irq_handler none u = u
rx_irq_handler (some rx_data) u = record u { rx_buf = receive rx_data u.rx_buf }

-- The inner tests of `USART0_TX_IRQHandler`.
unfoldable pub transmit : Uart → Uart
unfolding front pop
transmit u =
    if ltb 0 u.tx_buf.pending_bytes
    then record u { tx_buf = pop u.tx_buf; transmitted = u.transmitted ++ (front u.tx_buf ∷ []) }
    else u

unfoldable pub stop_if_empty : Uart → Uart
stop_if_empty u = if u.tx_buf.pending_bytes == 0 then record u { txbl_enabled = false } else u

-- `USART0_TX_IRQHandler`: whether the status has TXBL.
unfoldable pub tx_irq_handler : Bool → Uart → Uart
unfolding transmit stop_if_empty
tx_irq_handler false u = u
tx_irq_handler true u = stop_if_empty (transmit u)

-- `SerialInit` returns 0. What it sets in the clocks, the pins and the frame format is not state of
-- the driver.
unfoldable pub serial_init : Uart → Uart
serial_init u = record u { enabled = true; rxdatav_enabled = true }

-- `SerialFlushInputBuff`
unfoldable pub serial_flush_input_buff : Uart → Uart
serial_flush_input_buff u = record u {
  rx_buf = record u.rx_buf { rd_i = u.rx_buf.wr_i; pending_bytes = 0; overflow = false };
}

-- `SerialDisable`
unfoldable pub serial_disable : Uart → Uart
serial_disable u = record u { enabled = false; rxdatav_enabled = false; txbl_enabled = false }
