-- ===== src/Serial/Race.antt =====
-- What an interrupt does between the load and the store of `rxBuf.pendingBytes--` in `UartGetData` and
-- of `txBuf.pendingBytes++` in `UartPutData`, and between the two readings of `rxBuf.pendingBytes` in
-- `UartGetData`.
use smart_door_lock.Base.{ℕ, suc, ◌+◌, ◌-◌, ◌%◌, ◌<◌, ◌≡◌, refl, [], ◌∷◌, ◌++◌, true, some, arith}
use smart_door_lock.Clock.{u32_mod, sub32}
use smart_door_lock.Serial.{
  CircularBuf, Uart, next_index, stored, push, pop, rx_irq_handler, tx_irq_handler, transmit,
  stop_if_empty,
}
use smart_door_lock.Serial.Ring.{IsRing, queue, next_index_lem, round_from-stored, round_from-last}
use smart_door_lock.Serial.Driver.{usart0_rx, usart0_tx, handle, pop_with}
use smart_door_lock.Serial.Receive.{Listens}
use smart_door_lock.Serial.OnePiece.{push_with}

-- The buffer after a byte came in between.
abbrev raced : ℕ → CircularBuf → CircularBuf
raced c b = record b {
  data_at = stored b.data_at b.wr_i c;
  rd_i = next_index b.rd_i;
  wr_i = next_index b.wr_i;
  pending_bytes = sub32 b.pending_bytes 1;
}

-- The handler on a buffer whose read index has moved on and whose count has not.
pop_with-rx :
    (c : ℕ) (u : Uart)
    → Listens u
    → u.rx_buf.pending_bytes < 256
    → (pop_with (usart0_rx (some c) ∷ []) u).rx_buf ≡ raced c u.rx_buf
unfolding pop_with handle rx_irq_handler
pop_with-rx c u l h = ground (arith, l.on, l.asks)

queue-raced :
    (c : ℕ) (b : CircularBuf)
    → IsRing b
    → 0 < b.pending_bytes
    → b.pending_bytes < 256
    → queue (raced c b) ≡ queue (pop b)
unfolding queue pop
queue-raced c b r some_left room =
    let n = sub32 b.pending_bytes 1 in
    round_from-stored b.data_at (next_index b.rd_i) n n b.wr_i c
      (omega (arith, next_index_lem b.rd_i r.read)) (omega arith) (omega arith)
      (omega (arith, r.write, next_index_lem b.rd_i r.read))

raced-not_IsRing :
    (c : ℕ) (b : CircularBuf)
    → IsRing b
    → 0 < b.pending_bytes
    → b.pending_bytes < 256
    → ¬ IsRing (raced c b)
raced-not_IsRing c b r some_left room broken =
    let w = broken.write in
    omega (
      arith,
      r.write,
      r.read,
      next_index_lem b.rd_i r.read,
      next_index_lem b.wr_i (omega (arith, r.write)),
    )

-- A byte that comes between the load and the store of `pendingBytes--`, where the receiver is on and
-- some but fewer than 256 bytes are pending, is lost: the next bytes read are those that would have
-- been read without it, the write index no longer stands behind the pending bytes, and the overflow
-- flag stays as it was.
pub race_loses_byte :
    (c : ℕ) (u : Uart)
    → Listens u
    → 0 < u.rx_buf.pending_bytes
    → u.rx_buf.pending_bytes < 256
    → (queue (pop_with (usart0_rx (some c) ∷ []) u).rx_buf ≡ queue (pop u.rx_buf))
      × (¬ IsRing (pop_with (usart0_rx (some c) ∷ []) u).rx_buf)
      × ((pop_with (usart0_rx (some c) ∷ []) u).rx_buf.overflow ≡ u.rx_buf.overflow)
race_loses_byte c u l some_left room = rw (pop_with-rx c u l room) (
  queue-raced c u.rx_buf l.ring some_left room,
  raced-not_IsRing c u.rx_buf l.ring some_left room,
  refl,
)

-- The buffer after a byte went out inside `txBuf.pendingBytes++`.
abbrev put_raced : ℕ → CircularBuf → CircularBuf
put_raced c b = record b {
  data_at = stored b.data_at b.wr_i c;
  rd_i = next_index b.rd_i;
  wr_i = next_index b.wr_i;
  pending_bytes = (b.pending_bytes + 1) % u32_mod;
}

push_with-tx :
    (c : ℕ) (u : Uart)
    → u.enabled ≡ true
    → u.txbl_enabled ≡ true
    → 0 < u.tx_buf.pending_bytes
    → (push_with c (usart0_tx true ∷ []) u).tx_buf ≡ put_raced c u.tx_buf
unfolding push_with handle tx_irq_handler transmit stop_if_empty pop
push_with-tx c u on asks some_left = ground (arith, on, asks)

queue-put_raced :
    (c : ℕ) (b : CircularBuf)
    → IsRing b
    → 0 < b.pending_bytes
    → b.pending_bytes < 256
    → queue (put_raced c b)
      ≡ queue (pop (push c b)) ++ (stored b.data_at b.wr_i c (next_index b.wr_i) ∷ [])
unfolding queue pop push
queue-put_raced c b r some_left room =
    let cells = stored b.data_at b.wr_i c in
    let n = b.pending_bytes in
    let more : (n + 1) % 4294967296 ≡ suc n = omega arith in
    let as_before : (suc n + u32_mod - 1) % u32_mod ≡ n = omega arith in
    rw (more, as_before)
      (round_from-last cells (next_index b.rd_i) n (next_index b.wr_i)
        (omega (arith, next_index_lem b.rd_i r.read))
        (omega (
          arith,
          r.write,
          next_index_lem b.rd_i r.read,
          next_index_lem b.wr_i (omega (arith, r.write)),
        )))

-- A byte that is handed to the UART between the load and the store of `txBuf.pendingBytes++`, where
-- the UART is on, TXBL is enabled and some but fewer than 256 bytes are pending, stays counted: the
-- buffer holds the bytes that would be pending had it gone before the round, and behind them one
-- more, a cell of the array that nothing was put into.
pub race_sends_stray :
    (c : ℕ) (u : Uart)
    → u.enabled ≡ true
    → u.txbl_enabled ≡ true
    → IsRing u.tx_buf
    → 0 < u.tx_buf.pending_bytes
    → u.tx_buf.pending_bytes < 256
    → queue (push_with c (usart0_tx true ∷ []) u).tx_buf
      ≡ queue (pop (push c u.tx_buf))
        ++ (stored u.tx_buf.data_at u.tx_buf.wr_i c (next_index u.tx_buf.wr_i) ∷ [])
race_sends_stray c u on asks r some_left room =
    rw (push_with-tx c u on asks some_left) (queue-put_raced c u.tx_buf r some_left room)
