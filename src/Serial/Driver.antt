-- ===== src/Serial/Driver.antt =====
-- The functions of the serial driver while interrupts arrive. What interrupts there will be is a list
-- in the state: each entry is those that are taken before the next point at which the program looks
-- at a shared variable. Such a point is a reading of `pendingBytes` or of the clock, a round of the
-- copying loop of `UartPutData`, and in that of `UartGetData` the start of a round and the store of
-- its `pendingBytes--`. `none` is a call that still waits when the list has come to its
-- end; outside the waiting loops an empty list means that no more interrupts come.
use smart_door_lock.Base.{
  ℕ, zero, suc, ◌+◌, ◌%◌, List, [], ◌∷◌, Bool, true, false, ◌&&◌, ◌||◌, Option, none, some, length,
  take, drop, ltb, leb, ◌==◌, if◌then◌else◌,
}
use smart_door_lock.Clock.{u32_mod, sub32, sys_tick_handler}
use smart_door_lock.Serial.{
  circular_buf_size, Uart, next_index, push, front, rx_irq_handler, tx_irq_handler,
}

-- `usart0_rx` brings a byte if the status has RXDATAV, `usart0_tx` says whether it has TXBL.
pub data Irq : Type 0 where
  sys_tick : Irq
  usart0_rx : Option ℕ → Irq
  usart0_tx : Bool → Irq

pub record World : Type 0 where
  pub uart : Uart
  pub time_since_start : ℕ
  pub upcoming : List (List Irq)

-- The UART asks for an interrupt only while it and that interrupt are enabled.
unfoldable pub handle : Irq → Uart → Uart
handle sys_tick u = u
handle (usart0_rx c) u = if u.enabled && u.rxdatav_enabled then rx_irq_handler c u else u
handle (usart0_tx ready) u = if u.enabled && u.txbl_enabled then tx_irq_handler ready u else u

unfoldable pub tick : Irq → ℕ → ℕ
unfolding sys_tick_handler
tick sys_tick t = sys_tick_handler t
tick (usart0_rx c) t = t
tick (usart0_tx ready) t = t

unfoldable pub handle_all : List Irq → Uart → Uart
unfolding handle
handle_all [] u = u
handle_all (i ∷ is) u = handle_all is (handle i u)

unfoldable pub tick_all : List Irq → ℕ → ℕ
unfolding tick
tick_all [] t = t
tick_all (i ∷ is) t = tick_all is (tick i t)

-- The interrupts before the next point.
unfoldable pub arrive_from : List (List Irq) → Uart → ℕ → World
unfolding handle_all tick_all
arrive_from [] u t = record { uart = u; time_since_start = t; upcoming = [] }
arrive_from (is ∷ rest) u t = record {
  uart = handle_all is u;
  time_since_start = tick_all is t;
  upcoming = rest;
}

unfoldable pub arrive : World → World
unfolding arrive_from
arrive w = arrive_from w.upcoming w.uart w.time_since_start

module _ {ℓ κ} {A : Type ℓ} {B : Type κ} where
  infixl 10 ◌>>=◌
  abbrev pub ◌>>=◌ : Option A → (A → Option B) → Option B
  none >>= f = none
  some a >>= f = f a

-- A round of the copying loop of `UartPutData`, in one piece (Serial.OnePiece has it in two).
unfoldable pub put_byte : ℕ → World → World
unfolding push
put_byte c w = record w { uart = record w.uart { tx_buf = push c w.uart.tx_buf } }

unfoldable pub put_bytes : List ℕ → World → World
unfolding arrive put_byte
put_bytes [] w = w
put_bytes (c ∷ cs) w = put_bytes cs (put_byte c (arrive w))

-- `while ((txBuf.pendingBytes + data_len) > CIRCULAR_BUF_SIZE) {}`
unfoldable pub wait_room : ℕ → List (List Irq) → Uart → ℕ → Option World
unfolding handle_all tick_all
wait_room data_len [] u t = none
wait_room data_len (is ∷ rest) u t =
    let u' = handle_all is u in
    let t' = tick_all is t in
    let again = wait_room data_len rest u' t' in
    if ltb circular_buf_size ((u'.tx_buf.pending_bytes + data_len) % u32_mod)
    then again
    else some (record { uart = u'; time_since_start = t'; upcoming = rest })

unfoldable pub enable_txbl : World → World
enable_txbl w = record w { uart = record w.uart { txbl_enabled = true } }

unfoldable pub uart_put_data : List ℕ → World → Option World
unfolding wait_room put_bytes enable_txbl
uart_put_data cells w =
    if ltb circular_buf_size (length cells)
    then some w
    else (wait_room (length cells) w.upcoming w.uart w.time_since_start >>= λ w'.
        some (enable_txbl (put_bytes cells w')))

-- `while(txBuf.pendingBytes);`
unfoldable pub wait_drained : List (List Irq) → Uart → ℕ → Option World
unfolding handle_all tick_all
wait_drained [] u t = none
wait_drained (is ∷ rest) u t =
    let u' = handle_all is u in
    let t' = tick_all is t in
    let again = wait_drained rest u' t' in
    if u'.tx_buf.pending_bytes == 0
    then some (record { uart = u'; time_since_start = t'; upcoming = rest })
    else again

-- The loop of `SerialSend` over pieces of at most 256 bytes, on fuel: as many rounds as bytes.
unfoldable pub send_pieces : ℕ → List ℕ → World → Option World
unfolding uart_put_data
send_pieces zero buf w = some w
send_pieces (suc f) [] w = some w
send_pieces (suc f) (c ∷ buf) w = uart_put_data (take circular_buf_size (c ∷ buf)) w >>= λ w'.
    send_pieces f (drop circular_buf_size (c ∷ buf)) w'

-- The size is returned.
unfoldable pub serial_send : List ℕ → World → Option (ℕ × World)
unfolding send_pieces wait_drained
serial_send buf w = send_pieces (length buf) buf w >>= λ w'.
    wait_drained w'.upcoming w'.uart w'.time_since_start >>= λ w''. some (length buf, w'')

abbrev pub brings : Irq → Bool
brings sys_tick = false
brings (usart0_rx none) = false
brings (usart0_rx (some c)) = true
brings (usart0_tx ready) = false

unfoldable pub brings_byte : List Irq → Bool
brings_byte [] = false
brings_byte (i ∷ is) = brings i || brings_byte is

abbrev pub moved_on : Uart → Uart
moved_on u = record u { rx_buf = record u.rx_buf { rd_i = next_index u.rx_buf.rd_i } }

-- The two lines that take a byte out, with these interrupts between the load and the store of
-- `pendingBytes--`.
unfoldable pub pop_with : List Irq → Uart → Uart
unfolding handle_all brings_byte
pop_with is u =
    let u' = handle_all is (moved_on u) in
    record u' {
      rx_buf = record u'.rx_buf { pending_bytes = sub32 u.rx_buf.pending_bytes 1 };
      lost_update = u'.lost_update || brings_byte is;
    }

unfoldable pub pop_from : List (List Irq) → Uart → ℕ → World
unfolding pop_with tick_all
pop_from [] u t = record { uart = pop_with [] u; time_since_start = t; upcoming = [] }
pop_from (is ∷ rest) u t = record {
  uart = pop_with is u;
  time_since_start = tick_all is t;
  upcoming = rest;
}

-- A round of the copying loop of `UartGetData`, from its read of the array on.
unfoldable pub get_byte : World → ℕ × World
unfolding front pop_from
get_byte w = (front w.uart.rx_buf, pop_from w.upcoming w.uart w.time_since_start)

-- The copying loop. An interrupt may come before a round reads the array, and inside `pendingBytes--`.
unfoldable pub get_bytes : ℕ → World → List ℕ × World
unfolding arrive get_byte
get_bytes zero w = ([], w)
get_bytes (suc n) w =
    let (c, w') = get_byte (arrive w) in let (cs, w'') = get_bytes n w' in (c ∷ cs, w'')

-- How the waiting loop of `UartGetData` ends.
pub data Waited : Type 0 where
  arrived timed_out : World → Waited

abbrev pub world_of : Waited → World
world_of (arrived w) = w
world_of (timed_out w) = w

-- The loop looks at `pendingBytes` and at the clock in turn; `at_clock` says which is next.
unfoldable pub wait_byte :
    (timeout_ms wait_start : ℕ) (at_clock : Bool) → List (List Irq) → Uart → ℕ → Option Waited
unfolding handle_all tick_all
wait_byte timeout_ms wait_start at_clock [] u t = none
wait_byte timeout_ms wait_start false (is ∷ rest) u t =
    let u' = handle_all is u in
    let t' = tick_all is t in
    let on = wait_byte timeout_ms wait_start true rest u' t' in
    if ltb u'.rx_buf.pending_bytes 1
    then on
    else some (arrived (record { uart = u'; time_since_start = t'; upcoming = rest }))
wait_byte timeout_ms wait_start true (is ∷ rest) u t =
    let u' = handle_all is u in
    let t' = tick_all is t in
    let on = wait_byte timeout_ms wait_start false rest u' t' in
    if leb timeout_ms (sub32 t' wait_start)
    then some (timed_out (record { uart = u'; time_since_start = t'; upcoming = rest }))
    else on

abbrev pub at_most : ℕ → ℕ → ℕ
at_most n k = if ltb k n then k else n

-- `none` inside is -1.
abbrev pub got : List ℕ × World → Option (List ℕ) × World
got (bs, w) = (some bs, w)

-- `pendingBytes` is read twice, for the test and then for the new `data_len`.
unfoldable pub copy_out : ℕ → Waited → Option (List ℕ) × World
unfolding get_bytes arrive
copy_out data_len (timed_out w) = (none, w)
copy_out data_len (arrived w) =
    let w' = arrive w in
    if ltb w'.uart.rx_buf.pending_bytes data_len
    then (let w'' = arrive w' in got (get_bytes w''.uart.rx_buf.pending_bytes w''))
    else got (get_bytes data_len w')

unfoldable pub uart_get_data : ℕ → ℕ → World → Option (Option (List ℕ) × World)
unfolding wait_byte copy_out arrive
uart_get_data data_len timeout_ms w =
    let start = arrive w in
    wait_byte timeout_ms start.time_since_start false start.upcoming start.uart
      start.time_since_start
    >>= λ e. some (copy_out data_len e)
