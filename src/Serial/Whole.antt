-- ===== src/Serial/Whole.antt =====
-- `SerialSend` with interrupts also inside `txBuf.pendingBytes++`: what it has sent when it returns,
-- where one piece is enough.
use smart_door_lock.Base.{
  ℕ, zero, suc, ◌+◌, ◌%◌, ◌≤◌, ◌≡◌, ◌∙◌, sym, ap, List, [], ◌∷◌, ◌++◌, false, Option, some, arith,
  length, take, drop, length-take, length-drop, take-append-drop, ltb, le→ltb, Bool-cases, inl, inr,
  subst, if◌then◌else◌,
}
use smart_door_lock.Clock.{u32_mod}
use smart_door_lock.Serial.{circular_buf_size, Uart}
use smart_door_lock.Serial.Ring.{IsRing}
use smart_door_lock.Serial.Driver.{
  Irq, World, handle_all, tick_all, wait_room, enable_txbl, wait_drained, ◌>>=◌,
}
use smart_door_lock.Serial.OnePiece.{put_bytes_with, put_before, put_in_one_piece, handle_all-off}
use smart_door_lock.Serial.Fetch.{bind-some, some-eq}
use smart_door_lock.Serial.Transmit.{outgoing}
use smart_door_lock.Serial.Send.{
  Hands, Hands-nothing, Hands-trans, put_bytes-outgoing, wait_room-Drains, drained-result,
}

-- `UartPutData`; `inside` are the interrupts inside the rounds of its copying loop.
unfoldable pub uart_put_data_with : (inside : List (List Irq)) → List ℕ → World → Option World
unfolding wait_room put_bytes_with enable_txbl
uart_put_data_with inside cells w =
    if ltb circular_buf_size (length cells)
    then some w
    else (wait_room (length cells) w.upcoming w.uart w.time_since_start >>= λ w'.
        some (enable_txbl (put_bytes_with cells inside w')))

-- `inside f` are the interrupts inside the round of the loop with `f` rounds left behind it.
unfoldable pub send_pieces_with : (inside : ℕ → List (List Irq)) → ℕ → List ℕ → World → Option World
unfolding uart_put_data_with
send_pieces_with inside zero buf w = some w
send_pieces_with inside (suc f) [] w = some w
send_pieces_with inside (suc f) (c ∷ buf) w =
    uart_put_data_with (inside f) (take circular_buf_size (c ∷ buf)) w >>= λ w'.
    send_pieces_with inside f (drop circular_buf_size (c ∷ buf)) w'

unfoldable pub serial_send_with :
    (inside : ℕ → List (List Irq)) → List ℕ → World → Option (ℕ × World)
unfolding send_pieces_with wait_drained
serial_send_with inside buf w = send_pieces_with inside (length buf) buf w >>= λ w'.
    wait_drained w'.upcoming w'.uart w'.time_since_start >>= λ w''. some (length buf, w'')

wait_room-off :
    (n : ℕ) (up : List (List Irq)) (u : Uart) (t : ℕ) {w : World}
    → u.txbl_enabled ≡ false
    → wait_room n up u t ≡ some w
    → w.uart.txbl_enabled ≡ false
unfolding wait_room
wait_room-off n [] u t off h = absurd (cc)
wait_room-off n (is ∷ rest) u t off h =
    let u' = handle_all is u in
    let still = handle_all-off is u off in
    elim (Bool-cases (ltb circular_buf_size ((u'.tx_buf.pending_bytes + n) % u32_mod))) [
      | inl again ↦ wait_room-off n rest u' (tick_all is t) still (rw again at h)
      | inr here ↦ subst (λ (x : World). x.uart.txbl_enabled ≡ false) (some-eq (rw here at h)) still
    ]

uart_put_data_with-Hands :
    (inside : List (List Irq)) (cs : List ℕ) (w : World) {w' : World}
    → length cs ≤ 256
    → w.uart.txbl_enabled ≡ false
    → uart_put_data_with inside cs w ≡ some w'
    → Hands w w' cs
unfolding uart_put_data_with enable_txbl
uart_put_data_with-Hands inside cs w few off h =
    let (v, waited, put) =
      bind-some (wait_room (length cs) w.upcoming w.uart w.time_since_start) _
        (rw (le→ltb 256 (length cs) few) at h) in
    let (d, room) = wait_room-Drains (length cs) w.upcoming w.uart w.time_since_start few waited in
    let still = wait_room-off (length cs) w.upcoming w.uart w.time_since_start off waited in
    let v' : World = record v { upcoming = put_before cs inside v.upcoming } in
    let same = put_in_one_piece cs inside v still in
    subst (λ (x : World). Hands w x cs) (ap enable_txbl (sym same) ∙ some-eq put)
      (record {
        ring = λ r. (put_bytes-outgoing cs v' (d.ring r) (room (d.ring r))).0;
        added = λ r.
            (put_bytes-outgoing cs v' (d.ring r) (room (d.ring r))).1
            ∙ ap (λ s. s ++ cs) (d.same r);
      })

send_nothing-Hands :
    (inside : ℕ → List (List Irq)) (f : ℕ) (rest : List ℕ) (w : World) {w' : World}
    → length rest ≤ 0
    → send_pieces_with inside f rest w ≡ some w'
    → Hands w w' rest
unfolding send_pieces_with
send_nothing-Hands inside zero [] w none_left h = Hands-nothing h
send_nothing-Hands inside (suc f) [] w none_left h = Hands-nothing h
send_nothing-Hands inside f (c ∷ rest) w none_left h = absurd (omega arith)

send_pieces_with-Hands :
    (inside : ℕ → List (List Irq)) (buf : List ℕ) (w : World) {w' : World}
    → length buf ≤ 256
    → w.uart.txbl_enabled ≡ false
    → send_pieces_with inside (length buf) buf w ≡ some w'
    → Hands w w' buf
unfolding send_pieces_with
send_pieces_with-Hands inside [] w few off h = Hands-nothing h
send_pieces_with-Hands inside (c ∷ buf) w {w'} few off h =
    let piece = take circular_buf_size (c ∷ buf) in
    let rest = drop circular_buf_size (c ∷ buf) in
    let (v, put, sent) = bind-some (uart_put_data_with (inside (length buf)) piece w) _ h in
    subst (Hands w w') (take-append-drop circular_buf_size (c ∷ buf)) (
      Hands-trans
        (uart_put_data_with-Hands (inside (length buf)) piece w
          (omega (arith, length-take circular_buf_size (c ∷ buf))) off put)
        (send_nothing-Hands inside (length buf) rest v
          (omega (arith, length-drop circular_buf_size (c ∷ buf))) sent))

-- Where `SerialSend` of at most 256 bytes returns, called with TXBL disabled, it returns the size, and
-- everything that waited before and then the bytes of the call have been handed to the UART, each
-- once and in this order, wherever the interrupts come, also between the load and the store of a
-- `pendingBytes++`; nothing is left in the buffer.
pub short_send_in_order :
    (inside : ℕ → List (List Irq)) (buf : List ℕ) (w : World) {n : ℕ} {w' : World}
    → length buf ≤ 256
    → w.uart.txbl_enabled ≡ false
    → serial_send_with inside buf w ≡ some (n, w')
    → IsRing w.uart.tx_buf
    → (n ≡ length buf)
      × (w'.uart.transmitted ≡ outgoing w.uart ++ buf)
      × IsRing w'.uart.tx_buf
      × (w'.uart.tx_buf.pending_bytes ≡ 0)
unfolding serial_send_with
short_send_in_order inside buf w few off h r =
    let (v, handed, waited) = bind-some (send_pieces_with inside (length buf) buf w) _ h in
    drained-result buf w v (send_pieces_with-Hands inside buf w few off handed) waited r
