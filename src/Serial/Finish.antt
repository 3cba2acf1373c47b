-- ===== src/Serial/Finish.antt =====
-- `SerialSend` comes back, as long as the UART asks for bytes.
use smart_door_lock.Base.{
  ℕ, zero, suc, ◌+◌, ◌*◌, ◌%◌, ◌≤◌, ◌<◌, ◌≡◌, ◌∙◌, refl, List, [], ◌∷◌, true, some, arith, length,
  take, drop, length-take, length-drop, ltb, le→ltb, ◌==◌, Bool-cases, inl, inr,
}
use smart_door_lock.Clock.{u32_mod}
use smart_door_lock.Serial.{circular_buf_size, Uart}
use smart_door_lock.Serial.Ring.{IsRing, push-IsRing, pending-push}
use smart_door_lock.Serial.Driver.{
  Irq, World, handle_all, tick_all, arrive_from, arrive, put_byte, put_bytes, wait_room,
  enable_txbl, uart_put_data, wait_drained, send_pieces, serial_send, ◌>>=◌,
}
use smart_door_lock.Serial.Transmit.{Drains-arrive}
use smart_door_lock.Serial.Drain.{
  IsFair, IsArmed, handle_all-on, handle_all-IsArmed, handle_all-pending,
}

-- `wait_room` finds room after at most one entry more than there are bytes pending.
wait_room-Returns :
    (n : ℕ) (up : List (List Irq)) (u : Uart) (t : ℕ)
    → n ≤ 256
    → IsArmed u
    → IsFair up
    → u.tx_buf.pending_bytes < length up
    → (w : World) × (wait_room n up u t ≡ some w)
      × IsArmed w.uart
      × IsFair w.upcoming
      × (w.uart.tx_buf.pending_bytes + n ≤ 256)
      × (length up + w.uart.tx_buf.pending_bytes ≤ length w.upcoming + u.tx_buf.pending_bytes + 1)
unfolding wait_room
wait_room-Returns n [] u t few a fair h = absurd (omega arith)
wait_room-Returns n (is ∷ rest) u t few a fair h =
    let u' = handle_all is u in
    let t' = tick_all is t in
    let a' = handle_all-IsArmed is u a in
    let less = handle_all-pending is u a fair.0 in
    let within = a'.ring.room in
    elim (Bool-cases (ltb circular_buf_size ((u'.tx_buf.pending_bytes + n) % u32_mod))) [
      | inl again ↦
          let some_left : 256 < u'.tx_buf.pending_bytes + n = ground arith in
          let (w, e, aw, fw, room, count) =
            wait_room-Returns n rest u' t' few a' fair.1 (omega arith) in
          (w, rw again e, aw, fw, room, omega arith)
      | inr here ↦ (
        record { uart = u'; time_since_start = t'; upcoming = rest },
        rw here,
        a',
        fair.1,
        ground arith,
        omega arith,
      )
    ]

arrive_from-upcoming :
    (up : List (List Irq)) (u : Uart) (t : ℕ)
    → IsFair up
    → IsFair (arrive_from up u t).upcoming × (length up ≤ length (arrive_from up u t).upcoming + 1)
unfolding arrive_from
arrive_from-upcoming [] u t f = (tt, omega arith)
arrive_from-upcoming (is ∷ rest) u t f = (f.1, omega arith)

arrive-upcoming :
    (w : World)
    → IsFair w.upcoming
    → IsFair (arrive w).upcoming × (length w.upcoming ≤ length (arrive w).upcoming + 1)
unfolding arrive
arrive-upcoming w f = arrive_from-upcoming w.upcoming w.uart w.time_since_start f

arrive_from-on :
    (up : List (List Irq)) (u : Uart) (t : ℕ)
    → u.enabled ≡ true
    → (arrive_from up u t).uart.enabled ≡ true
unfolding arrive_from
arrive_from-on [] u t h = h
arrive_from-on (is ∷ rest) u t h = handle_all-on is u ∙ h

arrive-on : (w : World) → w.uart.enabled ≡ true → (arrive w).uart.enabled ≡ true
unfolding arrive
arrive-on w h = arrive_from-on w.upcoming w.uart w.time_since_start h

-- A copying loop takes one entry for each byte.
put_bytes-count :
    (cs : List ℕ) (w : World)
    → w.uart.enabled ≡ true
    → IsRing w.uart.tx_buf
    → IsFair w.upcoming
    → w.uart.tx_buf.pending_bytes + length cs ≤ 256
    → ((put_bytes cs w).uart.enabled ≡ true)
      × IsRing (put_bytes cs w).uart.tx_buf
      × IsFair (put_bytes cs w).upcoming
      × ((put_bytes cs w).uart.tx_buf.pending_bytes ≤ w.uart.tx_buf.pending_bytes + length cs)
      × (length w.upcoming ≤ length (put_bytes cs w).upcoming + length cs)
unfolding put_bytes put_byte
put_bytes-count [] w on r fair h = (on, r, fair, omega arith, omega arith)
put_bytes-count (c ∷ cs) w on r fair h =
    let v = arrive w in
    let d = Drains-arrive w in
    let r' = d.ring r in
    let fewer = d.fewer r in
    let (fair', one) = arrive-upcoming w fair in
    let room : v.uart.tx_buf.pending_bytes < 256 = omega arith in
    let (on'', r'', fair'', p, q) =
      put_bytes-count cs (put_byte c v) (arrive-on w on) (push-IsRing c v.uart.tx_buf r' room) fair'
        (omega (arith, pending-push c v.uart.tx_buf r' room)) in
    (on'', r'', fair'', omega (arith, pending-push c v.uart.tx_buf r' room), omega arith)

-- What `w'` keeps of `w` after `n` bytes were handed over: an interrupt that is still to come for each
-- pending byte, but for three for each of the `n`.
record Spends (n : ℕ) (w w' : World) : Type 0 where
  armed : IsArmed w'.uart
  fair : IsFair w'.upcoming
  count :
      length w.upcoming + w'.uart.tx_buf.pending_bytes
      ≤ length w'.upcoming + w.uart.tx_buf.pending_bytes + 3 * n

uart_put_data-Returns :
    (cs : List ℕ) (w : World)
    → 0 < length cs
    → length cs ≤ 256
    → IsArmed w.uart
    → IsFair w.upcoming
    → w.uart.tx_buf.pending_bytes < length w.upcoming
    → (w' : World) × (uart_put_data cs w ≡ some w') × Spends (length cs) w w'
unfolding uart_put_data enable_txbl
uart_put_data-Returns cs w some_bytes few a fair h =
    let (v, e, av, fv, room, count) =
      wait_room-Returns (length cs) w.upcoming w.uart w.time_since_start few a fair h in
    let (on, ring, fx, p, q) = put_bytes-count cs v av.on av.ring fv room in
    (
      enable_txbl (put_bytes cs v),
      rw (le→ltb 256 (length cs) few, e, ◌>>=◌),
      record {
        armed = record { on = on; ring = ring; armed = inr refl };
        fair = fx;
        count = omega arith;
      },
    )

send_pieces-Returns :
    (f : ℕ) (buf : List ℕ) (w : World)
    → IsArmed w.uart
    → IsFair w.upcoming
    → w.uart.tx_buf.pending_bytes + 3 * length buf < length w.upcoming
    → (w' : World) × (send_pieces f buf w ≡ some w')
      × IsArmed w'.uart
      × IsFair w'.upcoming
      × (w'.uart.tx_buf.pending_bytes < length w'.upcoming)
unfolding send_pieces
send_pieces-Returns zero buf w a fair h = (w, refl, a, fair, omega arith)
send_pieces-Returns (suc f) [] w a fair h = (w, refl, a, fair, omega arith)
send_pieces-Returns (suc f) (c ∷ buf) w a fair h =
    let all = length (c ∷ buf) in
    let piece = take circular_buf_size (c ∷ buf) in
    let size = length-take circular_buf_size (c ∷ buf) in
    let left = length-drop circular_buf_size (c ∷ buf) in
    let (v, e, s) =
      uart_put_data-Returns piece w (omega arith) (omega arith) a fair (omega arith) in
    let count = s.count in
    let (x, e', ax, fx, more) =
      send_pieces-Returns f (drop circular_buf_size (c ∷ buf)) v s.armed s.fair (omega arith) in
    (x, rw (e, ◌>>=◌) e', ax, fx, more)

wait_drained-Returns :
    (up : List (List Irq)) (u : Uart) (t : ℕ)
    → IsArmed u
    → IsFair up
    → u.tx_buf.pending_bytes < length up
    → (w : World) × (wait_drained up u t ≡ some w)
unfolding wait_drained
wait_drained-Returns [] u t a fair h = absurd (omega arith)
wait_drained-Returns (is ∷ rest) u t a fair h =
    let u' = handle_all is u in
    let t' = tick_all is t in
    let less = handle_all-pending is u a fair.0 in
    elim (Bool-cases (u'.tx_buf.pending_bytes == 0)) [
      | inl empty ↦ (record { uart = u'; time_since_start = t'; upcoming = rest }, rw empty)
      | inr full ↦
          let some_left : 0 < u'.tx_buf.pending_bytes = ground arith in
          let (w, e) =
            wait_drained-Returns rest u' t' (handle_all-IsArmed is u a) fair.1 (omega arith) in
          (w, rw full e)
    ]

-- `SerialSend` returns if the UART is on and asks for a byte before every look at the buffer, and
-- there are more such looks than bytes pending and three times the bytes of the call.
pub send-returns :
    (buf : List ℕ) (w : World)
    → IsArmed w.uart
    → IsFair w.upcoming
    → w.uart.tx_buf.pending_bytes + 3 * length buf < length w.upcoming
    → (w' : World) × (serial_send buf w ≡ some (length buf, w'))
unfolding serial_send
send-returns buf w a fair h =
    let (v, e, av, fv, more) = send_pieces-Returns (length buf) buf w a fair h in
    let (x, e') = wait_drained-Returns v.upcoming v.uart v.time_since_start av fv more in
    (x, rw (e, ◌>>=◌, e'))
