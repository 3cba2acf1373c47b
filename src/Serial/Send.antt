-- ===== src/Serial/Send.antt =====
-- `SerialSend`: what it has sent when it returns.
use smart_door_lock.Base.{
  ℕ, zero, suc, ◌+◌, ◌%◌, ◌≤◌, ◌<◌, ◌≡◌, ◌∙◌, refl, sym, ap, List, [], ◌∷◌, ◌++◌, append-nil,
  append_assoc, some, arith, length, take, drop, length-take, length-drop, take-append-drop, ltb,
  le→ltb, ◌==◌, Bool-cases, inl, inr, subst,
}
use smart_door_lock.Clock.{u32_mod}
use smart_door_lock.Serial.{circular_buf_size, Uart}
use smart_door_lock.Serial.Ring.{IsRing, queue, length-queue, push-IsRing, queue-push, pending-push}
use smart_door_lock.Serial.Driver.{
  Irq, World, handle_all, tick_all, arrive, put_byte, put_bytes, wait_room, enable_txbl,
  uart_put_data, wait_drained, send_pieces, serial_send, ◌>>=◌,
}
use smart_door_lock.Serial.Fetch.{bind-some, some-eq}
use smart_door_lock.Serial.Transmit.{
  outgoing, Drains, Drains-trans, Drains-handle_all, Drains-arrive,
}

-- The copying loop of `UartPutData` puts the bytes behind the others, where there is room for them.
pub put_bytes-outgoing :
    (cs : List ℕ) (w : World)
    → IsRing w.uart.tx_buf
    → w.uart.tx_buf.pending_bytes + length cs ≤ 256
    → IsRing (put_bytes cs w).uart.tx_buf × (outgoing (put_bytes cs w).uart ≡ outgoing w.uart ++ cs)
unfolding put_bytes put_byte
put_bytes-outgoing [] w r h = (r, sym (append-nil (outgoing w.uart)))
put_bytes-outgoing (c ∷ cs) w r h =
    let v = arrive w in
    let b = v.uart.tx_buf in
    let d = Drains-arrive w in
    let r' = d.ring r in
    let fewer = d.fewer r in
    let room : b.pending_bytes < 256 = omega arith in
    let (r'', e) =
      put_bytes-outgoing cs (put_byte c v) (push-IsRing c b r' room)
        (omega (arith, pending-push c b r' room)) in
    (
      r'',
      e
          ∙ ap (λ s. (v.uart.transmitted ++ s) ++ cs) (queue-push c b r' room)
          ∙ ap (λ s. s ++ cs) (sym (append_assoc v.uart.transmitted (queue b) (c ∷ [])))
          ∙ append_assoc (outgoing v.uart) (c ∷ []) cs
          ∙ ap (λ s. s ++ c ∷ cs) (d.same r),
    )

-- `UartPutData` waits until there is room.
pub wait_room-Drains :
    (n : ℕ) (up : List (List Irq)) (u : Uart) (t : ℕ) {w : World}
    → n ≤ 256
    → wait_room n up u t ≡ some w
    → Drains u w.uart × (IsRing w.uart.tx_buf → w.uart.tx_buf.pending_bytes + n ≤ 256)
unfolding wait_room
wait_room-Drains n [] u t few h = absurd (cc)
wait_room-Drains n (is ∷ rest) u t few h =
    let u' = handle_all is u in
    let d = Drains-handle_all is u in
    elim (Bool-cases (ltb circular_buf_size ((u'.tx_buf.pending_bytes + n) % u32_mod))) [
      | inl again ↦
          let (d', room) = wait_room-Drains n rest u' (tick_all is t) few (rw again at h) in
          (Drains-trans d d', room)
      | inr here ↦
          subst
            (λ (x : World).
              Drains u x.uart × (IsRing x.uart.tx_buf → x.uart.tx_buf.pending_bytes + n ≤ 256))
            (some-eq (rw here at h)) (d, λ r. ground (arith, r.room))
    ]

-- From `w` to `w'` the bytes `bs` were handed over.
pub record Hands (w w' : World) (bs : List ℕ) : Type 0 where
  pub ring : IsRing w.uart.tx_buf → IsRing w'.uart.tx_buf
  pub added : IsRing w.uart.tx_buf → outgoing w'.uart ≡ outgoing w.uart ++ bs

uart_put_data-Hands :
    (cs : List ℕ) (w : World) {w' : World}
    → length cs ≤ 256
    → uart_put_data cs w ≡ some w'
    → Hands w w' cs
unfolding uart_put_data enable_txbl
uart_put_data-Hands cs w few h =
    let (v, waited, put) =
      bind-some (wait_room (length cs) w.upcoming w.uart w.time_since_start) _
        (rw (le→ltb 256 (length cs) few) at h) in
    let (d, room) = wait_room-Drains (length cs) w.upcoming w.uart w.time_since_start few waited in
    subst (λ (x : World). Hands w x cs) (some-eq put)
      (record {
        ring = λ r. (put_bytes-outgoing cs v (d.ring r) (room (d.ring r))).0;
        added = λ r.
            (put_bytes-outgoing cs v (d.ring r) (room (d.ring r))).1 ∙ ap (λ s. s ++ cs) (d.same r);
      })

pub Hands-nothing : {w w' : World} → some w ≡ some w' → Hands w w' []
Hands-nothing {w} e =
    subst (λ (x : World). Hands w x []) (some-eq e)
      (record { ring = λ r. r; added = λ r. sym (append-nil (outgoing w.uart)) })

pub Hands-trans :
    {u v w : World} {bs cs : List ℕ} → Hands u v bs → Hands v w cs → Hands u w (bs ++ cs)
Hands-trans {u} {bs} {cs} p q = record {
  ring = λ r. q.ring (p.ring r);
  added = λ r.
      q.added (p.ring r) ∙ ap (λ s. s ++ cs) (p.added r) ∙ append_assoc (outgoing u.uart) bs cs;
}

send_pieces-Hands :
    (f : ℕ) (buf : List ℕ) (w : World) {w' : World}
    → length buf ≤ f
    → send_pieces f buf w ≡ some w'
    → Hands w w' buf
unfolding send_pieces
send_pieces-Hands zero [] w few h = Hands-nothing h
send_pieces-Hands zero (c ∷ buf) w few h = absurd (omega arith)
send_pieces-Hands (suc f) [] w few h = Hands-nothing h
send_pieces-Hands (suc f) (c ∷ buf) w {w'} few h =
    let piece = take circular_buf_size (c ∷ buf) in
    let rest = drop circular_buf_size (c ∷ buf) in
    let (v, put, sent) = bind-some (uart_put_data piece w) _ h in
    subst (Hands w w') (take-append-drop circular_buf_size (c ∷ buf)) (
      Hands-trans
        (uart_put_data-Hands piece w (omega (arith, length-take circular_buf_size (c ∷ buf))) put)
        (send_pieces-Hands f rest v (omega (arith, length-drop circular_buf_size (c ∷ buf))) sent))

wait_drained-Drains :
    (up : List (List Irq)) (u : Uart) (t : ℕ) {w : World}
    → wait_drained up u t ≡ some w
    → Drains u w.uart × (w.uart.tx_buf.pending_bytes ≡ 0)
unfolding wait_drained
wait_drained-Drains [] u t h = absurd (cc)
wait_drained-Drains (is ∷ rest) u t h =
    let u' = handle_all is u in
    let d = Drains-handle_all is u in
    elim (Bool-cases (u'.tx_buf.pending_bytes == 0)) [
      | inr again ↦
          let (d', e) = wait_drained-Drains rest u' (tick_all is t) (rw again at h) in
          (Drains-trans d d', e)
      | inl here ↦
          subst (λ (x : World). Drains u x.uart × (x.uart.tx_buf.pending_bytes ≡ 0))
            (some-eq (rw here at h)) (d, ground arith)
    ]

-- With nothing pending, all that is outgoing has gone.
pub outgoing-drained : (u : Uart) → u.tx_buf.pending_bytes ≡ 0 → outgoing u ≡ u.transmitted
outgoing-drained u h = by_queue (queue u.tx_buf) refl
  where
    by_queue : (q : List ℕ) → queue u.tx_buf ≡ q → outgoing u ≡ u.transmitted
    by_queue [] e = rw e (append-nil u.transmitted)
    by_queue (c ∷ cs) e = absurd (omega (arith, ap (length {0}) e, length-queue u.tx_buf))

-- The end of `SerialSend`, behind pieces that were handed over.
pub drained-result :
    (buf : List ℕ) (w v : World) {n : ℕ} {w' : World}
    → Hands w v buf
    → ◌>>=◌ {B = ℕ × World}
        (wait_drained v.upcoming v.uart v.time_since_start)
        (λ x. some (length buf, x))
      ≡ some (n, w')
    → IsRing w.uart.tx_buf
    → (n ≡ length buf)
      × (w'.uart.transmitted ≡ outgoing w.uart ++ buf)
      × IsRing w'.uart.tx_buf
      × (w'.uart.tx_buf.pending_bytes ≡ 0)
drained-result buf w v {n} {w'} p waited r =
    let (x, drained, result) =
      bind-some (wait_drained v.upcoming v.uart v.time_since_start) _ waited in
    let (d, empty) = wait_drained-Drains v.upcoming v.uart v.time_since_start drained in
    subst
      (λ (q : ℕ × World).
        (q.0 ≡ length buf)
        × (q.1.uart.transmitted ≡ outgoing w.uart ++ buf)
        × IsRing q.1.uart.tx_buf
        × (q.1.uart.tx_buf.pending_bytes ≡ 0))
      (some-eq result)
      (
        refl,
        sym (outgoing-drained x.uart empty) ∙ d.same (p.ring r) ∙ p.added r,
        d.ring (p.ring r),
        empty,
      )

-- Where `SerialSend` returns, it returns the size, and everything that waited before and then the
-- bytes of the call have been handed to the UART, each once and in this order, wherever the
-- interrupts come but inside the three lines that put a byte; nothing is left in the buffer.
pub send_in_order :
    (buf : List ℕ) (w : World) {n : ℕ} {w' : World}
    → serial_send buf w ≡ some (n, w')
    → IsRing w.uart.tx_buf
    → (n ≡ length buf)
      × (w'.uart.transmitted ≡ outgoing w.uart ++ buf)
      × IsRing w'.uart.tx_buf
      × (w'.uart.tx_buf.pending_bytes ≡ 0)
unfolding serial_send
send_in_order buf w h r =
    let (v, handed, waited) = bind-some (send_pieces (length buf) buf w) _ h in
    drained-result buf w v (send_pieces-Hands (length buf) buf w (omega arith) handed) waited r
