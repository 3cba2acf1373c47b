-- ===== src/Serial/Quiet.antt =====
-- Receiving puts nothing on the line and takes nothing off it but what waits for it.
use smart_door_lock.Base.{
  ℕ, zero, suc, ◌-◌, ◌≡◌, List, [], ◌∷◌, ◌++◌, Bool, true, false, Option, none, some, length, ltb,
  leb, Bool-cases, inl, inr, subst, refl,
}
use smart_door_lock.Clock.{sub32}
use smart_door_lock.Serial.{circular_buf_size, Uart}
use smart_door_lock.Serial.Driver.{
  Irq, World, handle_all, tick_all, arrive, moved_on, pop_with, pop_from, get_byte, get_bytes,
  Waited, arrived, timed_out, world_of, wait_byte, at_most, copy_out, uart_get_data,
}
use smart_door_lock.Serial.Recv.{take_in, recv_round, recv_rounds, serial_recv}
use smart_door_lock.Serial.Transmit.{
  Drains, Drains-refl, Drains-trans, Drains-handle_all, Drains-arrive, Drains-same,
}
use smart_door_lock.Serial.Fetch.{bind-some, some-eq}

Drains-pop_with : (is : List Irq) (u : Uart) → Drains u (pop_with is u)
unfolding pop_with
Drains-pop_with is u =
    Drains-trans (Drains-same refl refl)
      (Drains-trans (Drains-handle_all is (moved_on u)) (Drains-same refl refl))

Drains-pop_from : (up : List (List Irq)) (u : Uart) (t : ℕ) → Drains u (pop_from up u t).uart
unfolding pop_from
Drains-pop_from [] u t = Drains-pop_with [] u
Drains-pop_from (is ∷ rest) u t = Drains-pop_with is u

Drains-get_byte : (w : World) → Drains w.uart (get_byte w).1.uart
unfolding get_byte
Drains-get_byte w = Drains-pop_from w.upcoming w.uart w.time_since_start

Drains-get_bytes : (n : ℕ) (w : World) → Drains w.uart (get_bytes n w).1.uart
unfolding get_bytes
Drains-get_bytes zero w = Drains-refl w.uart
Drains-get_bytes (suc n) w =
    Drains-trans (Drains-arrive w)
      (Drains-trans (Drains-get_byte (arrive w)) (Drains-get_bytes n (get_byte (arrive w)).1))

Drains-end :
    {u : Uart} {a b : Waited} → a ≡ b → Drains u (world_of a).uart → Drains u (world_of b).uart
Drains-end {u} e d = subst (λ x. Drains u (world_of x).uart) e d

Drains-wait_byte :
    (timeout_ms start : ℕ) (at_clock : Bool) (up : List (List Irq)) (u : Uart) (t : ℕ) {e : Waited}
    → wait_byte timeout_ms start at_clock up u t ≡ some e
    → Drains u (world_of e).uart
unfolding wait_byte
Drains-wait_byte timeout_ms start false [] u t h = absurd (cc)
Drains-wait_byte timeout_ms start true [] u t h = absurd (cc)
Drains-wait_byte timeout_ms start false (is ∷ rest) u t h =
    let u' = handle_all is u in
    let d = Drains-handle_all is u in
    elim (Bool-cases (ltb u'.rx_buf.pending_bytes 1)) [
      | inl more ↦
          Drains-trans d
            (Drains-wait_byte timeout_ms start true rest u' (tick_all is t) (rw more at h))
      | inr here ↦ Drains-end (some-eq (rw here at h)) d
    ]
Drains-wait_byte timeout_ms start true (is ∷ rest) u t h =
    let u' = handle_all is u in
    let t' = tick_all is t in
    let d = Drains-handle_all is u in
    elim (Bool-cases (leb timeout_ms (sub32 t' start))) [
      | inl over ↦ Drains-end (some-eq (rw over at h)) d
      | inr more ↦
          Drains-trans d (Drains-wait_byte timeout_ms start false rest u' t' (rw more at h))
    ]

Drains-copy_out :
    (data_len : ℕ) (e : Waited) → Drains (world_of e).uart (copy_out data_len e).1.uart
unfolding copy_out
Drains-copy_out data_len (timed_out w) = Drains-refl w.uart
Drains-copy_out data_len (arrived w) =
    let w' = arrive w in
    let w'' = arrive w' in
    elim (Bool-cases (ltb w'.uart.rx_buf.pending_bytes data_len)) [
      | inl fewer ↦ rw fewer (
          Drains-trans (Drains-arrive w)
            (Drains-trans (Drains-arrive w') (Drains-get_bytes w''.uart.rx_buf.pending_bytes w'')))
      | inr enough ↦ rw enough (Drains-trans (Drains-arrive w) (Drains-get_bytes data_len w'))
    ]

Drains-uart_get_data :
    (data_len timeout_ms : ℕ) (w : World) {p : Option (List ℕ) × World}
    → uart_get_data data_len timeout_ms w ≡ some p
    → Drains w.uart p.1.uart
unfolding uart_get_data
Drains-uart_get_data data_len timeout_ms w h =
    let s = arrive w in
    let (e, waited, ended) =
      bind-some (wait_byte timeout_ms s.time_since_start false s.upcoming s.uart s.time_since_start)
        _ h in
    subst (λ p. Drains w.uart p.1.uart) (some-eq ended)
      (Drains-trans (Drains-arrive w) (
        Drains-trans
          (Drains-wait_byte timeout_ms s.time_since_start false s.upcoming s.uart s.time_since_start
            waited)
          (Drains-copy_out data_len e)))

abbrev IsQuiet : (List ℕ → World → Option (List ℕ × World)) → Type 0
IsQuiet run =
    (read : List ℕ) (w : World) (p : List ℕ × World) → run read w ≡ some p → Drains w.uart p.1.uart

Drains-result :
    {u : Uart} {read : List ℕ} {v : World} {p : List ℕ × World}
    → some (read, v) ≡ some p
    → Drains u v.uart
    → Drains u p.1.uart
Drains-result {u} e d = subst (λ (x : List ℕ × World). Drains u x.1.uart) (some-eq e) d

take_in-quiet :
    (rest : List ℕ → World → Option (List ℕ × World))
    → IsQuiet rest
    → (read : List ℕ) (r : Option (List ℕ)) (w : World) (p : List ℕ × World)
    → take_in rest read (r, w) ≡ some p
    → Drains w.uart p.1.uart
unfolding take_in
take_in-quiet rest q read none w p h = Drains-result h (Drains-refl w.uart)
take_in-quiet rest q read (some []) w p h = Drains-result h (Drains-refl w.uart)
take_in-quiet rest q read (some (b ∷ bs)) w p h = q (read ++ b ∷ bs) w p h

recv_round-IsQuiet :
    (rest : List ℕ → World → Option (List ℕ × World)) (max_len timeout_ms start : ℕ)
    → IsQuiet rest
    → IsQuiet (recv_round rest max_len timeout_ms start)
unfolding recv_round
recv_round-IsQuiet rest max_len timeout_ms start q read w p h =
    let v = arrive w in
    let interval = sub32 v.time_since_start start in
    elim (Bool-cases (ltb (length read) max_len)) [
      | inr full ↦ Drains-result (rw full at h) (Drains-refl w.uart)
      | inl room ↦ elim (Bool-cases (leb timeout_ms interval)) [
        | inl over ↦ Drains-result (rw (room, over) at h) (Drains-arrive w)
        | inr time ↦
            let n = at_most (max_len - length read) circular_buf_size in
            let (got, e, taken) =
              bind-some (uart_get_data n (timeout_ms - interval) v) (take_in rest read)
                (rw (room, time) at h) in
            Drains-trans (Drains-arrive w) (
              Drains-trans (Drains-uart_get_data n (timeout_ms - interval) v e)
                (take_in-quiet rest q read got.0 got.1 p taken))
      ]
    ]

recv_rounds-IsQuiet :
    (f max_len timeout_ms start : ℕ) → IsQuiet (recv_rounds f max_len timeout_ms start)
unfolding recv_rounds
recv_rounds-IsQuiet zero max_len timeout_ms start read w p h = Drains-result h (Drains-refl w.uart)
recv_rounds-IsQuiet (suc f) max_len timeout_ms start read w p h =
    recv_round-IsQuiet (recv_rounds f max_len timeout_ms start) max_len timeout_ms start
      (recv_rounds-IsQuiet f max_len timeout_ms start) read w p h

pub Drains-serial_recv :
    (max_len timeout_ms : ℕ) (w : World) (p : List ℕ × World)
    → serial_recv max_len timeout_ms w ≡ some p
    → Drains w.uart p.1.uart
unfolding serial_recv
Drains-serial_recv max_len timeout_ms w p h =
    Drains-trans (Drains-arrive w)
      (recv_rounds-IsQuiet max_len max_len timeout_ms (arrive w).time_since_start [] (arrive w) p h)
