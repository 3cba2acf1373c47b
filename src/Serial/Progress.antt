-- ===== src/Serial/Progress.antt =====
-- `SerialRecv` comes back: its time-out is measured by the clock, which the interrupts advance.
use smart_door_lock.Base.{
  ℕ, zero, suc, ◌+◌, ◌-◌, ◌≤◌, ◌<◌, ◌≡◌, refl, List, [], ◌∷◌, ◌++◌, Bool, true, false, Option, none,
  some, arith, length, ltb, leb, Bool-cases, inl, inr,
}
use smart_door_lock.Clock.{u32_mod, sub32, clock_after}
use smart_door_lock.Serial.{circular_buf_size, Uart}
use smart_door_lock.Serial.Driver.{
  Irq, World, handle_all, tick_all, arrive, Waited, arrived, timed_out, world_of, wait_byte,
  at_most, copy_out, uart_get_data, ◌>>=◌,
}
use smart_door_lock.Serial.Recv.{take_in, recv_round, recv_rounds, serial_recv}
use smart_door_lock.Serial.Elapsed.{
  all_ticks, ticks_of, IsSteady, Runs, tick_all-lem, Runs-refl, Runs-trans, Runs-entry, Runs-arrive,
  Runs-get_bytes, arrive-ticks_le,
}

-- The slack of the waiting loop: a look at `pendingBytes` lies between two looks at the clock.
abbrev slack : Bool → ℕ
slack false = 0
slack true = 1

abbrev Comes : (timeout_ms start : ℕ) → Bool → List (List Irq) → Uart → ℕ → Type 0
Comes timeout_ms start at_clock up u t =
    (e : Waited) × (wait_byte timeout_ms start at_clock up u t ≡ some e)
    × Runs (record { uart = u; time_since_start = t; upcoming = up }) (world_of e)

-- The waiting loop of `UartGetData` ends, `d` milliseconds after its start.
wait_byte-Comes :
    (timeout_ms start : ℕ) (at_clock : Bool) (up : List (List Irq)) (u : Uart) (t d : ℕ)
    → start < u32_mod
    → t ≡ clock_after start d
    → IsSteady up
    → d ≤ timeout_ms + slack at_clock
    → timeout_ms + 2 ≤ d + all_ticks up
    → d + all_ticks up < u32_mod
    → Comes timeout_ms start at_clock up u t
unfolding wait_byte
wait_byte-Comes timeout_ms start false [] u t d hs ht st le enough few = absurd (omega arith)
wait_byte-Comes timeout_ms start true [] u t d hs ht st le enough few = absurd (omega arith)
wait_byte-Comes timeout_ms start false (is ∷ rest) u t d hs ht st le enough few =
    let u' = handle_all is u in
    let t' = tick_all is t in
    let entry = Runs-entry is rest u u' t in
    elim (Bool-cases (ltb u'.rx_buf.pending_bytes 1)) [
      | inl more ↦
          let (e, q, r) =
            wait_byte-Comes timeout_ms start true rest u' t' (d + ticks_of is) hs
              (omega (arith, tick_all-lem is t (omega arith))) st.1 (omega (arith, st.0))
              (omega arith) (omega arith) in
          (e, rw more q, Runs-trans entry r)
      | inr here ↦
          (arrived (record { uart = u'; time_since_start = t'; upcoming = rest }), rw here, entry)
    ]
wait_byte-Comes timeout_ms start true (is ∷ rest) u t d hs ht st le enough few =
    let u' = handle_all is u in
    let t' = tick_all is t in
    let entry = Runs-entry is rest u u' t in
    let now : t' ≡ clock_after start (d + ticks_of is) =
      omega (arith, tick_all-lem is t (omega arith)) in
    elim (Bool-cases (leb timeout_ms (sub32 t' start))) [
      | inl over ↦
          (timed_out (record { uart = u'; time_since_start = t'; upcoming = rest }), rw over, entry)
      | inr more ↦
          let early : sub32 t' start < timeout_ms = ground arith in
          let (e, q, r) =
            wait_byte-Comes timeout_ms start false rest u' t' (d + ticks_of is) hs now st.1
              (omega arith) (omega arith) (omega arith) in
          (e, rw more q, Runs-trans entry r)
    ]

copy_out-Runs : (data_len : ℕ) (e : Waited) → Runs (world_of e) (copy_out data_len e).1
unfolding copy_out
copy_out-Runs data_len (timed_out w) = Runs-refl w
copy_out-Runs data_len (arrived w) =
    let w' = arrive w in
    let w'' = arrive w' in
    elim (Bool-cases (ltb w'.uart.rx_buf.pending_bytes data_len)) [
      | inl fewer ↦ rw fewer (
          Runs-trans (Runs-arrive w)
            (Runs-trans (Runs-arrive w') (Runs-get_bytes w''.uart.rx_buf.pending_bytes w'')))
      | inr enough ↦ rw enough (Runs-trans (Runs-arrive w) (Runs-get_bytes data_len w'))
    ]

uart_get_data-returns :
    (data_len timeout_ms : ℕ) (w : World)
    → w.time_since_start < u32_mod
    → IsSteady w.upcoming
    → timeout_ms + 3 ≤ all_ticks w.upcoming
    → all_ticks w.upcoming < u32_mod
    → (p : Option (List ℕ) × World) × (uart_get_data data_len timeout_ms w ≡ some p) × Runs w p.1
unfolding uart_get_data
uart_get_data-returns data_len timeout_ms w hs st enough few =
    let v = arrive w in
    let run = Runs-arrive w in
    let now = run.clock hs in
    let one : run.ticks ≤ 1 = omega (arith, run.spent, arrive-ticks_le w st) in
    let (e, q, r) =
      wait_byte-Comes timeout_ms v.time_since_start false v.upcoming v.uart v.time_since_start 0
        (omega arith) (omega arith) (run.steady st) (omega arith) (omega (arith, run.spent))
        (omega (arith, run.spent)) in
    (copy_out data_len e, rw (q, ◌>>=◌), Runs-trans run (Runs-trans r (copy_out-Runs data_len e)))

-- `d` milliseconds after `start`, with time enough to come for the time-out to be noticed.
record Lasts (timeout_ms start d : ℕ) (w : World) : Type 0 where
  begun : start < u32_mod
  now : w.time_since_start ≡ clock_after start d
  steady : IsSteady w.upcoming
  enough : timeout_ms + 5 ≤ d + all_ticks w.upcoming
  few : d + all_ticks w.upcoming < u32_mod

Lasts-Runs :
    {timeout_ms start d : ℕ} {w w' : World}
    → Lasts timeout_ms start d w
    → (r : Runs w w') → Lasts timeout_ms start (d + r.ticks) w'
Lasts-Runs l r = record {
  begun = l.begun;
  now =
      let spent = r.spent in
      let few = l.few in let first = l.now in let second = r.clock (omega arith) in omega arith;
  steady = r.steady l.steady;
  enough = omega (arith, r.spent, l.enough);
  few = omega (arith, r.spent, l.few);
}

abbrev Returns : (List ℕ → World → Option (List ℕ × World)) → List ℕ → World → Type 0
Returns run read w = (p : List ℕ × World) × (run read w ≡ some p)

take_in-Returns :
    (rest : List ℕ → World → Option (List ℕ × World)) (read : List ℕ) (r : Option (List ℕ))
    (w : World)
    → ((read' : List ℕ) → Returns rest read' w)
    → (p : List ℕ × World) × (take_in rest read (r, w) ≡ some p)
unfolding take_in
take_in-Returns rest read none w ih = ((read, w), refl)
take_in-Returns rest read (some []) w ih = ((read, w), refl)
take_in-Returns rest read (some (b ∷ bs)) w ih = ih (read ++ b ∷ bs)

recv_round-Returns :
    (rest : List ℕ → World → Option (List ℕ × World)) (max_len timeout_ms start d : ℕ)
    (read : List ℕ) (w : World)
    → Lasts timeout_ms start d w
    → ((read' : List ℕ) (d' : ℕ) (w' : World)
        → Lasts timeout_ms start d' w'
        → Returns rest read' w')
    → Returns (recv_round rest max_len timeout_ms start) read w
unfolding recv_round
recv_round-Returns rest max_len timeout_ms start d read w l ih =
    let v = arrive w in
    let run = Runs-arrive w in
    let later = Lasts-Runs l run in
    let interval = sub32 v.time_since_start start in
    elim (Bool-cases (ltb (length read) max_len)) [
      | inr full ↦ ((read, w), rw full)
      | inl room ↦ elim (Bool-cases (leb timeout_ms interval)) [
        | inl over ↦ ((read, v), rw (room, over))
        | inr time ↦
            let n = at_most (max_len - length read) circular_buf_size in
            let passed : interval ≡ d + run.ticks =
              omega (arith, later.now, later.begun, later.few) in
            let left : timeout_ms - interval + 3 ≤ all_ticks v.upcoming =
              ground (arith, later.enough, passed) in
            let (q, e, r) =
              uart_get_data-returns n (timeout_ms - interval) v (omega (arith, later.now))
                later.steady left (omega (arith, later.few)) in
            let (p, e') =
              take_in-Returns rest read q.0 q.1
                (λ read'. ih read' (d + run.ticks + r.ticks) q.1 (Lasts-Runs later r)) in
            (p, rw (room, time, e, ◌>>=◌) e')
      ]
    ]

recv_rounds-Returns :
    (f max_len timeout_ms start d : ℕ) (read : List ℕ) (w : World)
    → Lasts timeout_ms start d w
    → Returns (recv_rounds f max_len timeout_ms start) read w
unfolding recv_rounds
recv_rounds-Returns zero max_len timeout_ms start d read w l = ((read, w), refl)
recv_rounds-Returns (suc f) max_len timeout_ms start d read w l =
    recv_round-Returns (recv_rounds f max_len timeout_ms start) max_len timeout_ms start d read w l
      (λ read' d' w' l'. recv_rounds-Returns f max_len timeout_ms start d' read' w' l')

-- `SerialRecv` returns, whatever bytes come or do not come, if 6 ms more than its time-out pass in
-- all, no two of them between two looks at a shared variable, and fewer than 2 ^ 32.
pub recv-returns :
    (max_len timeout_ms : ℕ) (w : World)
    → w.time_since_start < u32_mod
    → IsSteady w.upcoming
    → timeout_ms + 6 ≤ all_ticks w.upcoming
    → all_ticks w.upcoming < u32_mod
    → (result : List ℕ × World) × (serial_recv max_len timeout_ms w ≡ some result)
unfolding serial_recv
recv-returns max_len timeout_ms w hs st enough few =
    let v = arrive w in
    let run = Runs-arrive w in
    let now = run.clock hs in
    recv_rounds-Returns max_len max_len timeout_ms v.time_since_start 0 [] v (record {
      begun = omega arith;
      now = omega arith;
      steady = run.steady st;
      enough = omega (arith, arrive-ticks_le w st);
      few = omega (arith, run.spent);
    })
