-- ===== src/Serial/OnePiece.antt =====
-- `txBuf.pendingBytes++` in `UartPutData` is a load and a store. The copying loop with interrupts
-- inside, against the loop of Serial.Driver, whose rounds are each in one piece.
use smart_door_lock.Base.{
  ℕ, ◌+◌, ◌%◌, ◌≡◌, ◌∙◌, refl, sym, ap, List, [], ◌∷◌, ◌++◌, false, none, some, arith,
}
use smart_door_lock.Clock.{u32_mod}
use smart_door_lock.Serial.{CircularBuf, Uart, next_index, stored, push, rx_irq_handler}
use smart_door_lock.Serial.Driver.{
  Irq, sys_tick, usart0_rx, usart0_tx, World, handle, handle_all, tick_all, arrive_from, arrive,
  put_byte, put_bytes,
}

abbrev pub on_tx : (CircularBuf → CircularBuf) → Uart → Uart
on_tx f u = record u { tx_buf = f u.tx_buf }

-- The first two lines that put a byte.
abbrev pub written : ℕ → CircularBuf → CircularBuf
written c b = record b { data_at = stored b.data_at b.wr_i c; wr_i = next_index b.wr_i }

-- All three, with these interrupts between the load and the store of the third.
unfoldable pub push_with : ℕ → List Irq → Uart → Uart
unfolding handle_all
push_with c is u =
    on_tx (λ b. record b { pending_bytes = (u.tx_buf.pending_bytes + 1) % u32_mod })
      (handle_all is (on_tx (written c) u))

abbrev pub first : List (List Irq) → List Irq
first [] = []
first (is ∷ iss) = is

abbrev pub later : List (List Irq) → List (List Irq)
later [] = []
later (is ∷ iss) = iss

-- The copying loop of `UartPutData`; `inside` are the interrupts inside the rounds.
unfoldable pub put_bytes_with : List ℕ → (inside : List (List Irq)) → World → World
unfolding arrive push_with tick_all
put_bytes_with [] inside w = w
put_bytes_with (c ∷ cs) inside w =
    let w' = arrive w in
    put_bytes_with cs (later inside) (record {
      uart = push_with c (first inside) w'.uart;
      time_since_start = tick_all (first inside) w'.time_since_start;
      upcoming = w'.upcoming;
    })

-- Each list of interrupts inside a round comes before the round instead.
unfoldable pub put_before : List ℕ → (inside upcoming : List (List Irq)) → List (List Irq)
put_before [] inside upcoming = upcoming
put_before (c ∷ cs) inside [] = first inside ∷ put_before cs (later inside) []
put_before (c ∷ cs) inside (is ∷ rest) = (is ++ first inside) ∷ put_before cs (later inside) rest

-- What is left of an interrupt while TXBL is disabled.
record SparesTx (f : CircularBuf → CircularBuf) (i : Irq) (u : Uart) : Type 0 where
  off : (handle i u).txbl_enabled ≡ false
  tx : (handle i u).tx_buf ≡ u.tx_buf
  beside : handle i (on_tx f u) ≡ on_tx f (handle i u)

handle-SparesTx :
    (f : CircularBuf → CircularBuf) (i : Irq) (u : Uart) → u.txbl_enabled ≡ false → SparesTx f i u
unfolding handle rx_irq_handler
handle-SparesTx f sys_tick u h = record { off = h; tx = refl; beside = refl }
handle-SparesTx f (usart0_rx none) u h = record {
  off = ground arith;
  tx = ground arith;
  beside = ground arith;
}
handle-SparesTx f (usart0_rx (some c)) u h = record {
  off = ground arith;
  tx = ground arith;
  beside = ground arith;
}
handle-SparesTx f (usart0_tx ready) u h = record {
  off = ground arith;
  tx = ground arith;
  beside = ground arith;
}

record AllSpareTx (f : CircularBuf → CircularBuf) (is : List Irq) (u : Uart) : Type 0 where
  off : (handle_all is u).txbl_enabled ≡ false
  tx : (handle_all is u).tx_buf ≡ u.tx_buf
  beside : handle_all is (on_tx f u) ≡ on_tx f (handle_all is u)

handle_all-AllSpareTx :
    (f : CircularBuf → CircularBuf) (is : List Irq) (u : Uart)
    → u.txbl_enabled ≡ false
    → AllSpareTx f is u
unfolding handle_all
handle_all-AllSpareTx f [] u h = record { off = h; tx = refl; beside = refl }
handle_all-AllSpareTx f (i ∷ is) u h =
    let s = handle-SparesTx f i u h in
    let r = handle_all-AllSpareTx f is (handle i u) s.off in
    record { off = r.off; tx = r.tx ∙ s.tx; beside = ap (handle_all is) s.beside ∙ r.beside }

push_with-push :
    (c : ℕ) (is : List Irq) (u : Uart)
    → u.txbl_enabled ≡ false
    → push_with c is u ≡ on_tx (push c) (handle_all is u)
unfolding push_with push
push_with-push c is u h =
    let s = handle_all-AllSpareTx (written c) is u h in
    ap (on_tx (λ b. record b { pending_bytes = (u.tx_buf.pending_bytes + 1) % u32_mod })) s.beside
    ∙ ap
        (λ (b : CircularBuf).
          on_tx (λ d. record d { pending_bytes = (b.pending_bytes + 1) % u32_mod })
            (on_tx (written c) (handle_all is u)))
        (sym s.tx)

handle_all-append :
    (is js : List Irq) (u : Uart) → handle_all (is ++ js) u ≡ handle_all js (handle_all is u)
unfolding handle_all
handle_all-append [] js u = refl
handle_all-append (i ∷ is) js u = handle_all-append is js (handle i u)

tick_all-append : (is js : List Irq) (t : ℕ) → tick_all (is ++ js) t ≡ tick_all js (tick_all is t)
unfolding tick_all
tick_all-append [] js t = refl
tick_all-append (i ∷ is) js t = tick_all-append is js _

put_in_one_piece_from :
    (cs : List ℕ) (inside up : List (List Irq)) (u : Uart) (t : ℕ)
    → u.txbl_enabled ≡ false
    → put_bytes_with cs inside (record { uart = u; time_since_start = t; upcoming = up })
      ≡ put_bytes cs (record { uart = u; time_since_start = t; upcoming = put_before cs inside up })
unfolding put_bytes_with put_before put_bytes put_byte arrive arrive_from
put_in_one_piece_from [] inside up u t off = refl
put_in_one_piece_from (c ∷ cs) inside [] u t off =
    let is = first inside in
    ap
      (λ v.
        put_bytes_with cs (later inside)
          (record { uart = v; time_since_start = tick_all is t; upcoming = [] }))
      (push_with-push c is u off)
    ∙ put_in_one_piece_from cs (later inside) [] (on_tx (push c) (handle_all is u)) (tick_all is t)
        (handle_all-AllSpareTx (push c) is u off).off
put_in_one_piece_from (c ∷ cs) inside (now ∷ rest) u t off =
    let is = first inside in
    let v = handle_all now u in
    let still = (handle_all-AllSpareTx (push c) now u off).off in
    let later_on =
      put_in_one_piece_from cs (later inside) rest (on_tx (push c) (handle_all is v))
        (tick_all is (tick_all now t)) (handle_all-AllSpareTx (push c) is v still).off in
    rw (push_with-push c is v still, handle_all-append now is u, tick_all-append now is t) later_on

-- If TXBL is disabled when the copying loop of `UartPutData` begins, the loop with any interrupts
-- inside its rounds does what it does when each of them comes before its round, which then is in one
-- piece.
pub put_in_one_piece :
    (cs : List ℕ) (inside : List (List Irq)) (w : World)
    → w.uart.txbl_enabled ≡ false
    → put_bytes_with cs inside w
      ≡ put_bytes cs (record w { upcoming = put_before cs inside w.upcoming })
put_in_one_piece cs inside w off =
    put_in_one_piece_from cs inside w.upcoming w.uart w.time_since_start off

-- Nothing but the copying loop's end enables TXBL.
pub handle_all-off :
    (is : List Irq) (u : Uart) → u.txbl_enabled ≡ false → (handle_all is u).txbl_enabled ≡ false
handle_all-off is u off = (handle_all-AllSpareTx (push 0) is u off).off
