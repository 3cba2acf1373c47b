-- ===== src/Serial/Inside.antt =====
-- The interrupts inside `rxBuf.pendingBytes--`: those that bring no byte leave the receiving side as
-- it was.
use smart_door_lock.Base.{◌≡◌, ◌∙◌, refl, sym, ap, List, [], ◌∷◌, false, none, some, arith}
use smart_door_lock.Clock.{sub32}
use smart_door_lock.Serial.{CircularBuf, Uart, pop, rx_irq_handler, tx_irq_handler}
use smart_door_lock.Serial.Driver.{
  Irq, sys_tick, usart0_rx, usart0_tx, handle, handle_all, brings, brings_byte, moved_on, pop_with,
}
use smart_door_lock.Serial.Receive.{bytes_of, IsClean, Takes-handle_all}

-- The receiving side of `u'` is that of `u`.
record Spares (u u' : Uart) : Type 0 where
  rx : u'.rx_buf ≡ u.rx_buf
  on : u'.enabled ≡ u.enabled
  asks : u'.rxdatav_enabled ≡ u.rxdatav_enabled

Spares-handle : (i : Irq) (u : Uart) → brings i ≡ false → Spares u (handle i u)
unfolding handle rx_irq_handler tx_irq_handler
Spares-handle sys_tick u h = record { rx = refl; on = refl; asks = refl }
Spares-handle (usart0_rx none) u h = record {
  rx = ground arith;
  on = ground arith;
  asks = ground arith;
}
Spares-handle (usart0_rx (some c)) u h = absurd (cc)
Spares-handle (usart0_tx ready) u h = record {
  rx = ground arith;
  on = ground arith;
  asks = ground arith;
}

Spares-handle_all : (is : List Irq) (u : Uart) → brings_byte is ≡ false → Spares u (handle_all is u)
unfolding handle_all brings_byte
Spares-handle_all [] u h = record { rx = refl; on = refl; asks = refl }
Spares-handle_all (i ∷ is) u h =
    let first = Spares-handle i u (ground arith) in
    let rest = Spares-handle_all is (handle i u) (ground arith) in
    record { rx = rest.rx ∙ first.rx; on = rest.on ∙ first.on; asks = rest.asks ∙ first.asks }

pub bytes_of-none : (is : List Irq) → brings_byte is ≡ false → bytes_of is ≡ []
unfolding brings_byte
bytes_of-none [] h = refl
bytes_of-none (sys_tick ∷ is) h = bytes_of-none is h
bytes_of-none (usart0_rx none ∷ is) h = bytes_of-none is h
bytes_of-none (usart0_rx (some c) ∷ is) h = absurd (cc)
bytes_of-none (usart0_tx ready ∷ is) h = bytes_of-none is h

-- Whatever comes inside, a set flag stays set.
pub pop_with-clean : (is : List Irq) (u : Uart) → IsClean (pop_with is u) → IsClean u
unfolding pop_with
pop_with-clean is u c =
    let t = Takes-handle_all is (moved_on u) in (t.clean c.0, sym t.lost ∙ ground (arith, c.1))

pub pop_with-brings : (is : List Irq) (u : Uart) → IsClean (pop_with is u) → brings_byte is ≡ false
unfolding pop_with
pop_with-brings is u c = ground (arith, c.1)

-- A byte is taken out as by the two lines in one piece.
pub pop_with-rx_buf :
    (is : List Irq) (u : Uart) → brings_byte is ≡ false → (pop_with is u).rx_buf ≡ pop u.rx_buf
unfolding pop_with pop
pop_with-rx_buf is u h =
    ap (λ (b : CircularBuf). record b { pending_bytes = sub32 u.rx_buf.pending_bytes 1 })
      (Spares-handle_all is (moved_on u) h).rx

pub pop_with-enabled :
    (is : List Irq) (u : Uart)
    → brings_byte is ≡ false
    → ((pop_with is u).enabled ≡ u.enabled) × ((pop_with is u).rxdatav_enabled ≡ u.rxdatav_enabled)
unfolding pop_with
pop_with-enabled is u h = let s = Spares-handle_all is (moved_on u) h in (s.on, s.asks)
