-- ===== src/Serial/Drain.antt =====
-- How the TX interrupt empties the sending buffer.
use smart_door_lock.Base.{
  ℕ, ◌-◌, ◌≤◌, ◌≡◌, ◌∙◌, refl, List, [], ◌∷◌, Bool, true, false, Option, none, some, arith, All,
  if◌then◌else◌, ◌⊎◌,
}
use smart_door_lock.Serial.{Uart, rx_irq_handler, tx_irq_handler}
use smart_door_lock.Serial.Ring.{IsRing, pending-pop}
use smart_door_lock.Serial.Driver.{Irq, sys_tick, usart0_rx, usart0_tx, handle, handle_all}
use smart_door_lock.Serial.Transmit.{Drains-handle, Drains-handle_all}

-- Whether the UART asks for a byte among the interrupts of an entry.
abbrev pub asks : List Irq → Bool
asks [] = false
asks (usart0_tx true ∷ is) = true
asks (i ∷ is) = asks is

-- The UART never stops to ask.
abbrev pub IsFair : List (List Irq) → Type 0
IsFair = All (λ is. asks is ≡ true)

-- The UART is on, and its TX interrupt too while bytes are pending.
pub record IsArmed (u : Uart) : Type 0 where
  pub on : u.enabled ≡ true
  pub ring : IsRing u.tx_buf
  pub armed : (u.tx_buf.pending_bytes ≡ 0) ⊎ (u.txbl_enabled ≡ true)

tx_irq-pending :
    (u : Uart)
    → IsRing u.tx_buf
    → (tx_irq_handler true u).tx_buf.pending_bytes ≡ u.tx_buf.pending_bytes - 1
unfolding tx_irq_handler
tx_irq-pending u r = ground (arith, pending-pop u.tx_buf r)

tx_irq-armed :
    (u : Uart)
    → ((tx_irq_handler true u).tx_buf.pending_bytes ≡ 0)
      ⊎ ((tx_irq_handler true u).txbl_enabled ≡ u.txbl_enabled)
unfolding tx_irq_handler
tx_irq-armed u = ground arith

tx_irq-on : (u : Uart) → (tx_irq_handler true u).enabled ≡ u.enabled
unfolding tx_irq_handler
tx_irq-on u = ground arith

handle_tx-enabled :
    (ready : Bool) (u : Uart)
    → u.enabled ≡ true
    → handle (usart0_tx ready) u ≡ (if u.txbl_enabled then tx_irq_handler ready u else u)
unfolding handle
handle_tx-enabled ready u e = simp e

handle_tx-pending :
    (u : Uart)
    → IsArmed u
    → (handle (usart0_tx true) u).tx_buf.pending_bytes ≡ u.tx_buf.pending_bytes - 1
handle_tx-pending u a =
    rw (handle_tx-enabled true u a.on) (ground (arith, tx_irq-pending u a.ring, a.armed))

handle_tx-armed :
    (u : Uart)
    → IsArmed u
    → ((handle (usart0_tx true) u).tx_buf.pending_bytes ≡ 0)
      ⊎ ((handle (usart0_tx true) u).txbl_enabled ≡ true)
handle_tx-armed u a = rw (handle_tx-enabled true u a.on) (ground (arith, tx_irq-armed u, a.armed))

handle-on : (i : Irq) (u : Uart) → (handle i u).enabled ≡ u.enabled
unfolding handle rx_irq_handler tx_irq_handler
handle-on sys_tick u = refl
handle-on (usart0_rx none) u = ground arith
handle-on (usart0_rx (some c)) u = ground arith
handle-on (usart0_tx ready) u = ground arith

pub handle_all-on : (is : List Irq) (u : Uart) → (handle_all is u).enabled ≡ u.enabled
unfolding handle_all
handle_all-on [] u = refl
handle_all-on (i ∷ is) u = handle_all-on is (handle i u) ∙ handle-on i u

handle_rx-tx :
    (c : Option ℕ) (u : Uart)
    → ((handle (usart0_rx c) u).tx_buf ≡ u.tx_buf)
      × ((handle (usart0_rx c) u).txbl_enabled ≡ u.txbl_enabled)
unfolding handle rx_irq_handler
handle_rx-tx none u = (ground arith, ground arith)
handle_rx-tx (some c) u = (ground arith, ground arith)

handle-armed :
    (i : Irq) (u : Uart)
    → IsArmed u
    → ((handle i u).tx_buf.pending_bytes ≡ 0) ⊎ ((handle i u).txbl_enabled ≡ true)
unfolding handle tx_irq_handler
handle-armed sys_tick u a = a.armed
handle-armed (usart0_rx c) u a = rw ((handle_rx-tx c u).0, (handle_rx-tx c u).1) a.armed
handle-armed (usart0_tx true) u a = handle_tx-armed u a
handle-armed (usart0_tx false) u a = ground (arith, a.armed)

handle-IsArmed : (i : Irq) (u : Uart) → IsArmed u → IsArmed (handle i u)
handle-IsArmed i u a = record {
  on = handle-on i u ∙ a.on;
  ring = (Drains-handle i u).ring a.ring;
  armed = handle-armed i u a;
}

pub handle_all-IsArmed : (is : List Irq) (u : Uart) → IsArmed u → IsArmed (handle_all is u)
unfolding handle_all
handle_all-IsArmed [] u a = a
handle_all-IsArmed (i ∷ is) u a = handle_all-IsArmed is (handle i u) (handle-IsArmed i u a)

-- An entry in which the UART asks takes a byte off, if there is one.
pub handle_all-pending :
    (is : List Irq) (u : Uart)
    → IsArmed u
    → asks is ≡ true
    → (handle_all is u).tx_buf.pending_bytes ≤ u.tx_buf.pending_bytes - 1
unfolding handle_all
handle_all-pending [] u a h = absurd (cc)
handle_all-pending (usart0_tx true ∷ is) u a h = omega (
  arith,
  handle_tx-pending u a,
  (Drains-handle_all is (handle (usart0_tx true) u)).fewer
      (handle-IsArmed (usart0_tx true) u a).ring,
)
handle_all-pending (usart0_tx false ∷ is) u a h = omega (
  arith,
  (Drains-handle (usart0_tx false) u).fewer a.ring,
  handle_all-pending is (handle (usart0_tx false) u) (handle-IsArmed (usart0_tx false) u a) h,
)
handle_all-pending (sys_tick ∷ is) u a h = omega (
  arith,
  (Drains-handle sys_tick u).fewer a.ring,
  handle_all-pending is (handle sys_tick u) (handle-IsArmed sys_tick u a) h,
)
handle_all-pending (usart0_rx c ∷ is) u a h = omega (
  arith,
  (Drains-handle (usart0_rx c) u).fewer a.ring,
  handle_all-pending is (handle (usart0_rx c) u) (handle-IsArmed (usart0_rx c) u a) h,
)
