-- ===== src/Serial/Transmit.antt =====
-- What the sending side puts on the line: the bytes that were handed to it, each once and in their
-- order, whatever the interrupts do between its steps.
use smart_door_lock.Base.{
  ℕ, ◌≤◌, ◌<◌, ◌≡◌, ◌∙◌, refl, sym, ap, List, [], ◌∷◌, ◌++◌, append_assoc, Bool, true, false, ◌&&◌,
  none, some, arith, ltb, Bool-cases, if◌then◌else◌, inl, inr,
}
use smart_door_lock.Serial.{
  Uart, front, pop, rx_irq_handler, transmit, stop_if_empty, tx_irq_handler,
}
use smart_door_lock.Serial.Ring.{IsRing, queue, pop-IsRing, queue-pop, pending-pop}
use smart_door_lock.Serial.Driver.{
  Irq, sys_tick, usart0_rx, usart0_tx, World, handle, handle_all, arrive_from, arrive,
}

-- What is on the line or waits for it.
abbrev pub outgoing : Uart → List ℕ
outgoing u = u.transmitted ++ queue u.tx_buf

-- From `u` to `u'` bytes may go out, and nothing else happens to them.
pub record Drains (u u' : Uart) : Type 0 where
  pub ring : IsRing u.tx_buf → IsRing u'.tx_buf
  pub same : IsRing u.tx_buf → outgoing u' ≡ outgoing u
  pub fewer : IsRing u.tx_buf → u'.tx_buf.pending_bytes ≤ u.tx_buf.pending_bytes

pub Drains-refl : (u : Uart) → Drains u u
Drains-refl u = record { ring = λ r. r; same = λ r. refl; fewer = λ r. omega arith }

pub Drains-trans : {u v w : Uart} → Drains u v → Drains v w → Drains u w
Drains-trans p q = record {
  ring = λ r. q.ring (p.ring r);
  same = λ r. q.same (p.ring r) ∙ p.same r;
  fewer = λ r. omega (arith, p.fewer r, q.fewer (p.ring r));
}

pub Drains-same : {u v : Uart} → v.tx_buf ≡ u.tx_buf → v.transmitted ≡ u.transmitted → Drains u v
Drains-same {u} {v} p q = record {
  ring = λ r. rw p r;
  same = λ r. rw (p, q);
  fewer = λ r. rw p (omega arith);
}

Drains-transmit : (u : Uart) → Drains u (transmit u)
unfolding transmit
Drains-transmit u = elim (Bool-cases (ltb 0 u.tx_buf.pending_bytes)) [
  | inr empty ↦ simp empty (Drains-refl u)
  | inl full ↦
      let h : 0 < u.tx_buf.pending_bytes = ground arith in
      simp full (record {
        ring = λ r. pop-IsRing u.tx_buf r h;
        same = λ r.
            append_assoc u.transmitted (front u.tx_buf ∷ []) (queue (pop u.tx_buf))
            ∙ ap (λ s. u.transmitted ++ s) (sym (queue-pop u.tx_buf r h));
        fewer = λ r. omega (arith, pending-pop u.tx_buf r h);
      })
]

Drains-stop_if_empty : (u : Uart) → Drains u (stop_if_empty u)
unfolding stop_if_empty
Drains-stop_if_empty u = Drains-same (ground arith) (ground arith)

Drains-tx_irq : (ready : Bool) (u : Uart) → Drains u (tx_irq_handler ready u)
unfolding tx_irq_handler
Drains-tx_irq false u = Drains-refl u
Drains-tx_irq true u = Drains-trans (Drains-transmit u) (Drains-stop_if_empty (transmit u))

Drains-if : (b : Bool) {u v : Uart} → Drains u v → Drains u (if b then v else u)
Drains-if true d = d
Drains-if false {u} d = Drains-refl u

pub Drains-handle : (i : Irq) (u : Uart) → Drains u (handle i u)
unfolding handle rx_irq_handler
Drains-handle sys_tick u = Drains-refl u
Drains-handle (usart0_rx none) u = Drains-same (ground arith) (ground arith)
Drains-handle (usart0_rx (some c)) u = Drains-same (ground arith) (ground arith)
Drains-handle (usart0_tx ready) u = Drains-if (u.enabled && u.txbl_enabled) (Drains-tx_irq ready u)

pub Drains-handle_all : (is : List Irq) (u : Uart) → Drains u (handle_all is u)
unfolding handle_all
Drains-handle_all [] u = Drains-refl u
Drains-handle_all (i ∷ is) u = Drains-trans (Drains-handle i u) (Drains-handle_all is (handle i u))

Drains-arrive_from : (up : List (List Irq)) (u : Uart) (t : ℕ) → Drains u (arrive_from up u t).uart
unfolding arrive_from
Drains-arrive_from [] u t = Drains-refl u
Drains-arrive_from (is ∷ rest) u t = Drains-handle_all is u

pub Drains-arrive : (w : World) → Drains w.uart (arrive w).uart
unfolding arrive
Drains-arrive w = Drains-arrive_from w.upcoming w.uart w.time_since_start
