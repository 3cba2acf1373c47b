-- ===== src/Serial/Receive.antt =====
-- What the receiving side hands on: the bytes that came, in their order, as long as no overflow is
-- reported.
use smart_door_lock.Base.{
  ℕ, ◌<◌, ◌≡◌, ◌∙◌, refl, sym, ap, List, [], ◌∷◌, ◌++◌, append-nil, append_assoc, Bool, true, false,
  Option, none, some, arith,
}
use smart_door_lock.Serial.{CircularBuf, Uart, push, receive, rx_irq_handler, tx_irq_handler}
use smart_door_lock.Serial.Ring.{IsRing, queue, push-IsRing, queue-push}
use smart_door_lock.Serial.Driver.{Irq, sys_tick, usart0_rx, usart0_tx, World, handle, handle_all}

-- The bytes that the interrupts bring.
abbrev pub byte_of : Irq → List ℕ
byte_of sys_tick = []
byte_of (usart0_rx none) = []
byte_of (usart0_rx (some c)) = c ∷ []
byte_of (usart0_tx ready) = []

abbrev pub bytes_of : List Irq → List ℕ
bytes_of [] = []
bytes_of (i ∷ is) = byte_of i ++ bytes_of is

abbrev pub incoming : List (List Irq) → List ℕ
incoming [] = []
incoming (is ∷ rest) = bytes_of is ++ incoming rest

-- The receiver is on, and its buffer is a ring.
pub record Listens (u : Uart) : Type 0 where
  pub on : u.enabled ≡ true
  pub asks : u.rxdatav_enabled ≡ true
  pub ring : IsRing u.rx_buf

-- No overflow is reported, and no byte has come inside a `pendingBytes--`.
abbrev pub IsClean : Uart → Type 0
IsClean u = (u.rx_buf.overflow ≡ false) × (u.lost_update ≡ false)

-- What has come or will come, and is not yet read.
abbrev pub stream : World → List ℕ
stream w = queue w.uart.rx_buf ++ incoming w.upcoming

-- From `u` to `u'` the bytes `cs` were taken in, if no overflow is reported at the end.
pub record Takes (u u' : Uart) (cs : List ℕ) : Type 0 where
  pub clean : u'.rx_buf.overflow ≡ false → u.rx_buf.overflow ≡ false
  pub listens : u'.rx_buf.overflow ≡ false → Listens u → Listens u'
  pub bytes : u'.rx_buf.overflow ≡ false → Listens u → queue u'.rx_buf ≡ queue u.rx_buf ++ cs
  pub lost : u'.lost_update ≡ u.lost_update

-- A byte that does not set the overflow flag is pushed.
receive-ring :
    (c : ℕ) (b : CircularBuf)
    → (receive c b).overflow ≡ false
    → IsRing b
    → (b.pending_bytes < 256) × (receive c b ≡ push c b) × (b.overflow ≡ false)
unfolding receive
receive-ring c b clean v = ground (arith, v.room)

receive-clean : (c : ℕ) (b : CircularBuf) → (receive c b).overflow ≡ false → b.overflow ≡ false
unfolding receive
receive-clean c b clean = ground arith

Takes-rx : (c : ℕ) (u : Uart) → Takes u (rx_irq_handler (some c) u) (c ∷ [])
unfolding rx_irq_handler
Takes-rx c u = record {
  clean = receive-clean c u.rx_buf;
  listens = λ clean l.
      let (room, e, _) = receive-ring c u.rx_buf clean l.ring in
      record { on = l.on; asks = l.asks; ring = rw e (push-IsRing c u.rx_buf l.ring room) };
  bytes = λ clean l.
      let (room, e, _) = receive-ring c u.rx_buf clean l.ring in
      rw e (queue-push c u.rx_buf l.ring room);
  lost = refl;
}

Takes-refl : (u : Uart) → Takes u u []
Takes-refl u = record {
  clean = λ c. c;
  listens = λ c l. l;
  bytes = λ c l. sym (append-nil (queue u.rx_buf));
  lost = refl;
}

Takes-trans : {u v w : Uart} {cs ds : List ℕ} → Takes u v cs → Takes v w ds → Takes u w (cs ++ ds)
Takes-trans {u} {cs} {ds} p q = record {
  clean = λ c. p.clean (q.clean c);
  listens = λ c l. q.listens c (p.listens (q.clean c) l);
  bytes = λ c l.
      q.bytes c (p.listens (q.clean c) l)
      ∙ ap (λ s. s ++ ds) (p.bytes (q.clean c) l)
      ∙ append_assoc (queue u.rx_buf) cs ds;
  lost = q.lost ∙ p.lost;
}

-- Steps that leave the receiving side alone.
Takes-same :
    {u v : Uart}
    → v.rx_buf ≡ u.rx_buf
    → v.enabled ≡ u.enabled
    → v.rxdatav_enabled ≡ u.rxdatav_enabled
    → v.lost_update ≡ u.lost_update
    → Takes u v []
Takes-same {u} {v} p q r s = record {
  clean = λ c. ap (λ b. b.overflow) (sym p) ∙ c;
  listens = λ c l. record { on = q ∙ l.on; asks = r ∙ l.asks; ring = rw p l.ring };
  bytes = λ c l. ap queue p ∙ sym (append-nil (queue u.rx_buf));
  lost = s;
}

Takes-tx : (ready : Bool) (u : Uart) → Takes u (handle (usart0_tx ready) u) []
unfolding handle tx_irq_handler
Takes-tx ready u = Takes-same (ground arith) (ground arith) (ground arith) (ground arith)

handle_rx-on : (c : Option ℕ) (u : Uart) → Listens u → handle (usart0_rx c) u ≡ rx_irq_handler c u
unfolding handle
handle_rx-on c u l = simp (l.on, l.asks)

handle_rx-clean :
    (c : ℕ) (u : Uart)
    → (handle (usart0_rx (some c)) u).rx_buf.overflow ≡ false
    → u.rx_buf.overflow ≡ false
unfolding handle rx_irq_handler
handle_rx-clean c u clean = ground (arith, receive-clean c u.rx_buf)

handle_rx-lost : (c : ℕ) (u : Uart) → (handle (usart0_rx (some c)) u).lost_update ≡ u.lost_update
unfolding handle rx_irq_handler
handle_rx-lost c u = ground arith

Takes-rx-none : (u : Uart) → Takes u (handle (usart0_rx none) u) []
unfolding handle rx_irq_handler
Takes-rx-none u = Takes-same (ground arith) (ground arith) (ground arith) (ground arith)

-- An interrupt brings its byte.
Takes-handle : (i : Irq) (u : Uart) → Takes u (handle i u) (byte_of i)
unfolding handle
Takes-handle sys_tick u = Takes-refl u
Takes-handle (usart0_rx none) u = Takes-rx-none u
Takes-handle (usart0_rx (some c)) u = record {
  clean = handle_rx-clean c u;
  listens = λ clean l.
      let e = handle_rx-on (some c) u l in rw e ((Takes-rx c u).listens (rw e at clean) l);
  bytes =
      λ clean l. let e = handle_rx-on (some c) u l in rw e ((Takes-rx c u).bytes (rw e at clean) l);
  lost = handle_rx-lost c u;
}
Takes-handle (usart0_tx ready) u = Takes-tx ready u

pub Takes-handle_all : (is : List Irq) (u : Uart) → Takes u (handle_all is u) (bytes_of is)
unfolding handle_all
Takes-handle_all [] u = Takes-refl u
Takes-handle_all (i ∷ is) u = Takes-trans (Takes-handle i u) (Takes-handle_all is (handle i u))
