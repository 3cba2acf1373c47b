-- ===== src/Serial/Stream.antt =====
-- `SerialRecv` reads a stream: what it returns is what came first, whatever the interrupts do
-- between its steps.
use smart_door_lock.Base.{
  ℕ, zero, suc, ◌≤◌, ◌<◌, ◌≡◌, ◌∙◌, refl, sym, ap, List, [], ◌∷◌, ◌++◌, append_assoc, false, arith,
  length, length-append,
}
use smart_door_lock.Serial.{Uart, front}
use smart_door_lock.Serial.Ring.{queue, length-queue, pop-IsRing, queue-pop, pending-pop}
use smart_door_lock.Serial.Driver.{
  Irq, World, handle_all, tick_all, arrive_from, arrive, pop_with, pop_from, get_byte, get_bytes,
}
use smart_door_lock.Serial.Receive.{bytes_of, incoming, Listens, stream, IsClean, Takes-handle_all}
use smart_door_lock.Serial.Inside.{
  bytes_of-none, pop_with-clean, pop_with-brings, pop_with-rx_buf, pop_with-enabled,
}

-- From `w` to `w'` the program has read `bs`, if no overflow is reported at the end and no update
-- was lost.
pub record Passes (w w' : World) (bs : List ℕ) : Type 0 where
  pub clean : IsClean w'.uart → IsClean w.uart
  pub listens : IsClean w'.uart → Listens w.uart → Listens w'.uart
  pub bytes : IsClean w'.uart → Listens w.uart → stream w ≡ bs ++ stream w'

pub Passes-refl : (w : World) → Passes w w []
Passes-refl w = record { clean = λ c. c; listens = λ c l. l; bytes = λ c l. refl }

pub Passes-trans :
    {u v w : World} {bs cs : List ℕ} → Passes u v bs → Passes v w cs → Passes u w (bs ++ cs)
Passes-trans {w} {bs} {cs} p q = record {
  clean = λ c. p.clean (q.clean c);
  listens = λ c l. q.listens c (p.listens (q.clean c) l);
  bytes = λ c l.
      p.bytes (q.clean c) l
      ∙ ap (λ s. bs ++ s) (q.bytes c (p.listens (q.clean c) l))
      ∙ sym (append_assoc bs cs (stream w));
}

-- The interrupts of one entry.
pub Passes-entry :
    (is : List Irq) (rest : List (List Irq)) (u : Uart) (t t' : ℕ)
    → Passes
        (record { uart = u; time_since_start = t; upcoming = is ∷ rest })
        (record { uart = handle_all is u; time_since_start = t'; upcoming = rest })
        []
Passes-entry is rest u t t' =
    let taken = Takes-handle_all is u in
    record {
      clean = λ c. (taken.clean c.0, sym taken.lost ∙ c.1);
      listens = λ c. taken.listens c.0;
      bytes = λ c l.
          sym (append_assoc (queue u.rx_buf) (bytes_of is) (incoming rest))
          ∙ ap (λ s. s ++ incoming rest) (sym (taken.bytes c.0 l));
    }

Passes-arrive_from :
    (up : List (List Irq)) (u : Uart) (t : ℕ)
    → Passes (record { uart = u; time_since_start = t; upcoming = up }) (arrive_from up u t) []
unfolding arrive_from
Passes-arrive_from [] u t = Passes-refl _
Passes-arrive_from (is ∷ rest) u t = Passes-entry is rest u t (tick_all is t)

pub Passes-arrive : (w : World) → Passes w (arrive w) []
unfolding arrive
Passes-arrive w = Passes-arrive_from w.upcoming w.uart w.time_since_start

-- Interrupts only add to what is pending.
pending-arrive_from :
    (up : List (List Irq)) (u : Uart) (t : ℕ)
    → (arrive_from up u t).uart.rx_buf.overflow ≡ false
    → Listens u
    → u.rx_buf.pending_bytes ≤ (arrive_from up u t).uart.rx_buf.pending_bytes
unfolding arrive_from
pending-arrive_from [] u t c l = omega arith
pending-arrive_from (is ∷ rest) u t c l = omega (
  arith,
  ap (length {0}) ((Takes-handle_all is u).bytes c l),
  length-append (queue u.rx_buf) (bytes_of is),
  length-queue u.rx_buf,
  length-queue (handle_all is u).rx_buf,
)

pending-arrive :
    (w : World)
    → (arrive w).uart.rx_buf.overflow ≡ false
    → Listens w.uart
    → w.uart.rx_buf.pending_bytes ≤ (arrive w).uart.rx_buf.pending_bytes
unfolding arrive
pending-arrive w c l = pending-arrive_from w.upcoming w.uart w.time_since_start c l

-- A round of the copying loop, where a byte is pending: the byte is read, and one is pending less.
record Gets (w w' : World) (c : ℕ) : Type 0 where
  listens : Listens w'.uart
  bytes : stream w ≡ c ∷ stream w'
  fewer : w.uart.rx_buf.pending_bytes ≡ suc w'.uart.rx_buf.pending_bytes

Gets-pop_with :
    (is : List Irq) (rest : List (List Irq)) (u : Uart) (t t' : ℕ)
    → IsClean (pop_with is u)
    → Listens u
    → 0 < u.rx_buf.pending_bytes
    → Gets
        (record { uart = u; time_since_start = t; upcoming = is ∷ rest })
        (record { uart = pop_with is u; time_since_start = t'; upcoming = rest })
        (front u.rx_buf)
Gets-pop_with is rest u t t' c l h =
    let none_come = pop_with-brings is u c in
    let popped = pop_with-rx_buf is u none_come in
    let same = pop_with-enabled is u none_come in
    let fewer = pending-pop u.rx_buf l.ring h in
    record {
      listens = record {
        on = same.0 ∙ l.on;
        asks = same.1 ∙ l.asks;
        ring = rw popped (pop-IsRing u.rx_buf l.ring h);
      };
      bytes =
          rw (popped, bytes_of-none is none_come)
            (ap (λ s. s ++ incoming rest) (queue-pop u.rx_buf l.ring h));
      fewer = fewer ∙ ap (λ b. suc b.pending_bytes) (sym popped);
    }

Gets-pop_from :
    (up : List (List Irq)) (u : Uart) (t : ℕ)
    → IsClean (pop_from up u t).uart
    → Listens u
    → 0 < u.rx_buf.pending_bytes
    → Gets
        (record { uart = u; time_since_start = t; upcoming = up })
        (pop_from up u t)
        (front u.rx_buf)
unfolding pop_from
Gets-pop_from [] u t c l h =
    let g = Gets-pop_with [] [] u t t c l h in
    record { listens = g.listens; bytes = g.bytes; fewer = g.fewer }
Gets-pop_from (is ∷ rest) u t c l h = Gets-pop_with is rest u t (tick_all is t) c l h

Gets-get_byte :
    (w : World)
    → IsClean (get_byte w).1.uart
    → Listens w.uart
    → 0 < w.uart.rx_buf.pending_bytes
    → Gets w (get_byte w).1 (get_byte w).0
unfolding get_byte
Gets-get_byte w c l h = Gets-pop_from w.upcoming w.uart w.time_since_start c l h

pop_from-clean :
    (up : List (List Irq)) (u : Uart) (t : ℕ) → IsClean (pop_from up u t).uart → IsClean u
unfolding pop_from
pop_from-clean [] u t c = pop_with-clean [] u c
pop_from-clean (is ∷ rest) u t c = pop_with-clean is u c

get_byte-clean : (w : World) → IsClean (get_byte w).1.uart → IsClean w.uart
unfolding get_byte
get_byte-clean w c = pop_from-clean w.upcoming w.uart w.time_since_start c

-- The copying loop, where enough bytes are pending.
pub get_bytes-clean : (n : ℕ) (w : World) → IsClean (get_bytes n w).1.uart → IsClean w.uart
unfolding get_bytes
get_bytes-clean zero w c = c
get_bytes-clean (suc n) w c =
    (Passes-arrive w).clean
      (get_byte-clean (arrive w) (get_bytes-clean n (get_byte (arrive w)).1 c))

pub get_bytes-reads :
    (n : ℕ) (w : World)
    → IsClean (get_bytes n w).1.uart
    → Listens w.uart
    → n ≤ w.uart.rx_buf.pending_bytes
    → Listens (get_bytes n w).1.uart × (stream w ≡ (get_bytes n w).0 ++ stream (get_bytes n w).1)
unfolding get_bytes
get_bytes-reads zero w c l h = (l, refl)
get_bytes-reads (suc n) w c l h =
    let w' = arrive w in
    let w'' = (get_byte w').1 in
    let c'' = get_bytes-clean n w'' c in
    let c' = get_byte-clean w' c'' in
    let l' = (Passes-arrive w).listens c' l in
    let grown = pending-arrive w c'.0 l in
    let g = Gets-get_byte w' c'' l' (omega arith) in
    let (l3, rest) = get_bytes-reads n w'' c g.listens (omega (arith, g.fewer)) in
    (l3, (Passes-arrive w).bytes c' l ∙ g.bytes ∙ ap (λ s. (get_byte w').0 ∷ s) rest)
