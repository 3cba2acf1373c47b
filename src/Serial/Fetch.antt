-- ===== src/Serial/Fetch.antt =====
-- `UartGetData` as a reader of a stream: which bytes it returns.
use smart_door_lock.Base.{
  ℕ, zero, suc, ◌≤◌, ◌≡◌, refl, ap, List, [], ◌∷◌, Bool, true, false, Option, none, some, arith,
  length, ltb, leb, Bool-cases, inl, inr, subst,
}
use smart_door_lock.Clock.{sub32}
use smart_door_lock.Serial.{Uart}
use smart_door_lock.Serial.Driver.{
  Irq, World, handle_all, tick_all, arrive, get_byte, get_bytes, Waited, arrived, timed_out,
  world_of, wait_byte, copy_out, uart_get_data, ◌>>=◌,
}
use smart_door_lock.Serial.Stream.{
  Passes, Passes-refl, Passes-trans, Passes-entry, Passes-arrive, get_bytes-clean, get_bytes-reads,
}

-- Inversion of a step that returns.
pub bind-some {ℓ κ} :
    {A : Type ℓ} {B : Type κ} (m : Option A) (f : A → Option B) {b : B}
    → (m >>= f) ≡ some b
    → (a : A) × (m ≡ some a) × (f a ≡ some b)
bind-some none f h = absurd (cc)
bind-some (some a) f h = (a, refl, h)

pub some-eq {ℓ} : {A : Type ℓ} {a b : A} → some a ≡ some b → a ≡ b
some-eq h = cc

Passes-end :
    {w : World} {a b : Waited} → a ≡ b → Passes w (world_of a) [] → Passes w (world_of b) []
Passes-end {w} e p = subst (λ x. Passes w (world_of x) []) e p

wait_byte-Passes :
    (timeout_ms start : ℕ) (at_clock : Bool) (up : List (List Irq)) (u : Uart) (t : ℕ) (e : Waited)
    → wait_byte timeout_ms start at_clock up u t ≡ some e
    → Passes (record { uart = u; time_since_start = t; upcoming = up }) (world_of e) []
unfolding wait_byte
wait_byte-Passes timeout_ms start false [] u t e h = absurd (cc)
wait_byte-Passes timeout_ms start true [] u t e h = absurd (cc)
wait_byte-Passes timeout_ms start false (is ∷ rest) u t e h =
    let u' = handle_all is u in
    let t' = tick_all is t in
    let entry = Passes-entry is rest u t t' in
    elim (Bool-cases (ltb u'.rx_buf.pending_bytes 1)) [
      | inl more ↦
          Passes-trans entry (wait_byte-Passes timeout_ms start true rest u' t' e (rw more at h))
      | inr here ↦ Passes-end (some-eq (rw here at h)) entry
    ]
wait_byte-Passes timeout_ms start true (is ∷ rest) u t e h =
    let u' = handle_all is u in
    let t' = tick_all is t in
    let entry = Passes-entry is rest u t t' in
    elim (Bool-cases (leb timeout_ms (sub32 t' start))) [
      | inl over ↦ Passes-end (some-eq (rw over at h)) entry
      | inr more ↦
          Passes-trans entry (wait_byte-Passes timeout_ms start false rest u' t' e (rw more at h))
    ]

pub length-get_bytes : (n : ℕ) (w : World) → length (get_bytes n w).0 ≡ n
unfolding get_bytes
length-get_bytes zero w = refl
length-get_bytes (suc n) w = ap suc (length-get_bytes n (get_byte (arrive w)).1)

-- What a call has put into the array.
abbrev pub read_of : Option (List ℕ) → List ℕ
read_of none = []
read_of (some bs) = bs

get_bytes-Passes :
    (n : ℕ) (w : World)
    → n ≤ w.uart.rx_buf.pending_bytes
    → Passes w (get_bytes n w).1 (get_bytes n w).0
get_bytes-Passes n w few = record {
  clean = get_bytes-clean n w;
  listens = λ c l. (get_bytes-reads n w c l few).0;
  bytes = λ c l. (get_bytes-reads n w c l few).1;
}

copy_out-Passes :
    (data_len : ℕ) (e : Waited)
    → Passes (world_of e) (copy_out data_len e).1 (read_of (copy_out data_len e).0)
unfolding copy_out
copy_out-Passes data_len (timed_out w) = Passes-refl w
copy_out-Passes data_len (arrived w) =
    let w' = arrive w in
    let w'' = arrive w' in
    elim (Bool-cases (ltb w'.uart.rx_buf.pending_bytes data_len)) [
      | inl fewer ↦ rw fewer (
          Passes-trans (Passes-arrive w) (
            Passes-trans (Passes-arrive w')
              (get_bytes-Passes w''.uart.rx_buf.pending_bytes w'' (omega arith))))
      | inr enough ↦
          rw enough (Passes-trans (Passes-arrive w) (get_bytes-Passes data_len w' (ground arith)))
    ]

-- `UartGetData` returns -1 and reads nothing, or returns what came first.
pub uart_get_data-reads :
    (data_len timeout_ms : ℕ) (w : World) {r : Option (List ℕ)} {w' : World}
    → uart_get_data data_len timeout_ms w ≡ some (r, w')
    → Passes w w' (read_of r)
unfolding uart_get_data
uart_get_data-reads data_len timeout_ms w h =
    let s = arrive w in
    let (e, waited, ended) =
      bind-some (wait_byte timeout_ms s.time_since_start false s.upcoming s.uart s.time_since_start)
        _ h in
    let passed = Passes-trans (Passes-arrive w) (
      Passes-trans
        (wait_byte-Passes timeout_ms s.time_since_start false s.upcoming s.uart s.time_since_start e
          waited)
        (copy_out-Passes data_len e)) in
    subst (λ p. Passes w p.1 (read_of p.0)) (some-eq ended) passed
