-- ===== src/Serial/Fifo.antt =====
-- `SerialRecv` as a reader of a stream: which bytes it returns.
use smart_door_lock.Base.{
  ℕ, zero, suc, ◌-◌, ◌≡◌, ◌∙◌, sym, List, [], ◌∷◌, ◌++◌, append-nil, append_assoc, Option, none,
  some, length, ltb, leb, Bool-cases, inl, inr, subst,
}
use smart_door_lock.Clock.{sub32}
use smart_door_lock.Serial.{circular_buf_size}
use smart_door_lock.Serial.Driver.{World, arrive, at_most, uart_get_data}
use smart_door_lock.Serial.Recv.{take_in, recv_round, recv_rounds, serial_recv}
use smart_door_lock.Serial.Receive.{Listens, stream, IsClean}
use smart_door_lock.Serial.Stream.{Passes, Passes-refl, Passes-trans, Passes-arrive}
use smart_door_lock.Serial.Fetch.{bind-some, some-eq, read_of, uart_get_data-reads}

-- What the further rounds promise: from `w` on they add bytes that came first.
pub record Reads (read : List ℕ) (w : World) (result : List ℕ) (w' : World) : Type 0 where
  pub added : List ℕ
  pub whole : result ≡ read ++ added
  pub passes : Passes w w' added

Reads-nothing : (read : List ℕ) {w w' : World} → Passes w w' [] → Reads read w read w'
Reads-nothing read p = record { added = []; whole = sym (append-nil read); passes = p }

Reads-more :
    {read bs : List ℕ} {u v w : World} {result : List ℕ}
    → Passes u v bs
    → Reads (read ++ bs) v result w
    → Reads read u result w
Reads-more {read} {bs} p r = record {
  added = bs ++ r.added;
  whole = r.whole ∙ append_assoc read bs r.added;
  passes = Passes-trans p r.passes;
}

Reads-end :
    {read result : List ℕ} {u v w : World}
    → Passes u v []
    → ◌≡◌ {A = List ℕ × World} (read, v) (result, w)
    → Reads read u result w
Reads-end {read} {u} p e =
    subst (λ (q : List ℕ × World). Reads read u q.0 q.1) e (Reads-nothing read p)

abbrev Promise : (List ℕ → World → Option (List ℕ × World)) → Type 0
Promise rest =
    (read : List ℕ) (w : World) (result : List ℕ) (w' : World)
    → rest read w ≡ some (result, w')
    → Reads read w result w'

take_in-Reads :
    (rest : List ℕ → World → Option (List ℕ × World))
    → Promise rest
    → (read : List ℕ) (w : World) (r : Option (List ℕ)) (v : World) (result : List ℕ) (w' : World)
    → Passes w v (read_of r)
    → take_in rest read (r, v) ≡ some (result, w')
    → Reads read w result w'
unfolding take_in
take_in-Reads rest ih read w none v result w' p h = Reads-end p (some-eq h)
take_in-Reads rest ih read w (some []) v result w' p h = Reads-end p (some-eq h)
take_in-Reads rest ih read w (some (b ∷ bs)) v result w' p h =
    Reads-more p (ih (read ++ b ∷ bs) v result w' h)

recv_round-Reads :
    (rest : List ℕ → World → Option (List ℕ × World)) (max_len timeout_ms start : ℕ)
    → Promise rest
    → Promise (recv_round rest max_len timeout_ms start)
unfolding recv_round
recv_round-Reads rest max_len timeout_ms start ih read w result w' h =
    let v = arrive w in
    let interval = sub32 v.time_since_start start in
    elim (Bool-cases (ltb (length read) max_len)) [
      | inr full ↦ Reads-end (Passes-refl w) (some-eq (rw full at h))
      | inl room ↦ elim (Bool-cases (leb timeout_ms interval)) [
        | inl over ↦ Reads-end (Passes-arrive w) (some-eq (rw (room, over) at h))
        | inr time ↦
            let n = at_most (max_len - length read) circular_buf_size in
            let ((r, v'), got, taken) =
              bind-some (uart_get_data n (timeout_ms - interval) v) (take_in rest read)
                (rw (room, time) at h) in
            let p = uart_get_data-reads n (timeout_ms - interval) v got in
            take_in-Reads rest ih read w r v' result w' (Passes-trans (Passes-arrive w) p) taken
      ]
    ]

recv_rounds-Reads :
    (f max_len timeout_ms start : ℕ) → Promise (recv_rounds f max_len timeout_ms start)
unfolding recv_rounds
recv_rounds-Reads zero max_len timeout_ms start read w result w' h =
    Reads-end (Passes-refl w) (some-eq h)
recv_rounds-Reads (suc f) max_len timeout_ms start read w result w' h =
    recv_round-Reads (recv_rounds f max_len timeout_ms start) max_len timeout_ms start
      (recv_rounds-Reads f max_len timeout_ms start) read w result w' h

serial_recv-Reads :
    (max_len timeout_ms : ℕ) (w : World) {result : List ℕ} {w' : World}
    → serial_recv max_len timeout_ms w ≡ some (result, w')
    → Passes w w' result
unfolding serial_recv
serial_recv-Reads max_len timeout_ms w {result} {w'} h =
    let v = arrive w in
    let r = recv_rounds-Reads max_len max_len timeout_ms v.time_since_start [] v result w' h in
    subst (Passes w w') (sym r.whole) (Passes-trans (Passes-arrive w) r.passes)

-- Where `SerialRecv` returns with the receiver on before it, no overflow reported after it and no byte
-- come between the load and the store of a `pendingBytes--`, what it returns is the beginning of the
-- bytes that were pending or came while it ran, wherever else the interrupts come; the rest is there
-- to be read later, and the receiver is still on.
pub recv_in_order :
    (max_len timeout_ms : ℕ) (w : World) {result : List ℕ} {w' : World}
    → serial_recv max_len timeout_ms w ≡ some (result, w')
    → Listens w.uart
    → IsClean w'.uart
    → (stream w ≡ result ++ stream w') × Listens w'.uart
recv_in_order max_len timeout_ms w h l clean =
    let p = serial_recv-Reads max_len timeout_ms w h in (p.bytes clean l, p.listens clean l)
