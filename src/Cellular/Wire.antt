-- ===== src/Cellular/Wire.antt =====
-- What the steps of an exchange put on the line to the modem.
use smart_door_lock.Base.{
  ℕ, ◌≡◌, ◌≢◌, ◌≤◌, ◌⊎◌, inl, inr, length, ◌∙◌, refl, sym, List, [], ◌++◌, append-nil, Option, none,
  some, arith,
}
use smart_door_lock.Base.Bytes.{codes}
use smart_door_lock.SerialIo.{SerialIo, IsBounded}
use smart_door_lock.Exec.{Result, ok, err, fault}
use smart_door_lock.Exec.Says.{Says, Says-bind, Says-check, Says-of_eq}
use smart_door_lock.Cellular.{State, flush, send, recv, exchange, command_ok, has}

module _ (io : SerialIo) where
  -- The bytes sent so far.
  abbrev pub line : State io → List ℕ
  line s = io.wire s.dev

  pub Says-flush : Says line [] (flush io)
  unfolding flush
  Says-flush = record { at = λ s a h. io.wire-flush s.dev ∙ sym (append-nil _) }

  pub Says-send : (bs : List ℕ) → Says line bs (send io bs)
  unfolding send
  Says-send bs = record {
    at = λ s n h. io.wire-send bs s.dev n (sent_ok s n (io.serial_send bs s.dev).0 refl h);
  }
    where
      sent_ok :
          (s : State io) (n : ℕ) (r : Option ℕ)
          → (io.serial_send bs s.dev).0 ≡ r
          → (send io bs s).0 ≡ ok n
          → (io.serial_send bs s.dev).0 ≡ some n
      sent_ok s n none p h = cc
      sent_ok s n (some k) p h = ground arith

  pub Says-recv : (n t : ℕ) → Says line [] (recv io n t)
  unfolding recv
  Says-recv n t = record { at = λ s a h. io.wire-recv n t s.dev ∙ sym (append-nil _) }

  pub Says-exchange : (command : List ℕ) (n t : ℕ) → Says line command (exchange io command n t)
  unfolding exchange
  Says-exchange command n t = Says-of_eq line _ (append-nil command) (
      Says-bind line [] (command ++ []) (flush io) _ Says-flush (λ _.
        Says-bind line command [] (send io command) _ (Says-send command) (λ _. Says-recv n t)))

  pub Says-command_ok : (command : List ℕ) (n t : ℕ) → Says line command (command_ok io command n t)
  unfolding command_ok
  Says-command_ok command n t = Says-of_eq line _ (append-nil command) (
      Says-bind line command [] (exchange io command n t) _ (Says-exchange command n t)
        (λ reply. Says-check line (has reply (codes "OK"))))

  exchange-ne-fault :
      (command : List ℕ) (n t : ℕ) (s : State io) → (exchange io command n t s).0 ≢ fault
  unfolding exchange flush send recv
  exchange-ne-fault command n t s = ground arith

  pub recv-length_le :
      IsBounded io
      → (n t : ℕ) (s : State io) (bs : List ℕ) → (recv io n t s).0 ≡ ok bs
      → length bs ≤ n
  unfolding recv
  recv-length_le b n t s bs h = by_result (io.serial_recv n t s.dev).0 refl
    where
      by_result : (r : Option (List ℕ)) → (io.serial_recv n t s.dev).0 ≡ r → length bs ≤ n
      by_result none p = absurd (ground arith)
      by_result (some cs) p = b.recv-length n t s.dev bs (ground arith)

  pub exchange-length :
      IsBounded io
      → (command : List ℕ) (n t : ℕ) (s : State io) (bs : List ℕ)
      → (exchange io command n t s).0 ≡ ok bs
      → length bs ≤ n
  unfolding exchange flush
  exchange-length b command n t s bs h =
      by_result (send io command (flush io s).1).0 (send io command (flush io s).1).1 refl refl
    where
      by_result :
          (r : Result ℕ) (s' : State io)
          → (send io command (flush io s).1).0 ≡ r
          → (send io command (flush io s).1).1 ≡ s'
          → length bs ≤ n
      by_result (ok k) s' p q = recv-length_le b n t s' bs (ground arith)
      by_result err s' p q = absurd (ground arith)
      by_result fault s' p q = absurd (ground arith)

  -- An exchange returns -1, or a reply that is not longer than was asked for.
  exchange-cases :
      IsBounded io
      → (command : List ℕ) (n t : ℕ) (s : State io)
      → ((exchange io command n t s).0 ≡ err)
        ⊎ ((bs : List ℕ) × ((exchange io command n t s).0 ≡ ok bs) × (length bs ≤ n))
  exchange-cases b command n t s = by_result (exchange io command n t s).0 refl
    where
      by_result :
          (r : Result (List ℕ))
          → (exchange io command n t s).0 ≡ r
          → ((exchange io command n t s).0 ≡ err)
            ⊎ ((bs : List ℕ) × ((exchange io command n t s).0 ≡ ok bs) × (length bs ≤ n))
      by_result err p = inl p
      by_result (ok bs) p = inr (bs, p, exchange-length b command n t s bs p)
      by_result fault p = absurd (exchange-ne-fault command n t s p)

  -- It leaves the flag alone.
  pub transparent_mode-exchange :
      (command : List ℕ) (n t : ℕ) (s : State io)
      → (exchange io command n t s).1.transparent_mode ≡ s.transparent_mode
  unfolding exchange flush send recv
  transparent_mode-exchange command n t s = ground arith
