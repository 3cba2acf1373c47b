-- ===== src/Cellular/Connection/Mode.antt =====
-- The flag `transparentMode`, and what opening and closing a connection send.
use smart_door_lock.Base.{
  ℕ, zero, suc, ◌≤◌, ◌<◌, ◌≡◌, ◌⊎◌, inr, refl, sym, ap, List, [], ◌∷◌, ◌++◌, append-nil, Bool, true,
  false, ◌||◌, arith, length, drop, replicate, if◌then◌else◌,
}
use smart_door_lock.Base.Bytes.{buffer, codes, c_string, contains}
use smart_door_lock.SerialIo.{SerialIo, IsBounded}
use smart_door_lock.Exec.{ok, err, check, ◌>>=◌}
use smart_door_lock.Exec.Says.{
  Says, Gives, Gives-pure, Gives-bind, bind-ok, check-ok, Says-bind, Says-check, Says-pure,
  Says-of_eq,
}
use smart_door_lock.Cellular.{State, exchange, has, set_transparent, send, recv}
use smart_door_lock.Cellular.Text.{stop_transparent, siso_comm, sist_comm, sisc_comm, short_time}
use smart_door_lock.Cellular.Wire.{
  line, Says-exchange, Says-send, Says-recv, exchange-length, transparent_mode-exchange,
}
use smart_door_lock.Cellular.Connection.{
  clear_10, overwrite, cellular_connect, leave_transparent, transparent, cellular_close,
}

c_string-zeros :
    (bs old : List ℕ) (n : ℕ)
    → length bs < n
    → c_string (bs ++ drop (length bs) (replicate n 0 ++ old)) ≡ c_string bs
c_string-zeros [] old zero h = absurd (omega arith)
c_string-zeros [] old (suc n) h = refl
c_string-zeros (b ∷ bs) old zero h = absurd (omega arith)
c_string-zeros (b ∷ bs) old (suc n) h = rw (c_string-zeros bs old n (omega arith))

-- Zeros behind a short reply: nothing that the first part of `CellularClose` left in the array can be
-- taken for a reply to the second.
c_string-overwrite :
    (reply old : List ℕ)
    → length reply ≤ 9
    → c_string (overwrite reply (clear_10 old)) ≡ c_string reply
c_string-overwrite reply old h = c_string-zeros reply (drop 10 old) 10 (omega arith)

module _ (io : SerialIo) where
  Says-set_transparent : (b : Bool) → Says (line io) [] (set_transparent io b)
  unfolding set_transparent
  Says-set_transparent b = record { at = λ s a h. sym (append-nil _) }

  -- `CellularConnect` sets the flag exactly where it returns 0, and a -1 leaves it as it was.
  connect-transparent_mode :
      (s : State io)
      → (((cellular_connect io s).0 ≡ ok tt) × ((cellular_connect io s).1.transparent_mode ≡ true))
        ⊎ (((cellular_connect io s).0 ≡ err)
            × ((cellular_connect io s).1.transparent_mode ≡ s.transparent_mode))
  unfolding cellular_connect exchange send recv set_transparent
  connect-transparent_mode s = ground arith

  Says-connect : Says (line io) (siso_comm ++ sist_comm) (cellular_connect io)
  unfolding cellular_connect
  Says-connect = Says-of_eq (line io) _ (ap (λ l. siso_comm ++ l) (append-nil sist_comm)) (
      Says-bind (line io) siso_comm (sist_comm ++ []) _ _ (Says-exchange io siso_comm 18 short_time)
        (λ opened. Says-bind (line io) [] (sist_comm ++ []) _ _ (Says-check (line io) _) (λ _.
          Says-bind (line io) sist_comm [] _ _ (Says-exchange io sist_comm 18 short_time)
            (λ started.
              Says-bind (line io) [] [] _ _ (Says-check (line io) _)
                (λ _. Says-set_transparent true)))))

  -- Where `CellularConnect` returns 0 it has sent `AT^SISO=0` and then `AT^SIST=0`.
  connect_says :
      (s : State io)
      → (cellular_connect io s).0 ≡ ok tt
      → line io (cellular_connect io s).1 ≡ line io s ++ (siso_comm ++ sist_comm)
  connect_says s h = Says-connect.at s tt h

  Says-leave_transparent :
      (mode : Bool)
      → Says (line io) (if mode then stop_transparent else []) (leave_transparent io mode)
  unfolding leave_transparent
  Says-leave_transparent false = Says-pure (line io) (replicate 20 0)
  Says-leave_transparent true =
      Says-bind (line io) stop_transparent [] _ _ (Says-send io stop_transparent) (λ _.
        Says-bind (line io) [] [] _ _ (Says-recv io 15 short_time) (λ reply.
          Says-bind (line io) [] [] _ _ (Says-check (line io) _) (λ _.
            Says-bind (line io) [] [] _ _ (Says-set_transparent false)
              (λ _. Says-pure (line io) (clear_10 (buffer 20 reply))))))

  Says-close :
      (mode : Bool)
      → Says (line io) ((if mode then stop_transparent else []) ++ sisc_comm) (
          leave_transparent io mode >>= λ buf. exchange io sisc_comm 9 short_time >>= λ reply.
          check (contains (c_string (overwrite reply buf)) (codes "OK")))
  Says-close mode =
      Says-bind (line io) (if mode then stop_transparent else []) sisc_comm _ _
        (Says-leave_transparent mode)
        (λ buf. Says-of_eq (line io) _ (append-nil sisc_comm) (
          Says-bind (line io) sisc_comm [] _ _ (Says-exchange io sisc_comm 9 short_time)
            (λ reply. Says-check (line io) _)))

  transparent_mode-leave :
      (mode : Bool) (s : State io)
      → s.transparent_mode ≡ mode
      → (((leave_transparent io mode s).0 ≡ err)
          × ((leave_transparent io mode s).1.transparent_mode ≡ mode))
        ⊎ ((leave_transparent io mode s).1.transparent_mode ≡ false)
  unfolding leave_transparent send recv set_transparent
  transparent_mode-leave false s e = inr e
  transparent_mode-leave true s e = ground arith

  -- `CellularClose` leaves the line in command mode where it returns 0; where it returns -1 the flag is
  -- as it was before, or cleared.
  close-transparent_mode :
      (s : State io)
      → (((cellular_close io s).1.transparent_mode ≡ false)
          ⊎ (((cellular_close io s).0 ≡ err)
              × ((cellular_close io s).1.transparent_mode ≡ s.transparent_mode)))
  unfolding cellular_close transparent
  close-transparent_mode s = ground (
    arith,
    transparent_mode-leave s.transparent_mode s refl,
    transparent_mode-exchange io sisc_comm 9 short_time
        (leave_transparent io s.transparent_mode s).1,
  )

  -- Where `CellularClose` returns 0 it has sent `+++` if the line was in transparent mode, and then
  -- `AT^SISC=0`, and nothing else.
  pub close_says :
      (s : State io)
      → (cellular_close io s).0 ≡ ok tt
      → line io (cellular_close io s).1
        ≡ line io s ++ ((if s.transparent_mode then stop_transparent else []) ++ sisc_comm)
  unfolding cellular_close transparent
  close_says s h = (Says-close s.transparent_mode).at s tt h

  -- In what the first part leaves, a short reply reads as itself.
  abbrev IsCleared : List ℕ → Type 0
  IsCleared buf =
      (reply : List ℕ) → length reply ≤ 9 → c_string (overwrite reply buf) ≡ c_string reply

  leave-IsCleared : (mode : Bool) → Gives IsCleared (leave_transparent io mode)
  unfolding leave_transparent
  leave-IsCleared false =
      Gives-pure (replicate 20 0) (λ reply le. c_string-overwrite reply (replicate 20 0) le)
  leave-IsCleared true = Gives-bind (send io stop_transparent) _ (λ _.
      Gives-bind (recv io 15 short_time) _ (λ reply.
        Gives-bind (check (has reply (codes "OK") || has reply (codes "NO CARRIER"))) _ (λ _.
          Gives-bind (set_transparent io false) _ (λ _.
            Gives-pure (clear_10 (buffer 20 reply))
              (λ reply' le. c_string-overwrite reply' (buffer 20 reply) le)))))

  -- The second part of `CellularClose` succeeds on what it receives itself: the array's older bytes
  -- do not count, over a port that returns no more than was asked for.
  close_reads_own_reply :
      IsBounded io
      → (s : State io) → (cellular_close io s).0 ≡ ok tt
      → let s' = (leave_transparent io s.transparent_mode s).1 in
        (reply : List ℕ) × ((exchange io sisc_comm 9 short_time s').0 ≡ ok reply)
        × (has reply (codes "OK") ≡ true)
  unfolding cellular_close transparent
  close_reads_own_reply b s h =
      let (buf, left, rest) = bind-ok (leave_transparent io s.transparent_mode) _ s tt h in
      let s' = (leave_transparent io s.transparent_mode s).1 in
      let (reply, got, checked) = bind-ok (exchange io sisc_comm 9 short_time) _ s' tt rest in
      let found = check-ok (contains (c_string (overwrite reply buf)) (codes "OK")) _ checked in
      let clean =
        (leave-IsCleared s.transparent_mode).at s buf left reply
          (exchange-length io b sisc_comm 9 short_time s' reply got) in
      (reply, got, rw clean at found)
