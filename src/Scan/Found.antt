-- ===== src/Scan/Found.antt =====
-- That `send_device` publishes a device which the scanner has just reported.
use smart_door_lock.Base.{
  ℕ, zero, suc, ◌+◌, ◌<◌, ◌≡◌, ◌≢◌, ◌∙◌, refl, sym, ap, inl, inr, List, [], ◌∷◌, ◌++◌, true, Option,
  none, length, take, drop, set, arith, All, Bool-cases, append_assoc, length-take,
}
use smart_door_lock.Scan.{
  Addr, BtDevice, BtDeviceLst, bt_lst_size, is_available, is_due, differs, format_addr, SentLst,
  sent_index, Sending, send_one, send_from, send_device, add_bt_device, is_recorded,
}
use smart_door_lock.Scan.Record.{IsValid}
use smart_door_lock.Scan.Publish.{send_one-due, send_one-not_due, send_from-Sends}

-- An entry that holds a device does not fall in the slot.
abbrev pub SparesSlot : ℕ → BtDevice → Type 0
SparesSlot slot x = x.timestamp ≢ 0 → sent_index x.addr ≢ slot

-- The loop has not touched the slot yet.
record IsOpen (slot : ℕ) (sent : SentLst) (s : Sending) : Type 0 where
  same : s.sent_lst slot ≡ sent slot
  other_last : differs slot s.last_index ≡ true

due-timestamp :
    (now : ℕ) (last : Option ℕ) (sent : SentLst) (d : BtDevice)
    → is_due now last sent d ≡ true
    → d.timestamp ≢ 0
unfolding is_due
due-timestamp now last sent d h e = absurd (ground arith)

send_one-IsOpen :
    (now slot : ℕ) (sent : SentLst) (x : BtDevice) (s : Sending)
    → SparesSlot slot x
    → IsOpen slot sent s
    → IsOpen slot sent (send_one now x s)
send_one-IsOpen now slot sent x s spares o =
    elim (Bool-cases (is_due now s.last_index s.sent_lst x)) [
      | inl e ↦
          let ne = spares (due-timestamp now s.last_index s.sent_lst x e) in
          rw (send_one-due now x s e)
            (record { same = ground (arith, ne, o.same); other_last = ground (arith, ne) })
      | inr e ↦
          rw (send_one-not_due now x s e) (record { same = o.same; other_last = o.other_last })
    ]

-- The loop over entries that spare the slot, and then an entry that falls in it.
module _ (d : BtDevice) (after : List BtDevice) (sent : SentLst) (cur_time : ℕ → ℕ)
    (holds : d.timestamp ≢ 0) where
  abbrev slot : ℕ
  slot = sent_index d.addr

  IsOpen-is_due :
      (now : ℕ) (s : Sending)
      → IsOpen slot sent s
      → is_available now (sent slot) d.addr ≡ true
      → is_due now s.last_index s.sent_lst d ≡ true
  unfolding is_due
  IsOpen-is_due now s o free = rw (o.same, free, o.other_last) (ground (arith, holds))

  send_from-found :
      (j : ℕ) (before : List BtDevice) (s : Sending)
      → All (SparesSlot slot) before
      → IsOpen slot sent s
      → is_available (cur_time (j + length before)) (sent slot) d.addr ≡ true
      → (front back : List (List ℕ)) × ((send_from cur_time j (before ++ d ∷ after) s).published
          ≡ front ++ format_addr d.addr ∷ back)
  unfolding send_from
  send_from-found j [] s spares o free =
      let here : is_available (cur_time j) (sent slot) d.addr ≡ true =
        ap (λ n. is_available (cur_time n) (sent slot) d.addr) (omega arith) ∙ free in
      let due = send_one-due (cur_time j) d s (IsOpen-is_due (cur_time j) s o here) in
      let s' = send_one (cur_time j) d s in
      let (ps, ms, sends, p, q) = send_from-Sends cur_time (j + 1) after s' in
      (
        s.published,
        ms,
        q
            ∙ ap (λ (t : Sending). t.published ++ ms) due
            ∙ append_assoc s.published (format_addr d.addr ∷ []) ms,
      )
  send_from-found j (x ∷ before) s spares o free =
      send_from-found (j + 1) before (send_one (cur_time j) x s) spares.1
        (send_one-IsOpen (cur_time j) slot sent x s spares.0 o)
        (ap (λ n. is_available (cur_time n) (sent slot) d.addr) (omega arith) ∙ free)

set-parts :
    (ds : List BtDevice) (i : ℕ) (x : BtDevice)
    → i < length ds
    → set ds i x ≡ take i ds ++ x ∷ drop (suc i) ds
set-parts [] i x h = absurd (omega arith)
set-parts (d ∷ ds) zero x h = refl
set-parts (d ∷ ds) (suc i) x h = ap (λ l. d ∷ l) (set-parts ds i x (omega arith))

All-take : (P : BtDevice → Type 0) (n : ℕ) (ds : List BtDevice) → All P ds → All P (take n ds)
All-take P zero ds h = tt
All-take P (suc n) [] h = tt
All-take P (suc n) (d ∷ ds) h = (h.0, All-take P n ds h.1)

-- A device that `add_bt_device` takes into a valid list, with the readings `cur_time`, is published by
-- the next `send_device`, with the readings `send_time`, if the reading of the clock for its entry is not 0, the slot of `sent_lst` is free for it, and no device
-- of the list falls in the same slot.
pub accepted_is_published :
    (cur_time send_time : ℕ → ℕ) (a : Addr) (l : BtDeviceLst) (sent : SentLst)
    → IsValid l
    → (add_bt_device cur_time a l).0 ≢ none
    → cur_time bt_lst_size ≢ 0
    → is_available (send_time l.i) (sent (sent_index a)) a ≡ true
    → All (SparesSlot (sent_index a)) l.device_lst
    → (front back : List (List ℕ)) × ((send_device send_time (add_bt_device cur_time a l).1 sent).2
        ≡ front ++ format_addr a ∷ back)
unfolding send_device add_bt_device
accepted_is_published cur_time send_time a l sent v accepted holds free spares =
    let d : BtDevice = record { timestamp = cur_time bt_lst_size; addr = a } in
    let within : l.i < length l.device_lst = omega (arith, v.size, v.cursor) in
    let place : l.i ≡ 0 + length (take l.i l.device_lst) =
      omega (arith, length-take l.i l.device_lst) in
    let (front, back, e) =
      send_from-found d (drop (suc l.i) l.device_lst) sent send_time holds 0 (take l.i l.device_lst)
        (record { passed = []; last_index = none; sent_lst = sent; published = [] })
        (All-take (SparesSlot (sent_index a)) l.i l.device_lst spares)
        (record { same = refl; other_last = refl })
        (ap (λ n. is_available (send_time n) (sent (sent_index a)) a) (sym place) ∙ free) in
    elim (Bool-cases (is_recorded cur_time 0 l.device_lst a)) [
      | inl known ↦ absurd (accepted (rw known))
      | inr new ↦ rw (new, set-parts l.device_lst l.i d within) (front, back, e)
    ]
