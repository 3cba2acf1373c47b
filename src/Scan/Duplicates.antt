-- ===== src/Scan/Duplicates.antt =====
-- How far the table `sent_lst` keeps `send_device` from publishing a device twice.
use smart_door_lock.Base.{
  ℕ, ◌+◌, ◌<◌, ◌≡◌, ◌≢◌, ap, ◌∙◌, inl, inr, List, [], ◌∷◌, ◌++◌, true, Option, none, some, arith,
  All, Bool-cases,
}
use smart_door_lock.Clock.{sub32}
use smart_door_lock.Scan.{
  Addr, BtDevice, BtDeviceLst, zero_device, bt_device_lifetime, same_addr, is_available, is_due,
  format_addr, SentLst, sent_index, store, Sending, send_one, send_from, send_device,
}
use smart_door_lock.Scan.Record.{same_addr→eq, false-is_available}
use smart_door_lock.Scan.Address.{IsBytes, format-injective}
use smart_door_lock.Scan.Publish.{send_one-due, send_one-not_due, send_from-Sends}

All-append_one :
    (P : List ℕ → Type 0) (xs : List (List ℕ)) (x : List ℕ)
    → All P xs
    → P x
    → All P (xs ++ (x ∷ []))
All-append_one P [] x h p = (p, tt)
All-append_one P (y ∷ ys) x h p = (h.0, All-append_one P ys x h.1 p)

-- A due entry is available in the table's slot.
due-is_available :
    (now : ℕ) (last : Option ℕ) (sent : SentLst) (d : BtDevice)
    → is_due now last sent d ≡ true
    → is_available now (sent (sent_index d.addr)) d.addr ≡ true
unfolding is_due
due-is_available now last sent d h = ground arith

-- The entry is of bytes, and if it falls in the slot of `a` it is `a`.
abbrev pub NoClash : Addr → BtDevice → Type 0
NoClash a d = IsBytes d.addr × (sent_index d.addr ≡ sent_index a → d.addr ≡ a)

-- The slot of `a` still has its entry, and `a` has not been published.
record IsQuiet (a : Addr) (held : BtDevice) (s : Sending) : Type 0 where
  slot : s.sent_lst (sent_index a) ≡ held
  silent : All (λ m. m ≢ format_addr a) s.published

module _ (a : Addr) (held : BtDevice) (held_addr : held.addr ≡ a) (a-IsBytes : IsBytes a) where
  not_due :
      (now : ℕ) (s : Sending) (d : BtDevice)
      → IsQuiet a held s
      → sub32 now held.timestamp < bt_device_lifetime
      → NoClash a d
      → is_due now s.last_index s.sent_lst d ≡ true
      → sent_index d.addr ≢ sent_index a
  not_due now s d q young c due e =
      let same = c.1 e in
      let free = due-is_available now s.last_index s.sent_lst d due in
      let taken = false-is_available now held a held_addr young in
      let free' = rw (e, q.slot, same) at free in cc

  store-ne : (sent : SentLst) (i k : ℕ) (d : BtDevice) → i ≢ k → store sent i d k ≡ sent k
  store-ne sent i k d ne = ground arith

  send_one-IsQuiet :
      (now : ℕ) (s : Sending) (d : BtDevice)
      → IsQuiet a held s
      → sub32 now held.timestamp < bt_device_lifetime
      → NoClash a d
      → IsQuiet a held (send_one now d s)
  send_one-IsQuiet now s d q young c = elim (Bool-cases (is_due now s.last_index s.sent_lst d)) [
    | inl e ↦
        let ne = not_due now s d q young c e in
        rw (send_one-due now d s e) (record {
          slot = store-ne s.sent_lst (sent_index d.addr) (sent_index a) d ne ∙ q.slot;
          silent =
              All-append_one (λ m. m ≢ format_addr a) s.published (format_addr d.addr) q.silent
                (λ p. ne (ap sent_index (format-injective d.addr a c.0 a-IsBytes p)));
        })
    | inr e ↦ rw (send_one-not_due now d s e) (record { slot = q.slot; silent = q.silent })
  ]

  send_from-IsQuiet :
      (cur_time : ℕ → ℕ) (j : ℕ) (ds : List BtDevice) (s : Sending)
      → IsQuiet a held s
      → ((k : ℕ) → sub32 (cur_time k) held.timestamp < bt_device_lifetime)
      → All (NoClash a) ds
      → IsQuiet a held (send_from cur_time j ds s)
  unfolding send_from
  send_from-IsQuiet cur_time j [] s q young c = q
  send_from-IsQuiet cur_time j (d ∷ ds) s q young c =
      send_from-IsQuiet cur_time (j + 1) ds (send_one (cur_time j) d s)
        (send_one-IsQuiet (cur_time j) s d q (young j) c.0) young c.1

-- An address whose slot of the table holds it, from less than 34000 ms before every reading of the
-- clock, is not published again, and the slot keeps its entry, if no other address of the list falls
-- in the same slot.
pub recent_not_published :
    (cur_time : ℕ → ℕ) (a : Addr) (held : BtDevice) (l : BtDeviceLst) (sent : SentLst)
    → sent (sent_index a) ≡ held
    → held.addr ≡ a
    → IsBytes a
    → ((k : ℕ) → sub32 (cur_time k) held.timestamp < bt_device_lifetime)
    → All (NoClash a) l.device_lst
    → let (l', sent', published) = send_device cur_time l sent in
      All (λ m. m ≢ format_addr a) published × (sent' (sent_index a) ≡ held)
unfolding send_device send_from
recent_not_published cur_time a held l sent slot ha va young c =
    let q =
      send_from-IsQuiet a held ha va cur_time 0 l.device_lst
        (record { passed = []; last_index = none; sent_lst = sent; published = [] })
        (record { slot = slot; silent = tt }) young c in
    (q.silent, q.slot)

is_available-other : (now : ℕ) (d : BtDevice) (a : Addr) → d.addr ≢ a → is_available now d a ≡ true
unfolding is_available
is_available-other now d a ne = elim (Bool-cases (same_addr d.addr a)) [
  | inl e ↦ absurd (ne (same_addr→eq d.addr a e))
  | inr e ↦ rw e
]

evicted-is_due :
    (now : ℕ) (sent : SentLst) (d : BtDevice)
    → d.timestamp ≢ 0
    → (sent (sent_index d.addr)).addr ≢ d.addr
    → is_due now none sent d ≡ true
unfolding is_due
evicted-is_due now sent d nz ne =
    ground (arith, is_available-other now (sent (sent_index d.addr)) d.addr ne)

-- The table remembers one address in each slot: where the slot of a list's first device holds
-- another address, that device is published, however short a time ago it was published before.
pub evicted_is_published :
    (cur_time : ℕ → ℕ) (d : BtDevice) (l : BtDeviceLst) (ds : List BtDevice) (sent : SentLst)
    → l.device_lst ≡ d ∷ ds
    → d.timestamp ≢ 0
    → (sent (sent_index d.addr)).addr ≢ d.addr
    → (ms : List (List ℕ)) × ((send_device cur_time l sent).2 ≡ format_addr d.addr ∷ ms)
unfolding send_device send_from
evicted_is_published cur_time d l ds sent first nz ne =
    let start : Sending = record {
      passed = [];
      last_index = none;
      sent_lst = sent;
      published = [];
    } in
    let one = send_one-due (cur_time 0) d start (evicted-is_due (cur_time 0) sent d nz ne) in
    let (ps, ms, sends, p, q) = send_from-Sends cur_time (0 + 1) ds (record {
      passed = zero_device ∷ [];
      last_index = some (sent_index d.addr);
      sent_lst = store sent (sent_index d.addr) d;
      published = format_addr d.addr ∷ [];
    }) in
    (ms, rw (first, send_from, one) q)
