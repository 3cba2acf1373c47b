-- ===== src/Scan/Publish.antt =====
-- `send_device`: what it publishes, what it keeps, and how far the table prevents duplicates.
use smart_door_lock.Base.{
  ℕ, ◌+◌, ◌≡◌, ◌≢◌, refl, sym, ◌∙◌, inl, inr, List, [], ◌∷◌, ◌++◌, true, false, Option, none, some,
  arith, Bool-cases, append-nil, append_assoc,
}
use smart_door_lock.Scan.{
  BtDevice, BtDeviceLst, zero_device, is_due, format_addr, SentLst, sent_index, store, Sending,
  send_one, send_from, send_device,
}

-- What the loop may do to the entries, in order, with the messages that it publishes: an entry stays
-- as it is, or one that holds a device is published and cleared.
pub data Sends : List BtDevice → List BtDevice → List (List ℕ) → Type 0 where
  done : Sends [] [] []
  keep :
      (d : BtDevice) {ds ps : List BtDevice} {ms : List (List ℕ)}
      → Sends ds ps ms
      → Sends (d ∷ ds) (d ∷ ps) ms
  publish :
      (d : BtDevice) {ds ps : List BtDevice} {ms : List (List ℕ)}
      → d.timestamp ≢ 0
      → Sends ds ps ms
      → Sends (d ∷ ds) (zero_device ∷ ps) (format_addr d.addr ∷ ms)

due-timestamp :
    (now : ℕ) (last : Option ℕ) (sent : SentLst) (d : BtDevice)
    → is_due now last sent d ≡ true
    → d.timestamp ≢ 0
unfolding is_due
due-timestamp now last sent d h e = absurd (ground arith)

-- One round on an entry that is due, and on one that is not.
pub send_one-due :
    (now : ℕ) (d : BtDevice) (s : Sending)
    → is_due now s.last_index s.sent_lst d ≡ true
    → send_one now d s ≡ record {
      passed = s.passed ++ (zero_device ∷ []);
      last_index = some (sent_index d.addr);
      sent_lst = store s.sent_lst (sent_index d.addr) d;
      published = s.published ++ (format_addr d.addr ∷ []);
    }
unfolding send_one
send_one-due now d s h = rw h

pub send_one-not_due :
    (now : ℕ) (d : BtDevice) (s : Sending)
    → is_due now s.last_index s.sent_lst d ≡ false
    → send_one now d s ≡ record s { passed = s.passed ++ (d ∷ []) }
unfolding send_one
send_one-not_due now d s h = rw h

abbrev pub Outcome : List BtDevice → Sending → Sending → Type 0
Outcome ds s r =
    (ps : List BtDevice) × (ms : List (List ℕ)) × Sends ds ps ms
    × (r.passed ≡ s.passed ++ ps)
    × (r.published ≡ s.published ++ ms)

pub send_from-Sends :
    (cur_time : ℕ → ℕ) (j : ℕ) (ds : List BtDevice) (s : Sending)
    → Outcome ds s (send_from cur_time j ds s)
unfolding send_from
send_from-Sends cur_time j [] s = ([], [], done, sym (append-nil _), sym (append-nil _))
send_from-Sends cur_time j (d ∷ ds) s =
    elim (Bool-cases (is_due (cur_time j) s.last_index s.sent_lst d)) [
      | inl e ↦
          rw (send_from, send_one-due (cur_time j) d s e)
            (let (ps, ms, sends, p, q) = send_from-Sends cur_time (j + 1) ds (record {
              passed = s.passed ++ (zero_device ∷ []);
              last_index = some (sent_index d.addr);
              sent_lst = store s.sent_lst (sent_index d.addr) d;
              published = s.published ++ (format_addr d.addr ∷ []);
            }) in
              (
                zero_device ∷ ps,
                format_addr d.addr ∷ ms,
                publish d (due-timestamp _ _ _ d e) sends,
                p ∙ append_assoc s.passed (zero_device ∷ []) ps,
                q ∙ append_assoc s.published (format_addr d.addr ∷ []) ms,
              ))
      | inr e ↦
          rw (send_from, send_one-not_due (cur_time j) d s e)
            (let (ps, ms, sends, p, q) =
                send_from-Sends cur_time (j + 1) ds (record s { passed = s.passed ++ (d ∷ []) }) in
              (d ∷ ps, ms, keep d sends, p ∙ append_assoc s.passed (d ∷ []) ps, q))
    ]

-- `send_device` takes the entries in order; each stays in its place, or it holds a device whose
-- address is published then and the entry is cleared. So no device is dropped without a message,
-- and no message is published for an entry that holds no device.
pub send_device-Sends :
    (cur_time : ℕ → ℕ) (l : BtDeviceLst) (sent : SentLst)
    → let (l', sent', published) = send_device cur_time l sent in
      Sends l.device_lst l'.device_lst published × (l'.i ≡ l.i)
unfolding send_device
send_device-Sends cur_time l sent =
    let (ps, ms, sends, p, q) =
      send_from-Sends cur_time 0 l.device_lst
        (record { passed = []; last_index = none; sent_lst = sent; published = [] }) in
    (rw (p, q) sends, refl)
