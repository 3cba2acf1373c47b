-- ===== src/Session/Near.antt =====
-- From a scan report to the broker: what a round of the main loop does with a device that is near.
use smart_door_lock.Base.{ℕ, ◌≡◌, ◌≢◌, ap, refl, List, [], ◌∷◌, ◌++◌, true, none, All}
use smart_door_lock.Door.{is_closed}
use smart_door_lock.Scan.{
  Addr, BtDeviceLst, scan_report, min_rssi, sl_bt_on_event, add_bt_device, bt_lst_size,
  is_available, sent_index, format_addr, send_device,
}
use smart_door_lock.Scan.Record.{IsValid, event-IsValid}
use smart_door_lock.Scan.Found.{SparesSlot, accepted_is_published}
use smart_door_lock.Base.Int.{ℤ, ltb_ℤ}
use smart_door_lock.Session.{
  TimedEvent, Library, AppState, bt_steps, publish_all, scan_and_send, read_msg, ignoring,
  run_app_round, bt_scan,
}

module _ (lib : Library) where
  bt_steps-append :
      (es es' : List TimedEvent) (l : BtDeviceLst)
      → bt_steps lib (es ++ es') l ≡ bt_steps lib es' (bt_steps lib es l)
  unfolding bt_steps
  bt_steps-append [] es' l = refl
  bt_steps-append ((cur_time, e) ∷ es) es' l = bt_steps-append es es' (sl_bt_on_event cur_time e l)

  bt_steps-IsValid :
      (es : List TimedEvent) (l : BtDeviceLst) → IsValid l → IsValid (bt_steps lib es l)
  unfolding bt_steps
  bt_steps-IsValid [] l v = v
  bt_steps-IsValid ((cur_time, e) ∷ es) l v = bt_steps-IsValid es _ (event-IsValid cur_time e l v)

  -- A round with a closed door and a valid list whose last scan event is a report of an address with
  -- an `rssi` above -50 publishes that address, among the messages of the round, on the client as it
  -- was before, if the list did not hold the address from less than 34000 ms before, the reading of
  -- the clock for its entry is not 0, its slot of `sent_lst` is free for it when `send_device` comes
  -- to the entry, and no device of the list falls in the same slot. The clock may advance between
  -- the events, within one, and before and in `send_device`.
  pub near_device_published :
      (send_time cur_time : ℕ → ℕ) (rssi : ℤ) (es : List TimedEvent) (a : Addr) (s : AppState lib)
      → is_closed s.dr_iot.stat ≡ true
      → ltb_ℤ min_rssi rssi ≡ true
      → IsValid s.bt_lst
      → let l = bt_steps lib es s.bt_lst in
        (add_bt_device cur_time a l).0 ≢ none
        → cur_time bt_lst_size ≢ 0
        → is_available (send_time l.i) (s.sent_lst (sent_index a)) a ≡ true
        → All (SparesSlot (sent_index a)) l.device_lst
        → (front back : List (List ℕ)) × (b : AppState lib) × (b.client ≡ s.client)
          × (run_app_round lib send_time (es ++ (cur_time, scan_report rssi a) ∷ []) s
              ≡ ignoring lib (read_msg lib) (publish_all lib (front ++ format_addr a ∷ back) b))
  unfolding run_app_round scan_and_send bt_steps sl_bt_on_event
  near_device_published send_time cur_time rssi es a s shut strong v accepted holds free spares =
      let l = bt_steps lib es s.bt_lst in
      let (front, back, e) =
        accepted_is_published cur_time send_time a l s.sent_lst (bt_steps-IsValid es s.bt_lst v)
          accepted holds free spares in
      let (l', sent', ms) = send_device send_time (add_bt_device cur_time a l).1 s.sent_lst in
      let b : AppState lib = record s { bt_lst = l'; sent_lst = sent' } in
      (
        front,
        back,
        b,
        refl,
        rw (shut, bt_steps-append es ((cur_time, scan_report rssi a) ∷ []) s.bt_lst, strong)
            (ap (λ m. ignoring lib (read_msg lib) (publish_all lib m b)) e),
      )

  -- A round is a scan, with the events of ten steps, and then a read.
  round-bt_scan :
      (send_time : ℕ → ℕ) (es : List TimedEvent) (s : AppState lib)
      → run_app_round lib send_time es s ≡ ignoring lib (read_msg lib) (bt_scan lib send_time es s)
  unfolding run_app_round bt_scan
  round-bt_scan send_time es s = refl
