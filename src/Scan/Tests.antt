-- ===== src/Scan/Tests.antt =====
-- A scan that reports and publishes devices, and the theorems at inputs that meet their hypotheses.
use smart_door_lock.Base.{ℕ, ◌≡◌, ◌≢◌, ◌↔◌, refl, ap, List, [], ◌∷◌, none, some, arith, All, length}
use smart_door_lock.Base.Bytes.{codes}
use smart_door_lock.Scan.{
  Addr, BtDevice, BtDeviceLst, zero_device, empty_lst, is_available, is_recorded, same_addr,
  add_bt_device, format_addr, SentLst, sent_index, send_one, is_due, send_from, send_device,
}
use smart_door_lock.Scan.Record.{IsFresh, IsValid, add-refused_iff}
use smart_door_lock.Scan.Publish.{Sends, send_device-Sends}
use smart_door_lock.Scan.Duplicates.{recent_not_published, evicted_is_published}
use smart_door_lock.Scan.Address.{IsBytes, parse_addr, parse-format}

abbrev phone : Addr
phone = record { a0 = 0x4A; a1 = 0x00; a2 = 0xFF; a3 = 0x12; a4 = 0x3C; a5 = 0xD0 }

-- Its first byte differs from the phone's by 32, so both fall in slot 10.
abbrev watch : Addr
watch = record { a0 = 0x2A; a1 = 0x01; a2 = 0x02; a3 = 0x03; a4 = 0x04; a5 = 0x05 }

abbrev at : ℕ → ℕ → ℕ
at t k = t

abbrev one_device : BtDeviceLst
one_device = record empty_lst {
  device_lst =
      record { timestamp = 40000; addr = phone }
      ∷ zero_device
      ∷ zero_device
      ∷ zero_device
      ∷ zero_device
      ∷ [];
  i = 1;
}

abbrev no_sent : SentLst
no_sent k = zero_device

abbrev phone_sent : SentLst
phone_sent k = record { timestamp = 40000; addr = phone }

abbrev watch_sent : SentLst
watch_sent k = record { timestamp = 40500; addr = watch }

same_slot : sent_index phone ≡ sent_index watch
unfolding sent_index
same_slot = refl

format_phone : format_addr phone ≡ codes "D0:3C:12:FF:00:4A"
unfolding format_addr
format_phone = refl

add_phone : add_bt_device (at 40000) phone empty_lst ≡ (some 0, one_device)
unfolding add_bt_device is_recorded is_available same_addr
add_phone = refl

send_phone : (send_device (at 40001) one_device no_sent).2 ≡ codes "D0:3C:12:FF:00:4A" ∷ []
unfolding send_device send_from send_one is_due is_available same_addr sent_index format_addr
send_phone = refl

empty_lst-IsValid : IsValid empty_lst
empty_lst-IsValid = omega arith

phone-IsBytes : IsBytes phone
phone-IsBytes = omega arith

add-refused_iff_example :
    ((add_bt_device (at 50000) phone one_device).0 ≡ none)
    ↔ ((k : ℕ) × (d : BtDevice) × IsFresh (at 50000) one_device.device_lst 0 phone k d)
add-refused_iff_example = add-refused_iff (at 50000) phone one_device

send_device-Sends_example :
    let (l', sent', published) = send_device (at 40001) one_device no_sent in
    Sends one_device.device_lst l'.device_lst published × (l'.i ≡ one_device.i)
send_device-Sends_example = send_device-Sends (at 40001) one_device no_sent

parse-format_example : (length (format_addr phone) ≡ 17) × (parse_addr (format_addr phone) ≡ phone)
parse-format_example = parse-format phone phone-IsBytes

recent_not_published_example :
    let (l', sent', published) = send_device (at 50000) one_device phone_sent in
    All (λ m. m ≢ format_addr phone) published
    × (sent' (sent_index phone) ≡ record { timestamp = 40000; addr = phone })
unfolding sent_index
recent_not_published_example =
    recent_not_published (at 50000) phone (record { timestamp = 40000; addr = phone }) one_device
      phone_sent refl refl phone-IsBytes (λ k. omega arith)
      (
        (phone-IsBytes, (λ e. refl)),
        (
          (omega arith, (λ e. absurd (omega arith))),
          (
            (omega arith, (λ e. absurd (omega arith))),
            (
              (omega arith, (λ e. absurd (omega arith))),
              ((omega arith, (λ e. absurd (omega arith))), tt),
            ),
          ),
        ),
      )

evicted_is_published_example :
    (ms : List (List ℕ)) × ((send_device (at 41000) one_device watch_sent).2
      ≡ format_addr phone ∷ ms)
evicted_is_published_example =
    evicted_is_published (at 41000) (record { timestamp = 40000; addr = phone }) one_device
      (zero_device ∷ zero_device ∷ zero_device ∷ zero_device ∷ []) watch_sent refl (omega arith)
      (λ e. absurd (omega (arith, ap (λ (x : Addr). x.a0) e)))
