-- ===== src/Scan/Record.antt =====
-- `add_bt_device`: which devices are recorded, and where.
use smart_door_lock.Base.{
  ℕ, zero, suc, ◌+◌, ◌%◌, ◌<◌, ◌≡◌, ◌↔◌, inl, inr, refl, List, [], ◌∷◌, true, false, none, some,
  arith, length, length-set, get_elem?, set, get_elem?-set_self, Bool-cases,
}
use smart_door_lock.Base.Int.{ltb_ℤ}
use smart_door_lock.Clock.{sub32}
use smart_door_lock.Scan.{
  Addr, BtDevice, BtDeviceLst, bt_lst_size, bt_device_lifetime, same_addr, is_available,
  is_recorded, add_bt_device, ScanEvent, system_boot, scan_report, other_event, min_rssi,
  sl_bt_on_event,
}

pub same_addr→eq : (a b : Addr) → same_addr a b ≡ true → a ≡ b
unfolding same_addr
same_addr→eq a b h = ground arith

same_addr_refl : (a : Addr) → same_addr a a ≡ true
unfolding same_addr
same_addr_refl a = ground arith

-- The entry at an index holds the address, and less than the lifetime has passed since its time.
pub record IsFresh (cur_time : ℕ → ℕ) (ds : List BtDevice) (j : ℕ) (address : Addr) (k : ℕ)
    (d : BtDevice) : Type 0 where
  pub at : get_elem? ds k ≡ some d
  pub addr : d.addr ≡ address
  pub age : sub32 (cur_time (j + k)) d.timestamp < bt_device_lifetime

is_available-false :
    (now : ℕ) (d : BtDevice) (a : Addr)
    → is_available now d a ≡ false
    → (d.addr ≡ a) × (sub32 now d.timestamp < bt_device_lifetime)
unfolding is_available
is_available-false now d a h = elim (Bool-cases (same_addr d.addr a)) [
  | inl e ↦ (same_addr→eq d.addr a e, ground arith)
  | inr e ↦ absurd (ground arith)
]

pub false-is_available :
    (now : ℕ) (d : BtDevice) (a : Addr)
    → d.addr ≡ a
    → sub32 now d.timestamp < bt_device_lifetime
    → is_available now d a ≡ false
unfolding is_available
false-is_available now d a e h = rw (e, same_addr_refl a) (ground arith)

is_recorded-IsFresh :
    (cur_time : ℕ → ℕ) (ds : List BtDevice) (j : ℕ) (a : Addr)
    → is_recorded cur_time j ds a ≡ true
    → (k : ℕ) × (d : BtDevice) × IsFresh cur_time ds j a k d
unfolding is_recorded
is_recorded-IsFresh cur_time [] j a h = absurd (ground arith)
is_recorded-IsFresh cur_time (d ∷ ds) j a h = elim (Bool-cases (is_available (cur_time j) d a)) [
  | inl e ↦
      let (k, d', f) = is_recorded-IsFresh cur_time ds (j + 1) a (ground arith) in
      (
        suc k,
        d',
        record {
          at = f.at;
          addr = f.addr;
          age = let e' : j + suc k ≡ j + 1 + k = omega arith in rw e' f.age;
        },
      )
  | inr e ↦
      let (same, young) = is_available-false (cur_time j) d a e in
      (
        0,
        d,
        record { at = refl; addr = same; age = let e' : j + 0 ≡ j = omega arith in rw e' young },
      )
]

IsFresh-is_recorded :
    (cur_time : ℕ → ℕ) (ds : List BtDevice) (j : ℕ) (a : Addr) (k : ℕ) (d : BtDevice)
    → IsFresh cur_time ds j a k d
    → is_recorded cur_time j ds a ≡ true
unfolding is_recorded
IsFresh-is_recorded cur_time [] j a k d f = absurd (cc f.at)
IsFresh-is_recorded cur_time (x ∷ ds) j a zero d f =
    let x_is : x ≡ d = ground (arith, f.at) in
    let e' : j + 0 ≡ j = omega arith in
    let young = rw e' at f.age in rw (x_is, false-is_available (cur_time j) d a f.addr young)
IsFresh-is_recorded cur_time (x ∷ ds) j a (suc k) d f =
    let e' : j + suc k ≡ j + 1 + k = omega arith in
    let younger = rw e' at f.age in
    let ih =
      IsFresh-is_recorded cur_time ds (j + 1) a k d
        (record { at = f.at; addr = f.addr; age = younger }) in
    ground (arith, ih)

-- `add_bt_device` returns -1 exactly if some entry of the list holds the address, from less than
-- 34000 ms before.
pub add-refused_iff :
    (cur_time : ℕ → ℕ) (a : Addr) (l : BtDeviceLst)
    → ((add_bt_device cur_time a l).0 ≡ none)
      ↔ ((k : ℕ) × (d : BtDevice) × IsFresh cur_time l.device_lst 0 a k d)
unfolding add_bt_device
add-refused_iff cur_time a l = (
  λ h. is_recorded-IsFresh cur_time l.device_lst 0 a (ground arith),
  λ (k, d, f). rw (IsFresh-is_recorded cur_time l.device_lst 0 a k d f),
)

-- The array has its five entries, and the cursor is the index of one of them.
pub record IsValid (l : BtDeviceLst) : Type 0 where
  pub size : length l.device_lst ≡ bt_lst_size
  pub cursor : l.i < bt_lst_size

add-IsValid :
    (cur_time : ℕ → ℕ) (a : Addr) (l : BtDeviceLst)
    → IsValid l
    → IsValid (add_bt_device cur_time a l).1
unfolding add_bt_device
add-IsValid cur_time a l v = elim (Bool-cases (is_recorded cur_time 0 l.device_lst a)) [
  | inl e ↦ rw e (record { size = v.size; cursor = omega arith })
  | inr e ↦ rw e (record {
    size = omega (
      arith,
      v.size,
      length-set l.device_lst l.i (record { timestamp = cur_time bt_lst_size; addr = a }),
    );
    cursor = omega arith;
  })
]

-- Every Bluetooth event keeps the list valid.
pub event-IsValid :
    (cur_time : ℕ → ℕ) (e : ScanEvent) (l : BtDeviceLst)
    → IsValid l
    → IsValid (sl_bt_on_event cur_time e l)
unfolding sl_bt_on_event
event-IsValid cur_time system_boot l v = v
event-IsValid cur_time (scan_report rssi a) l v = elim (Bool-cases (ltb_ℤ min_rssi rssi)) [
  | inl e ↦ rw e (add-IsValid cur_time a l v)
  | inr e ↦ rw e v
]
event-IsValid cur_time other_event l v = v

-- Where `add_bt_device` returns an index it is the cursor's; the entry there becomes the address with
-- the last reading of the clock, every other entry stays as it was, and the cursor moves on round the
-- list.
add-accepted :
    (cur_time : ℕ → ℕ) (a : Addr) (l : BtDeviceLst) (idx : ℕ)
    → (add_bt_device cur_time a l).0 ≡ some idx
    → (idx ≡ l.i)
      × ((add_bt_device cur_time a l).1 ≡ record {
        device_lst = set l.device_lst l.i (record { timestamp = cur_time bt_lst_size; addr = a });
        i = (l.i + 1) % bt_lst_size;
      })
unfolding add_bt_device
add-accepted cur_time a l idx h = elim (Bool-cases (is_recorded cur_time 0 l.device_lst a)) [
  | inl e ↦ absurd (ground arith)
  | inr e ↦ (ground arith, rw e)
]

-- A device that `add_bt_device` has just taken into a valid list is refused at the next call with
-- its address, if the reading of the clock at its entry is then less than 34000 ms later.
add_twice_refused :
    (cur_time cur_time' : ℕ → ℕ) (a : Addr) (l : BtDeviceLst) (idx : ℕ)
    → IsValid l
    → (add_bt_device cur_time a l).0 ≡ some idx
    → sub32 (cur_time' idx) (cur_time bt_lst_size) < bt_device_lifetime
    → (add_bt_device cur_time' a (add_bt_device cur_time a l).1).0 ≡ none
add_twice_refused cur_time cur_time' a l idx v h young =
    let (here, grown) = add-accepted cur_time a l idx h in
    let entry =
      get_elem?-set_self l.device_lst l.i (record { timestamp = cur_time bt_lst_size; addr = a })
        (omega (arith, v.size, v.cursor)) in
    let e' : 0 + idx ≡ idx = omega arith in
    (add-refused_iff cur_time' a (add_bt_device cur_time a l).1).1 (
      idx,
      record { timestamp = cur_time bt_lst_size; addr = a },
      record { at = rw (grown, here) entry; addr = refl; age = rw e' young },
    )
