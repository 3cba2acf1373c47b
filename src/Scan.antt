-- ===== src/Scan.antt =====
-- smartDoor/smart_door.c, the Bluetooth scan: the ring `bt_lst` of the devices that the scanner
-- reported, the table `sent_lst` of those that were published, and the loop that publishes.
-- `cur_time()` may advance while a loop runs, so each function takes its readings in order.
pub mod Record
pub mod Publish
pub mod Duplicates
pub mod Address
pub mod Found
mod Tests
use Prim.Native.Nat.{bit_and}
use smart_door_lock.Base.{
  ℕ, zero, suc, ◌+◌, ◌-◌, ◌%◌, ◌/◌, List, [], ◌∷◌, ◌++◌, Bool, true, false, ◌&&◌, not, Option, none,
  some, leb, ltb, ◌==◌, set, if◌then◌else◌,
}
use smart_door_lock.Base.Int.{ℤ, pos, negsuc, ltb_ℤ}
use smart_door_lock.Clock.{sub32}

-- `bd_addr`, and the `uint8_t addr[6]` of `bt_device`.
pub record Addr : Type 0 where
  pub a0 : ℕ
  pub a1 : ℕ
  pub a2 : ℕ
  pub a3 : ℕ
  pub a4 : ℕ
  pub a5 : ℕ

pub record BtDevice : Type 0 where
  pub timestamp : ℕ
  pub addr : Addr

abbrev pub zero_addr : Addr
zero_addr = record { a0 = 0; a1 = 0; a2 = 0; a3 = 0; a4 = 0; a5 = 0 }

-- What `bzero` and `= {0}` leave.
abbrev pub zero_device : BtDevice
zero_device = record { timestamp = 0; addr = zero_addr }

abbrev pub bt_lst_size : ℕ
bt_lst_size = 5

abbrev pub bt_device_lifetime : ℕ
bt_device_lifetime = 34000

abbrev pub sent_lst_size : ℕ
sent_lst_size = 32

-- `_bt_device_lst`: the array as a list, and the cursor.
pub record BtDeviceLst : Type 0 where
  pub device_lst : List BtDevice
  pub i : ℕ

abbrev pub empty_lst : BtDeviceLst
empty_lst = record {
  device_lst = zero_device ∷ zero_device ∷ zero_device ∷ zero_device ∷ zero_device ∷ [];
  i = 0;
}

-- The loop of `is_available` over the six bytes.
unfoldable pub same_addr : Addr → Addr → Bool
same_addr a b =
    a.a0 == b.a0
    && (a.a1 == b.a1 && (a.a2 == b.a2 && (a.a3 == b.a3 && (a.a4 == b.a4 && a.a5 == b.a5))))

-- 1 if the address differs or its time is over, else 0.
unfoldable pub is_available : ℕ → BtDevice → Addr → Bool
is_available cur_time device addr =
    if same_addr device.addr addr
    then leb bt_device_lifetime (sub32 cur_time device.timestamp)
    else true

-- The loop of `add_bt_device`: whether some entry makes it return -1. `cur_time j` is the reading
-- at entry `j`.
unfoldable pub is_recorded : (ℕ → ℕ) → ℕ → List BtDevice → Addr → Bool
is_recorded cur_time j [] address = false
is_recorded cur_time j (d ∷ ds) address =
    let rest = is_recorded cur_time (j + 1) ds address in
    if not (is_available (cur_time j) d address) then true else rest

-- `none` is -1. The cursor moves on before the search, so also where the device is refused.
unfoldable pub add_bt_device : (ℕ → ℕ) → Addr → BtDeviceLst → Option ℕ × BtDeviceLst
add_bt_device cur_time address bt_lst =
    let idx = bt_lst.i in
    let moved : BtDeviceLst = record bt_lst { i = (bt_lst.i + 1) % bt_lst_size } in
    if is_recorded cur_time 0 bt_lst.device_lst address then (none, moved) else (
      some idx,
      record moved {
        device_lst =
            set bt_lst.device_lst idx (record { timestamp = cur_time bt_lst_size; addr = address });
      },
    )

-- `%02X` of a byte.
unfoldable pub hex_digit : ℕ → ℕ
hex_digit d = if ltb d 10 then b'0' + d else b'A' + d - 10

unfoldable pub hex_byte : ℕ → List ℕ
unfolding hex_digit
hex_byte b = hex_digit (b / 16) ∷ hex_digit (b % 16) ∷ []

-- The `snprintf` of `send_device`.
unfoldable pub format_addr : Addr → List ℕ
unfolding hex_byte
format_addr a =
    hex_byte a.a5
    ++ b':'
      ∷ (hex_byte a.a4
          ++ b':'
            ∷ (hex_byte a.a3
                ++ b':' ∷ (hex_byte a.a2 ++ b':' ∷ (hex_byte a.a1 ++ b':' ∷ hex_byte a.a0))))

abbrev pub SentLst : Type 0
SentLst = ℕ → BtDevice

-- `cur.addr[0] & (SENT_LST_SIZE - 1)`
unfoldable pub sent_index : Addr → ℕ
sent_index a = bit_and a.a0 31

abbrev pub store : SentLst → ℕ → BtDevice → SentLst
store sent idx d k = if k == idx then d else sent k

-- What the loop of `send_device` carries: the entries that it has passed, `last_index` (`none` is
-- -1), the table, and the messages published so far.
pub record Sending : Type 0 where
  pub passed : List BtDevice
  pub last_index : Option ℕ
  pub sent_lst : SentLst
  pub published : List (List ℕ)

abbrev pub differs : ℕ → Option ℕ → Bool
differs idx none = true
differs idx (some last) = not (idx == last)

-- Whether the loop publishes an entry.
unfoldable pub is_due : ℕ → Option ℕ → SentLst → BtDevice → Bool
is_due cur_time last sent_lst cur =
    differs (sent_index cur.addr) last
    && (not (cur.timestamp == 0) && is_available cur_time (sent_lst (sent_index cur.addr)) cur.addr)

-- One round of the loop.
unfoldable pub send_one : ℕ → BtDevice → Sending → Sending
send_one cur_time cur s =
    let idx = sent_index cur.addr in
    if is_due cur_time s.last_index s.sent_lst cur
    then record {
      passed = s.passed ++ (zero_device ∷ []);
      last_index = some idx;
      sent_lst = store s.sent_lst idx cur;
      published = s.published ++ (format_addr cur.addr ∷ []);
    }
    else record s { passed = s.passed ++ (cur ∷ []) }

-- The rounds over the entries from `j` on; `cur_time j` is the reading in round `j`.
unfoldable pub send_from : (ℕ → ℕ) → ℕ → List BtDevice → Sending → Sending
send_from cur_time j [] s = s
send_from cur_time j (d ∷ ds) s = send_from cur_time (j + 1) ds (send_one (cur_time j) d s)

-- The list and the table afterwards, with the messages in the order of their publication.
unfoldable pub send_device : (ℕ → ℕ) → BtDeviceLst → SentLst → BtDeviceLst × SentLst × List (List ℕ)
send_device cur_time bt_lst sent_lst =
    let s =
      send_from cur_time 0 bt_lst.device_lst
        (record { passed = []; last_index = none; sent_lst = sent_lst; published = [] }) in
    (record bt_lst { device_lst = s.passed }, s.sent_lst, s.published)

-- The events that `sl_bt_on_event` tells apart. `rssi` is an `int8_t`, in dBm.
pub data ScanEvent : Type 0 where
  system_boot : ScanEvent
  scan_report : (rssi : ℤ) → Addr → ScanEvent
  other_event : ScanEvent

-- -50; `negsuc n` is -(n + 1).
abbrev pub min_rssi : ℤ
min_rssi = negsuc 49

-- The part of `sl_bt_on_event` that keeps state.
unfoldable pub sl_bt_on_event : (ℕ → ℕ) → ScanEvent → BtDeviceLst → BtDeviceLst
sl_bt_on_event cur_time system_boot bt_lst = bt_lst
sl_bt_on_event cur_time (scan_report rssi address) bt_lst =
    if ltb_ℤ min_rssi rssi then (add_bt_device cur_time address bt_lst).1 else bt_lst
sl_bt_on_event cur_time other_event bt_lst = bt_lst

-- The calls into the Bluetooth stack, with their constants.
pub data StackCall : Type 0 where
  set_timing : (interval window : ℕ) → StackCall
  set_default_parameters :
      (min_interval max_interval latency timeout min_ce_length max_ce_length : ℕ) → StackCall
  start_observation : StackCall

-- What `sl_bt_on_event` asks of the stack: the scan is started at the boot event only.
unfoldable pub stack_calls : ScanEvent → List StackCall
stack_calls system_boot =
    set_timing 16 16 ∷ set_default_parameters 80 80 0 100 0 0xffff ∷ start_observation ∷ []
stack_calls (scan_report rssi address) = []
stack_calls other_event = []
