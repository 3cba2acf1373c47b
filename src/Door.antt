-- ===== src/Door.antt =====
-- smartDoor/smart_door.c, the door: the status `dr_iot`, the callback that an MQTT message runs,
-- and the periodic timer's callback, which works the lock through LED 0. The proofs are in the
-- modules below.
pub mod Command
pub mod Lock
pub mod Preempt
pub mod Timing
mod Tests
use smart_door_lock.Base.{
  ℕ, ◌≡◌, List, [], ◌∷◌, Bool, true, false, ◌&&◌, ◌||◌, ltb, take, length, if◌then◌else◌,
}
use smart_door_lock.Base.Bytes.{codes, c_string, bytes_eq}
use smart_door_lock.Clock.{sub32}

-- `doorStatus`; the source's `open` is `opened` here.
pub data DoorStatus : Type 0 where
  closed opened unlocked locked : DoorStatus

pub record Door : Type 0 where
  pub stat : DoorStatus
  pub open_time : ℕ

-- `dr_iot == {0}`
abbrev pub initial : Door
initial = record { stat = closed; open_time = 0 }

abbrev pub is_closed : DoorStatus → Bool
is_closed closed = true
is_closed _ = false

abbrev pub is_open : DoorStatus → Bool
is_open opened = true
is_open _ = false

abbrev pub is_unlocked : DoorStatus → Bool
is_unlocked unlocked = true
is_unlocked _ = false

abbrev pub is_locked : DoorStatus → Bool
is_locked locked = true
is_locked _ = false

abbrev pub open_door_cmd : List ℕ
open_door_cmd = codes "open_door"

abbrev pub lock_door_cmd : List ℕ
lock_door_cmd = codes "lock"

abbrev pub unlock_door_cmd : List ℕ
unlock_door_cmd = codes "unlock"

abbrev pub normal_door_stat : List ℕ
normal_door_stat = codes "normal"

abbrev pub mqtt_max_packet_sz : ℕ
mqtt_max_packet_sz = 512

-- `buf`, as `strcmp` reads it: at most `MQTT_MAX_PACKET_SZ` bytes of the message, then a NUL.
unfoldable pub message_text : List ℕ → List ℕ
message_text buffer = c_string (take mqtt_max_packet_sz buffer)

-- The chain of tests of `mqtt_message_cb`, on the text.
unfoldable pub obey : ℕ → List ℕ → Door → Door
obey cur_time buf d =
    if (if is_locked d.stat then false else bytes_eq buf open_door_cmd)
      || (is_unlocked d.stat && bytes_eq buf normal_door_stat)
    then record { stat = opened; open_time = cur_time }
    else if bytes_eq buf unlock_door_cmd
    then record d { stat = unlocked }
    else if is_locked d.stat && bytes_eq buf normal_door_stat
    then record d { stat = closed }
    else if bytes_eq buf lock_door_cmd
    then record d { stat = locked }
    else d

-- The callback on a message's bytes, at the time that `cur_time()` would return. All paths return 0.
unfoldable pub mqtt_message_cb : ℕ → List ℕ → Door → Door
unfolding obey message_text
mqtt_message_cb cur_time buffer d = obey cur_time (message_text buffer) d

abbrev pub open_interval : ℕ
open_interval = 30000

-- What the callback does to LED 0, which stands for the bolt: `true` is on, that is, drawn back.
unfoldable pub periodic_timeout : ℕ → Door → Door × Bool
periodic_timeout cur_time d =
    if is_open d.stat && ltb (sub32 cur_time d.open_time) open_interval
    then (d, true)
    else if is_locked d.stat
    then (d, false)
    else if is_unlocked d.stat
    then (d, true)
    else (record d { stat = closed }, false)
