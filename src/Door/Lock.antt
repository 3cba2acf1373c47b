-- ===== src/Door/Lock.antt =====
-- The door over time: messages, timer callbacks and the clock, in any order. What a locked door, an
-- unlocked door, and a door that nobody was told to open do.
use smart_door_lock.Base.{ℕ, ◌≡◌, ◌≢◌, ◌⊎◌, ◌↔◌, refl, List, [], ◌∷◌, Bool, true, false, arith, All}
use smart_door_lock.Clock.{clock_after}
use smart_door_lock.Door.{
  DoorStatus, closed, opened, unlocked, locked, Door, message_text, mqtt_message_cb,
  periodic_timeout,
}
use smart_door_lock.Door.Command.{
  Command, open_door, lock, unlock, normal, unknown, command_of, react, message-eq-react,
}

-- The door, its LED 0 and the clock.
pub record House : Type 0 where
  pub door : Door
  pub led0 : Bool
  pub time : ℕ

-- A message arrives, the periodic timer fires, or milliseconds pass.
pub data Event : Type 0 where
  message : List ℕ → Event
  timeout : Event
  elapse : ℕ → Event

unfoldable pub step : House → Event → House
step h (message buffer) = record h { door = mqtt_message_cb h.time buffer h.door }
step h timeout = let (d, on) = periodic_timeout h.time h.door in record h { door = d; led0 = on }
step h (elapse ms) = record h { time = clock_after h.time ms }

unfoldable pub run : House → List Event → House
run h [] = h
run h (e ∷ es) = run (step h e) es

-- An event brings no message that spells the command.
abbrev pub Without : Command → Event → Type 0
Without c (message buffer) = command_of (message_text buffer) ≢ c
Without c timeout = Unit
Without c (elapse ms) = Unit

abbrev pub KeepsLocked : Event → Type 0
KeepsLocked e = Without unlock e × Without normal e

abbrev pub KeepsUnlocked : Event → Type 0
KeepsUnlocked e = Without lock e × Without open_door e × Without normal e

abbrev pub BringsNoEntry : Event → Type 0
BringsNoEntry e = Without open_door e × Without unlock e

abbrev pub IsShut : DoorStatus → Type 0
IsShut s = (s ≡ closed) ⊎ (s ≡ locked)

message_keeps_locked :
    (now : ℕ) (c : Command) (d : Door)
    → c ≢ unlock
    → c ≢ normal
    → d.stat ≡ locked
    → (react now c d).stat ≡ locked
message_keeps_locked now open_door d u n h = rw h
message_keeps_locked now lock d u n h = ground arith
message_keeps_locked now unlock d u n h = absurd (u refl)
message_keeps_locked now normal d u n h = absurd (n refl)
message_keeps_locked now unknown d u n h = h

step-KeepsLocked :
    (h : House) (e : Event) → KeepsLocked e → h.door.stat ≡ locked → (step h e).door.stat ≡ locked
unfolding step periodic_timeout
step-KeepsLocked h (message b) k l =
    rw message-eq-react (message_keeps_locked h.time (command_of (message_text b)) h.door k.0 k.1 l)
step-KeepsLocked h timeout k l = ground arith
step-KeepsLocked h (elapse ms) k l = l

-- A locked door stays locked through any events, `open_door` messages among them, as long as no
-- message says `unlock` or `normal`.
pub locked_stays :
    (es : List Event) (h : House)
    → All KeepsLocked es
    → h.door.stat ≡ locked
    → (run h es).door.stat ≡ locked
unfolding run
locked_stays [] h k l = l
locked_stays (e ∷ es) h k l = locked_stays es (step h e) k.1 (step-KeepsLocked h e k.0 l)

message_keeps_unlocked :
    (now : ℕ) (c : Command) (d : Door)
    → (c ≢ lock) × (c ≢ open_door) × (c ≢ normal)
    → d.stat ≡ unlocked
    → (react now c d).stat ≡ unlocked
message_keeps_unlocked now open_door d k h = absurd (k.1 refl)
message_keeps_unlocked now lock d k h = absurd (k.0 refl)
message_keeps_unlocked now unlock d k h = ground arith
message_keeps_unlocked now normal d k h = absurd (k.2 refl)
message_keeps_unlocked now unknown d k h = h

step-KeepsUnlocked :
    (h : House) (e : Event)
    → KeepsUnlocked e
    → h.door.stat ≡ unlocked
    → (step h e).door.stat ≡ unlocked
unfolding step periodic_timeout
step-KeepsUnlocked h (message b) k l =
    rw message-eq-react (message_keeps_unlocked h.time (command_of (message_text b)) h.door k l)
step-KeepsUnlocked h timeout k l = ground arith
step-KeepsUnlocked h (elapse ms) k l = l

-- An unlocked door stays unlocked through any events, with no limit of time, as long as no message
-- says `lock`, `normal` or `open_door`.
unlocked_stays :
    (es : List Event) (h : House)
    → All KeepsUnlocked es
    → h.door.stat ≡ unlocked
    → (run h es).door.stat ≡ unlocked
unfolding run
unlocked_stays [] h k l = l
unlocked_stays (e ∷ es) h k l = unlocked_stays es (step h e) k.1 (step-KeepsUnlocked h e k.0 l)

-- After the timer's callback LED 0 is on exactly if the door is then opened or unlocked, whatever
-- the state before.
timeout-led0 :
    (h : House)
    → ((step h timeout).led0 ≡ true)
      ↔ (((step h timeout).door.stat ≡ opened) ⊎ ((step h timeout).door.stat ≡ unlocked))
unfolding step periodic_timeout
timeout-led0 h = (ground arith, ground arith)

abbrev IsBarred : House → Type 0
IsBarred h = IsShut h.door.stat × (h.led0 ≡ false)

message_brings_no_entry :
    (now : ℕ) (c : Command) (d : Door)
    → (c ≢ open_door) × (c ≢ unlock)
    → IsShut d.stat
    → IsShut (react now c d).stat
message_brings_no_entry now open_door d k h = absurd (k.0 refl)
message_brings_no_entry now lock d k h = ground arith
message_brings_no_entry now unlock d k h = absurd (k.1 refl)
message_brings_no_entry now normal d k h = ground arith
message_brings_no_entry now unknown d k h = h

step-BringsNoEntry : (h : House) (e : Event) → BringsNoEntry e → IsBarred h → IsBarred (step h e)
unfolding step periodic_timeout
step-BringsNoEntry h (message b) k l = (
  rw message-eq-react (message_brings_no_entry h.time (command_of (message_text b)) h.door k l.0),
  l.1,
)
step-BringsNoEntry h timeout k l = (ground arith, ground arith)
step-BringsNoEntry h (elapse ms) k l = l

-- A door that is closed or locked, with LED 0 off, is so after any events in which no message says
-- `open_door` or `unlock`: without one of the two nobody gets in.
pub no_entry_without_command :
    (es : List Event) (h : House)
    → All BringsNoEntry es
    → IsShut h.door.stat
    → h.led0 ≡ false
    → IsShut (run h es).door.stat × ((run h es).led0 ≡ false)
unfolding run
no_entry_without_command [] h k s l = (s, l)
no_entry_without_command (e ∷ es) h k s l =
    let (s', l') = step-BringsNoEntry h e k.0 (s, l) in
    no_entry_without_command es (step h e) k.1 s' l'
