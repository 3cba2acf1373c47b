-- ===== src/Door/Command.antt =====
-- What the door's message handler promises: a table over the four commands, and that the handler
-- on bytes is that table.
use smart_door_lock.Base.{ℕ, ◌≡◌, refl, List, Bool, true, false, arith, if◌then◌else◌}
use smart_door_lock.Base.Bytes.{bytes_eq, bytes_eq→eq}
use smart_door_lock.Door.{
  DoorStatus, closed, opened, unlocked, locked, Door, open_door_cmd, lock_door_cmd, unlock_door_cmd,
  normal_door_stat, message_text, obey, mqtt_message_cb,
}

pub data Command : Type 0 where
  open_door lock unlock normal : Command
  unknown : Command

-- The command that a text spells.
unfoldable pub command_of : List ℕ → Command
command_of buf =
    if bytes_eq buf open_door_cmd
    then open_door
    else if bytes_eq buf lock_door_cmd
    then lock
    else if bytes_eq buf unlock_door_cmd
    then unlock
    else if bytes_eq buf normal_door_stat
    then normal
    else unknown

-- The status that follows, by status and command, as the README's list of messages has it.
abbrev pub next : DoorStatus → Command → DoorStatus
next closed open_door = opened
next opened open_door = opened
next unlocked open_door = opened
next locked open_door = locked
next closed normal = closed
next opened normal = opened
next unlocked normal = opened
next locked normal = closed
next s lock = locked
next s unlock = unlocked
next s unknown = s

-- Whether the command starts the time for which the door stays open.
abbrev pub restarts : DoorStatus → Command → Bool
restarts closed open_door = true
restarts opened open_door = true
restarts unlocked open_door = true
restarts unlocked normal = true
restarts s c = false

abbrev pub react : ℕ → Command → Door → Door
react now c d = record {
  stat = next d.stat c;
  open_time = if restarts d.stat c then now else d.open_time;
}

-- A text that is one word compares with another as that word does.
bytes_eq-of_eq :
    (buf x y : List ℕ) → bytes_eq x y ≡ false → bytes_eq buf x ≡ true → bytes_eq buf y ≡ false
bytes_eq-of_eq buf x y d h = rw (bytes_eq→eq buf x h) d

-- The four words are pairwise different.
record Apart (buf : List ℕ) : Type 0 where
  open_lock : bytes_eq buf open_door_cmd ≡ true → bytes_eq buf lock_door_cmd ≡ false
  open_unlock : bytes_eq buf open_door_cmd ≡ true → bytes_eq buf unlock_door_cmd ≡ false
  open_normal : bytes_eq buf open_door_cmd ≡ true → bytes_eq buf normal_door_stat ≡ false
  lock_unlock : bytes_eq buf lock_door_cmd ≡ true → bytes_eq buf unlock_door_cmd ≡ false
  lock_normal : bytes_eq buf lock_door_cmd ≡ true → bytes_eq buf normal_door_stat ≡ false
  unlock_normal : bytes_eq buf unlock_door_cmd ≡ true → bytes_eq buf normal_door_stat ≡ false

apart : (buf : List ℕ) → Apart buf
apart buf = record {
  open_lock = bytes_eq-of_eq buf open_door_cmd lock_door_cmd refl;
  open_unlock = bytes_eq-of_eq buf open_door_cmd unlock_door_cmd refl;
  open_normal = bytes_eq-of_eq buf open_door_cmd normal_door_stat refl;
  lock_unlock = bytes_eq-of_eq buf lock_door_cmd unlock_door_cmd refl;
  lock_normal = bytes_eq-of_eq buf lock_door_cmd normal_door_stat refl;
  unlock_normal = bytes_eq-of_eq buf unlock_door_cmd normal_door_stat refl;
}

-- The chain of tests of `mqtt_message_cb` is the table at the command that the text spells.
obey-eq-react : (now : ℕ) (buf : List ℕ) (d : Door) → obey now buf d ≡ react now (command_of buf) d
unfolding obey command_of
obey-eq-react now buf d = ground (arith, apart buf)

-- On the bytes of any message, at any time and in any state, the callback gives the door the
-- status and the opening time that the table has for the command that the text spells; the text is
-- what stands before the first NUL of the message's first 512 bytes.
pub message-eq-react :
    (now : ℕ) (buffer : List ℕ) (d : Door)
    → mqtt_message_cb now buffer d ≡ react now (command_of (message_text buffer)) d
unfolding mqtt_message_cb
message-eq-react now buffer d = obey-eq-react now (message_text buffer) d
