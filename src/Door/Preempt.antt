-- ===== src/Door/Preempt.antt =====
-- `mqtt_message_cb` while the timer's interrupt may come between any two of its accesses to `dr_iot`.
-- The interrupts are in a list of lists of their times: each entry is those before the next access.
pub mod Came
pub mod Stores
pub mod Sequential
use smart_door_lock.Base.{
  ℕ, ◌≡◌, ◌≢◌, ◌∙◌, ◌<◌, ◌⊎◌, inl, inr, refl, sym, ap, List, [], ◌∷◌, ◌++◌, append_assoc,
  append-nil, Bool, true, false, ◌&&◌, ◌||◌, arith, All, Bool-cases, if◌then◌else◌,
}
use smart_door_lock.Base.Bytes.{bytes_eq}
use smart_door_lock.Clock.{sub32}
use smart_door_lock.Door.{
  DoorStatus, closed, opened, unlocked, locked, is_open, is_unlocked, is_locked, Door,
  open_door_cmd, lock_door_cmd, unlock_door_cmd, normal_door_stat, open_interval, obey,
  message_text, mqtt_message_cb, periodic_timeout,
}

-- The door and LED 0.
pub record Panel : Type 0 where
  pub door : Door
  pub led0 : Bool

pub record Preempted : Type 0 where
  pub panel : Panel
  pub upcoming : List (List ℕ)

-- The timer's callback at a time.
unfoldable pub fire : ℕ → Panel → Panel
unfolding periodic_timeout
fire now p = let (d, on) = periodic_timeout now p.door in record { door = d; led0 = on }

unfoldable pub fires : List ℕ → Panel → Panel
unfolding fire
fires [] p = p
fires (t ∷ ts) p = fires ts (fire t p)

unfoldable pub arrive_from : List (List ℕ) → Panel → Preempted
unfolding fires
arrive_from [] p = record { panel = p; upcoming = [] }
arrive_from (ts ∷ rest) p = record { panel = fires ts p; upcoming = rest }

-- What happens before the next access.
unfoldable pub arrive : Preempted → Preempted
unfolding arrive_from
arrive w = arrive_from w.upcoming w.panel

abbrev pub status : Preempted → DoorStatus
status w = w.panel.door.stat

-- A store to `dr_iot.open_time`, and one to `dr_iot.stat`.
abbrev pub put_time : ℕ → Panel → Panel
put_time now p = record p { door = record p.door { open_time = now } }

abbrev pub put_stat : DoorStatus → Panel → Panel
put_stat s p = record p { door = record p.door { stat = s } }

abbrev pub store : (Panel → Panel) → Preempted → Preempted
store f w = record w { panel = f w.panel }

unfoldable pub set_stat : DoorStatus → Preempted → Preempted
unfolding arrive
set_stat s w = store (put_stat s) (arrive w)

-- The two stores that open the door.
unfoldable pub open_up : ℕ → Preempted → Preempted
unfolding arrive set_stat
open_up cur_time w = set_stat opened (store (put_time cur_time) (arrive w))

-- The tests on the texts do not touch `dr_iot`; `w`, `w'` and `w''` are at the three reads of it.
unfoldable pub obey_with : ℕ → List ℕ → Preempted → Preempted
unfolding arrive set_stat open_up
obey_with cur_time buf w0 =
    let w = arrive w0 in
    let w' = arrive w in
    let w'' = arrive w' in
    if (if is_locked (status w) then false else bytes_eq buf open_door_cmd)
    then open_up cur_time w
    else if is_unlocked (status w') && bytes_eq buf normal_door_stat
    then open_up cur_time w'
    else if bytes_eq buf unlock_door_cmd
    then set_stat unlocked w'
    else if is_locked (status w'') && bytes_eq buf normal_door_stat
    then set_stat closed w''
    else if bytes_eq buf lock_door_cmd
    then set_stat locked w''
    else w''

unfoldable pub mqtt_message_cb_with : ℕ → List ℕ → Preempted → Preempted
unfolding obey_with
mqtt_message_cb_with cur_time buffer w = obey_with cur_time (message_text buffer) w
