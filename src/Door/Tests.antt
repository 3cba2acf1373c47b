-- ===== src/Door/Tests.antt =====
-- Runs of the door, and the theorems at inputs that meet their hypotheses.
use smart_door_lock.Base.{
  ℕ, ◌≡◌, inl, refl, List, [], ◌∷◌, ◌++◌, true, false, arith, ltb, if◌then◌else◌,
}
use smart_door_lock.Base.Bytes.{codes}
use smart_door_lock.Door.{
  closed, opened, locked, initial, message_text, mqtt_message_cb, open_interval, open_door_cmd,
}
use smart_door_lock.Door.Command.{command_of, react, message-eq-react}
use smart_door_lock.Door.Lock.{
  House, Event, message, timeout, elapse, run, locked_stays, no_entry_without_command, IsShut,
}
use smart_door_lock.Door.Timing.{duration, open_door_lasts}
use smart_door_lock.Door.Preempt.{Preempted, fires, mqtt_message_cb_with}
use smart_door_lock.Door.Preempt.Came.{all_of}
use smart_door_lock.Door.Preempt.Sequential.{message_linearizes}

abbrev house : House
house = record { door = initial; led0 = false; time = 4294960000 }

abbrev locked_house : House
locked_house = record house { door = record { stat = locked; open_time = 0 } }

-- The text ends at a NUL.
lock_with_tail : (mqtt_message_cb 7 (codes "lock" ++ 0 ∷ codes "ed") initial).stat ≡ locked
unfolding mqtt_message_cb
lock_with_tail = refl

message-eq-react_example :
    mqtt_message_cb 7 (codes "open_door") initial
    ≡ react 7 (command_of (message_text (codes "open_door"))) initial
message-eq-react_example = message-eq-react 7 (codes "open_door") initial

abbrev attempts : List Event
attempts = message (codes "open_door") ∷ timeout ∷ elapse 10000 ∷ message (codes "lock") ∷ []

locked_stays_example : (run locked_house attempts).door.stat ≡ locked
unfolding command_of message_text
locked_stays_example =
    locked_stays attempts locked_house
      (((λ e. cc), (λ e. cc)), ((tt, tt), ((tt, tt), (((λ e. cc), (λ e. cc)), tt)))) refl

no_entry_without_command_example :
    let h = run house (message (codes "normal") ∷ timeout ∷ []) in
    IsShut h.door.stat × (h.led0 ≡ false)
unfolding command_of message_text
no_entry_without_command_example =
    no_entry_without_command (message (codes "normal") ∷ timeout ∷ []) house
      (((λ e. cc), (λ e. cc)), ((tt, tt), tt)) (inl refl) refl

-- The clock wraps while the door is open.
open_door_lasts_example :
    let h' = run house (
      message (codes "open_door") ∷ (elapse 20000 ∷ timeout ∷ elapse 9999 ∷ [])
      ++ (timeout ∷ [])) in
    (h'.door.stat ≡ (
      if ltb (duration (elapse 20000 ∷ timeout ∷ elapse 9999 ∷ [])) open_interval
      then opened
      else closed))
    × (h'.led0 ≡ ltb (duration (elapse 20000 ∷ timeout ∷ elapse 9999 ∷ [])) open_interval)
unfolding command_of message_text
open_door_lasts_example =
    open_door_lasts house (codes "open_door") (elapse 20000 ∷ timeout ∷ elapse 9999 ∷ [])
      (omega arith) (λ e. cc) refl (tt, (tt, (tt, tt))) (omega arith)

-- The time of an open door has run out, and the timer's interrupt comes behind each store.
abbrev run_out : Preempted
run_out = record {
  panel = record { door = record { stat = opened; open_time = 7 }; led0 = true };
  upcoming = [] ∷ (40001 ∷ []) ∷ (40002 ∷ []) ∷ [];
}

message_linearizes_example :
    let w' = mqtt_message_cb_with 40000 open_door_cmd run_out in
    (before : List ℕ) × (after : List ℕ) × (all_of run_out.upcoming
      ≡ before ++ (after ++ all_of w'.upcoming))
    × (w'.panel
        ≡ fires after (
            let p = fires before run_out.panel in
            record p { door = mqtt_message_cb 40000 open_door_cmd p.door }))
message_linearizes_example = message_linearizes 40000 open_door_cmd run_out (omega arith)
