-- ===== src/Session/Tests.antt =====
-- The session over a library whose calls give their codes in order.
use smart_door_lock.Base.{
  ℕ, ◌≡◌, ◌≢◌, ◌+◌, ◌++◌, some, none, inl, refl, List, [], ◌∷◌, true, false, arith,
}
use smart_door_lock.Base.Bytes.{codes}
use smart_door_lock.Door.{locked, initial, message_text}
use smart_door_lock.Door.Command.{command_of}
use smart_door_lock.Session.Lock.{SparesLock, AppEvent, round, timer, app_run, app_stays_locked}
use smart_door_lock.Door.Lock.{IsShut}
use smart_door_lock.Base.Int.{negsuc}
use smart_door_lock.Scan.{
  Addr, empty_lst, zero_device, system_boot, scan_report, add_bt_device, is_recorded, is_available,
  same_addr, sent_index, format_addr,
}
use smart_door_lock.Scan.Record.{IsValid}
use smart_door_lock.Scan.Found.{SparesSlot}
use smart_door_lock.Session.{
  ReturnCode, mqtt_code_success, other_error, Call, Library, AppState, zero_ctx, mqtt_get_packetid,
  run_mqtt, bt_steps, run_app_round, publish_all, read_msg, ignoring,
}
use smart_door_lock.Session.PacketId.{packet_id_after, packet_id-fresh}
use smart_door_lock.Session.Requests.{
  code_of, later_codes, recording, requests, dialogue, run_mqtt-dialogue,
}
use smart_door_lock.Session.Start.{run_app}
use smart_door_lock.Session.NoEntry.{IsHarmless, run_app_no_entry}
use smart_door_lock.Session.Rounds.{Stays, never_reconnects}
use smart_door_lock.Session.Near.{near_device_published}

-- No messages are delivered.
abbrev answers : Call (List ReturnCode)
answers cs = (code_of cs, [], later_codes cs)

abbrev library : Library
library = record {
  Client = List ReturnCode;
  max_packet_id = 65535;
  prepare = λ c. c;
  client_init = λ _ _ _. answers;
  client_net_connect = λ _ _ _ _. answers;
  client_connect = λ _ _. answers;
  client_subscribe = λ _ _. answers;
  client_publish = λ _ _. answers;
  client_wait_message = λ _. answers;
  client_ping = answers;
  client_disconnect = answers;
  client_net_de_init = λ c. c;
}

abbrev app : List ReturnCode → AppState library
app cs = record {
  client = cs;
  mqt = zero_ctx;
  m_packet_id_last = 0;
  dr_iot = initial;
  led1 = false;
  bt_lst = empty_lst;
  sent_lst = λ k. zero_device;
}

packet_id-fresh_example : packet_id_after 3 2 2 ≢ 2
packet_id-fresh_example =
    packet_id-fresh 3 2 2 (omega arith) (omega arith) (omega arith) (omega arith) (omega arith)
      (omega arith)

-- The broker sends `open_door` again and again.
abbrev insistent : Library
insistent = record library {
  client_wait_message = λ _ cs. (mqtt_code_success, (7, codes "open_door") ∷ [], cs);
}

insistent-SparesLock : SparesLock insistent
unfolding command_of message_text
insistent-SparesLock = record {
  wait_message = λ t cs. (((λ e. cc), (λ e. cc)), tt);
  ping = λ cs. tt;
}

abbrev while_locked : AppState insistent
while_locked = record (app []) { dr_iot = record { stat = locked; open_time = 5 } }

abbrev two_rounds : List (AppEvent insistent)
two_rounds = round (λ k. 7) (((λ k. 6), system_boot) ∷ []) ∷ timer 9 ∷ round (λ k. 7) [] ∷ []

app_stays_locked_example : (app_run insistent while_locked two_rounds).dr_iot.stat ≡ locked
app_stays_locked_example =
    app_stays_locked insistent two_rounds while_locked insistent-SparesLock refl

-- The broker refuses the will.
abbrev recorded : AppState (recording 65535)
recorded = record {
  client = record { codes = mqtt_code_success ∷ mqtt_code_success ∷ other_error ∷ []; log = [] };
  mqt = zero_ctx;
  m_packet_id_last = 0;
  dr_iot = initial;
  led1 = false;
  bt_lst = empty_lst;
  sent_lst = λ k. zero_device;
}

run_mqtt-dialogue_example :
    (requests 65535 (run_mqtt (recording 65535) recorded)
      ≡ dialogue
          (mqtt_get_packetid 65535 0)
          (mqtt_get_packetid 65535 (mqtt_get_packetid 65535 0))
          0
          (mqtt_code_success ∷ mqtt_code_success ∷ other_error ∷ []))
    × ((run_mqtt (recording 65535) recorded).1.led1 ≡ false)
run_mqtt-dialogue_example =
    run_mqtt-dialogue 65535 (mqtt_code_success ∷ mqtt_code_success ∷ other_error ∷ []) recorded refl

abbrev rounds : List (AppEvent library)
rounds = round (λ k. 7) (((λ k. 6), system_boot) ∷ []) ∷ timer 9 ∷ []

abbrev after_rounds : AppState library
after_rounds = app_run library (run_mqtt library (app [])).1 rounds

rounds_run : run_app library 1 rounds (app []) ≡ some after_rounds
unfolding run_app run_mqtt
rounds_run = refl

library-IsHarmless : IsHarmless library
library-IsHarmless = record {
  init = λ t r m c. tt;
  net_connect = λ h p t u c. tt;
  connect = λ k m c. tt;
  subscribe = λ i ts c. tt;
  publish = λ i m c. tt;
  wait_message = λ t c. tt;
  ping = λ c. tt;
  disconnect = λ c. tt;
}

run_app_no_entry_example : IsShut after_rounds.dr_iot.stat
run_app_no_entry_example =
    run_app_no_entry library 1 rounds (app []) after_rounds library-IsHarmless (inl refl) rounds_run

abbrev phone : Addr
phone = record { a0 = 0x4A; a1 = 0x00; a2 = 0xFF; a3 = 0x12; a4 = 0x3C; a5 = 0xD0 }

-- The clock is read for each of the five entries and for the new one, and then while the entries
-- are sent.
abbrev heard_at : ℕ → ℕ
heard_at k = 40000 + k

abbrev sending_at : ℕ → ℕ
sending_at k = 40020 + k

phone_accepted : (add_bt_device heard_at phone empty_lst).0 ≢ none
unfolding add_bt_device is_recorded is_available same_addr
phone_accepted e = absurd (cc)

phone-is_available : is_available (sending_at 0) zero_device phone ≡ true
unfolding is_available same_addr
phone-is_available = refl

no_device : SparesSlot (sent_index phone) zero_device
no_device h = absurd (h refl)

empty_lst-IsValid : IsValid empty_lst
empty_lst-IsValid = omega arith

near_device_published_example :
    (front back : List (List ℕ)) × (b : AppState library) × (b.client ≡ [])
    × (run_app_round library sending_at ((heard_at, scan_report (negsuc 41) phone) ∷ []) (app [])
        ≡ ignoring library
            (read_msg library)
            (publish_all library (front ++ format_addr phone ∷ back) b))
unfolding bt_steps
near_device_published_example =
    near_device_published library sending_at heard_at (negsuc 41) [] phone (app []) refl refl
      empty_lst-IsValid phone_accepted (λ e. absurd (omega (arith, e))) phone-is_available
      (no_device, (no_device, (no_device, (no_device, (no_device, tt)))))

-- The connection is lost while the program waits.
abbrev lost : List (AppEvent (recording 65535))
lost = round (λ k. 7) (((λ k. 6), system_boot) ∷ []) ∷ timer 9 ∷ round (λ k. 8) [] ∷ []

never_reconnects_example : Stays 65535 recorded (app_run (recording 65535) recorded lost)
never_reconnects_example = never_reconnects 65535 lost recorded
