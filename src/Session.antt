-- ===== src/Session.antt =====
-- smartDoor/smart_door.c, the MQTT session and the main loop, over the client of the MQTT library. A
-- call of the library may deliver messages to `mqtt_message_cb` before it returns.
mod Context
pub mod PacketId
pub mod Open
pub mod Lock
pub mod Requests
pub mod Near
pub mod Rounds
pub mod Start
pub mod Keeps
pub mod NoEntry
mod Tests
use smart_door_lock.Base.{
  ℕ, zero, suc, ◌+◌, ◌%◌, ◌^◌, ◌<◌, List, [], ◌∷◌, ◌++◌, Bool, true, false, leb, length,
  if◌then◌else◌,
}
use smart_door_lock.Base.Bytes.{codes}
pub use smart_door_lock.Session.Context.{
  Connect, Message, Topic, MqttCtx, zero_ctx, topic_send, topic_recv, lwt, default_mqtt_qos,
}
unfoldable pub use smart_door_lock.Session.Context.{bz_mqtt_ctx, mqtt_init_ctx}
use smart_door_lock.Exec.{Result, ok, err, fault, Exec, pure, raise, check, ◌>>=◌, ◌>>◌}
use smart_door_lock.Door.{Door, is_closed, mqtt_message_cb, mqtt_max_packet_sz}
use smart_door_lock.Scan.{BtDeviceLst, SentLst, ScanEvent, sl_bt_on_event, send_device}

-- The codes that the program tells apart; those of errors are negative.
pub data ReturnCode : Type 0 where
  mqtt_code_success mqtt_code_error_timeout other_error : ReturnCode

-- A call of the library: its code, the messages that it delivered with the times of their delivery,
-- and the client afterwards.
abbrev pub Call : Type 0 → Type 0
Call C = C → ReturnCode × List (ℕ × List ℕ) × C

-- The MQTT library. A client is all of its state, with the containers and buffers that the program
-- gives it and the network below it. What it reads of the program's structures is an argument.
pub record Library : Type 1 where
  pub Client : Type 0
  pub max_packet_id : ℕ
  -- The zeroing of its containers and buffers, and `MqttClientNet_Init`.
  pub prepare : Client → Client
  pub client_init : (tx_buf_len rx_buf_len cmd_timeout_ms : ℕ) → Call Client
  pub client_net_connect : (host : List ℕ) → (port timeout_ms use_tls : ℕ) → Call Client
  pub client_connect : Connect → (lwt_msg : Message) → Call Client
  pub client_subscribe : (packet_id : ℕ) → List Topic → Call Client
  -- On a copy of the context, as `publish_msg` takes it.
  pub client_publish : (packet_id : ℕ) → Message → Call Client
  pub client_wait_message : (timeout_ms : ℕ) → Call Client
  pub client_ping : Call Client
  pub client_disconnect : Call Client
  pub client_net_de_init : Client → Client

-- An event of the scanner, with what `cur_time()` returns while `sl_bt_on_event` handles it.
abbrev pub TimedEvent : Type 0
TimedEvent = (ℕ → ℕ) × ScanEvent

-- The globals of smart_door.c. `led1` is LED 1.
pub record App (Client : Type 0) : Type 0 where
  pub client : Client
  pub mqt : MqttCtx
  pub m_packet_id_last : ℕ
  pub dr_iot : Door
  pub led1 : Bool
  pub bt_lst : BtDeviceLst
  pub sent_lst : SentLst

-- The callback for each message, in the order of delivery.
unfoldable pub deliver : List (ℕ × List ℕ) → Door → Door
deliver [] d = d
deliver ((time, buffer) ∷ ms) d = deliver ms (mqtt_message_cb time buffer d)

-- `mqtt_get_packetid`, with the id in a `word16`: the id is returned, and is the last one then.
unfoldable pub mqtt_get_packetid : (max_packet_id last : ℕ) → ℕ
mqtt_get_packetid max_packet_id last = if leb max_packet_id last then 1 else (last + 1) % 2 ^ 16

module _ (lib : Library) where
  abbrev pub AppState : Type 0
  AppState = App lib.Client

  unfoldable pub call : Call lib.Client → Exec AppState ReturnCode
  unfolding deliver
  call m a =
      let (rc, ms, c) = m a.client in (ok rc, record a { client = c; dr_iot = deliver ms a.dr_iot })

  -- `if (rc != MQTT_CODE_SUCCESS) return FAIL;`
  abbrev pub succeeded : ReturnCode → Exec AppState (Unit {0})
  succeeded mqtt_code_success = pure tt
  succeeded mqtt_code_error_timeout = raise
  succeeded other_error = raise

  unfoldable pub next_id : Exec AppState ℕ
  unfolding mqtt_get_packetid
  next_id a =
      let id = mqtt_get_packetid lib.max_packet_id a.m_packet_id_last in
      (ok id, record a { m_packet_id_last = id })

  abbrev pub set_connect : Connect → AppState → AppState
  set_connect c a = record a { mqt = record a.mqt { connect = c } }

  unfoldable pub connect_mqtt : Exec AppState (Unit {0})
  unfolding call
  connect_mqtt a =
      let mqt = a.mqt in
      (do rc ← call (lib.client_net_connect mqt.host mqt.port 5000 mqt.use_tls); succeeded rc)
        (set_connect
          (record mqt.connect {
            keep_alive_sec = mqt.keep_alive_sec;
            clean_session = mqt.clean_session;
            client_id = mqt.client_id;
          })
          a)

  -- The test on `enable_lwt`, which was set just before, is true.
  abbrev pub with_lwt : MqttCtx → MqttCtx
  with_lwt mqt = record mqt {
    enable_lwt = 1;
    connect = record mqt.connect { enable_lwt = 1 };
    lwt_msg = record {
      qos = default_mqtt_qos;
      retain = 0;
      topic_name = topic_send;
      buffer = lwt;
      total_len = length lwt % 2 ^ 16;
    };
  }

  unfoldable pub lwt_connect : Exec AppState (Unit {0})
  unfolding call
  lwt_connect a =
      let mqt = with_lwt a.mqt in
      (do rc ← call (lib.client_connect mqt.connect mqt.lwt_msg); succeeded rc)
        (record a { mqt = mqt })

  abbrev pub set_topic : Topic → AppState → AppState
  set_topic t a = record a { mqt = record a.mqt { topic = t } }

  unfoldable pub subscribes : Exec AppState (Unit {0})
  unfolding call next_id
  subscribes a =
      let topic : Topic = record a.mqt.topic { topic_filter = topic_recv } in
      (do id ← next_id; rc ← call (lib.client_subscribe id (topic ∷ [])); succeeded rc)
        (set_topic topic a)

  -- The structure is filled in the function's copy of the context.
  unfoldable pub publish_msg : List ℕ → List ℕ → Exec AppState (Unit {0})
  unfolding call next_id
  publish_msg topic msg a =
      let publish : Message = record a.mqt.publish {
        qos = a.mqt.qos;
        topic_name = topic;
        buffer = msg;
        total_len = length msg % 2 ^ 16;
      } in
      (do id ← next_id; rc ← call (lib.client_publish id publish); succeeded rc) a

  abbrev pub ping_after : ReturnCode → Exec AppState (Unit {0})
  ping_after mqtt_code_success = pure tt
  ping_after mqtt_code_error_timeout = call lib.client_ping >>= succeeded
  ping_after other_error = raise

  -- The code of an error is not told apart from -1: the only caller looks at neither.
  unfoldable pub read_msg : Exec AppState (Unit {0})
  unfolding call
  read_msg a = (do rc ← call (lib.client_wait_message a.mqt.cmd_timeout_ms); ping_after rc) a

  unfoldable pub on_fail : AppState → AppState
  unfolding call
  on_fail a =
      let a' = (call lib.client_disconnect a).1 in
      record a' { client = lib.client_net_de_init a'.client }

  -- `if (... == FAIL) { on_fail(&mqt); return FAIL; }`
  abbrev pub or_fail :
      Result (Unit {0}) × AppState → Exec AppState (Unit {0}) → Result (Unit {0}) × AppState
  or_fail (ok x, a) next = next a
  or_fail (err, a) next = (err, on_fail a)
  or_fail (fault, a) next = (fault, a)

  -- A call whose result is not looked at.
  abbrev pub ignoring : Exec AppState (Unit {0}) → AppState → AppState
  ignoring m a = (m a).1

  abbrev pub set_led1 : Bool → AppState → AppState
  set_led1 on a = record a { led1 = on }

  abbrev pub set_topic_name : List ℕ → AppState → AppState
  set_topic_name name a = record a { mqt = record a.mqt { topic_name = name } }

  -- From the connection on.
  unfoldable pub open_session : Exec AppState (Unit {0})
  unfolding connect_mqtt lwt_connect subscribes publish_msg on_fail
  open_session a = or_fail (connect_mqtt (set_led1 true a)) λ b.
      or_fail (lwt_connect (set_led1 false b)) λ c.
        or_fail (subscribes (set_topic_name topic_recv c)) λ d. (
          ok tt,
          ignoring (publish_msg topic_send (codes "connected")) (set_topic_name topic_send d),
        )

  abbrev pub initialized : Result ReturnCode × AppState → Result (Unit {0}) × AppState
  initialized (ok mqtt_code_success, a) = open_session a
  initialized (ok mqtt_code_error_timeout, a) = (err, a)
  initialized (ok other_error, a) = (err, a)
  initialized (err, a) = (err, a)
  initialized (fault, a) = (fault, a)

  -- `err` is -1. Where `MqttClient_Init` fails nothing is undone.
  unfoldable pub run_mqtt : Exec AppState (Unit {0})
  unfolding call open_session
  run_mqtt a =
      let mqt = mqtt_init_ctx (bz_mqtt_ctx a.mqt) in
      initialized (
        call (lib.client_init mqtt_max_packet_sz mqtt_max_packet_sz mqt.cmd_timeout_ms)
          (record a { client = lib.prepare a.client; mqt = mqt }))

  -- The calls of `sl_bt_step`, with the events that they hand to `sl_bt_on_event` and the readings of
  -- the clock during each.
  unfoldable pub bt_steps : List TimedEvent → BtDeviceLst → BtDeviceLst
  bt_steps [] l = l
  bt_steps ((cur_time, e) ∷ es) l = bt_steps es (sl_bt_on_event cur_time e l)

  unfoldable pub publish_all : List (List ℕ) → AppState → AppState
  unfolding publish_msg
  publish_all [] a = a
  publish_all (m ∷ ms) a = publish_all ms (ignoring (publish_msg topic_send m) a)

  -- The scan and the publication of a round; `send_time` is what `send_device` reads of the clock.
  unfoldable pub scan_and_send : (send_time : ℕ → ℕ) → List TimedEvent → AppState → AppState
  unfolding bt_steps publish_all
  scan_and_send send_time es a =
      let (l, sent, messages) = send_device send_time (bt_steps es a.bt_lst) a.sent_lst in
      publish_all messages (record a { bt_lst = l; sent_lst = sent })

  -- A round of the endless loop of `run_app`, with the events of its ten calls of `sl_bt_step`.
  unfoldable pub run_app_round : (send_time : ℕ → ℕ) → List TimedEvent → AppState → AppState
  unfolding scan_and_send read_msg
  run_app_round send_time es a =
      ignoring read_msg (if is_closed a.dr_iot.stat then scan_and_send send_time es a else a)

  -- `bt_scan`, with the events of its call of `sl_bt_step`.
  unfoldable pub bt_scan : (send_time : ℕ → ℕ) → List TimedEvent → AppState → AppState
  unfolding scan_and_send
  bt_scan send_time es a = if is_closed a.dr_iot.stat then scan_and_send send_time es a else a
