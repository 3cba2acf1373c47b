-- ===== src/Session/Requests.antt =====
-- What `run_mqtt` asks of the MQTT library, call by call, against a library that writes its calls down
-- and answers them with any codes.
use smart_door_lock.Base.{ℕ, Bool, true, false, ◌≡◌, refl, sym, subst, List, [], ◌∷◌, ◌++◌, length}
use smart_door_lock.Base.Bytes.{codes}
use smart_door_lock.Exec.{Result, ok, err}
use smart_door_lock.Session.{
  ReturnCode, mqtt_code_success, mqtt_code_error_timeout, other_error, Call, Library, Connect,
  Message, Topic, AppState, topic_send, topic_recv, lwt, mqtt_get_packetid, run_mqtt, bz_mqtt_ctx,
  mqtt_init_ctx,
}

pub data Request : Type 0 where
  init : (tx_buf_len rx_buf_len cmd_timeout_ms : ℕ) → Request
  net_connect : (host : List ℕ) → (port timeout_ms use_tls : ℕ) → Request
  connect : Connect → Message → Request
  subscribe : ℕ → List Topic → Request
  publish : ℕ → Message → Request
  wait_message : ℕ → Request
  ping disconnect net_de_init : Request

-- The codes to come, and the calls so far.
pub record Recorder : Type 0 where
  pub codes : List ReturnCode
  pub log : List Request

abbrev pub code_of : List ReturnCode → ReturnCode
code_of [] = mqtt_code_success
code_of (c ∷ cs) = c

abbrev pub later_codes : List ReturnCode → List ReturnCode
later_codes [] = []
later_codes (c ∷ cs) = cs

abbrev answer : Request → Call Recorder
answer r c = (code_of c.codes, [], record { codes = later_codes c.codes; log = c.log ++ (r ∷ []) })

abbrev pub recording : ℕ → Library
recording max_packet_id = record {
  Client = Recorder;
  max_packet_id = max_packet_id;
  prepare = λ c. c;
  client_init = λ t r m. answer (init t r m);
  client_net_connect = λ h p t u. answer (net_connect h p t u);
  client_connect = λ k m. answer (connect k m);
  client_subscribe = λ i ts. answer (subscribe i ts);
  client_publish = λ i m. answer (publish i m);
  client_wait_message = λ t. answer (wait_message t);
  client_ping = answer ping;
  client_disconnect = answer disconnect;
  client_net_de_init = λ c. record c { log = c.log ++ (net_de_init ∷ []) };
}

abbrev text_message : (topic text : List ℕ) → Message
text_message topic text = record {
  qos = 1;
  retain = 0;
  topic_name = topic;
  buffer = text;
  total_len = length text;
}

-- Requests that are made in order as long as they succeed; a failure closes the session.
abbrev in_order : List Request → Request → List ReturnCode → List Request × Result (Unit {0})
in_order [] last cs = (last ∷ [], ok tt)
in_order (r ∷ rs) last [] = let (made, result) = in_order rs last [] in (r ∷ made, result)
in_order (r ∷ rs) last (mqtt_code_success ∷ cs) =
    let (made, result) = in_order rs last cs in (r ∷ made, result)
in_order (r ∷ rs) last (mqtt_code_error_timeout ∷ cs) = (r ∷ disconnect ∷ net_de_init ∷ [], err)
in_order (r ∷ rs) last (other_error ∷ cs) = (r ∷ disconnect ∷ net_de_init ∷ [], err)

-- The requests of a session with the packet ids `id` and `id'`.
abbrev pub dialogue : (id id' use_tls : ℕ) → List ReturnCode → List Request × Result (Unit {0})
dialogue id id' use_tls (mqtt_code_error_timeout ∷ cs) = (init 512 512 15000 ∷ [], err)
dialogue id id' use_tls (other_error ∷ cs) = (init 512 512 15000 ∷ [], err)
dialogue id id' use_tls cs =
    let (made, result) =
      in_order
        (net_connect (codes "broker.mqttdashboard.com") 1883 5000 use_tls
          ∷ connect
              (record {
                keep_alive_sec = 720;
                clean_session = 0;
                client_id = codes "hujiIotMichIdo ";
                enable_lwt = 1;
              })
              (text_message topic_send lwt)
          ∷ subscribe id (record { topic_filter = topic_recv; qos = 1 } ∷ [])
          ∷ [])
        (publish id' (text_message topic_send (codes "connected"))) (later_codes cs) in
    (init 512 512 15000 ∷ made, result)

abbrev pub requests :
    (n : ℕ) → Result (Unit {0}) × AppState (recording n) → List Request × Result (Unit {0})
requests n (r, a) = (a.client.log, r)

abbrev from_start : (n : ℕ) → List ReturnCode → AppState (recording n) → AppState (recording n)
from_start n cs a = record a { client = record { codes = cs; log = [] } }

-- Whether the network connection has failed.
abbrev unconnected : List ReturnCode → Bool
unconnected [] = false
unconnected (mqtt_code_success ∷ cs) = false
unconnected (mqtt_code_error_timeout ∷ cs) = true
unconnected (other_error ∷ cs) = true

-- LED 1 afterwards: it stays as it was where the set-up has failed.
abbrev pub led1_after : Bool → List ReturnCode → Bool
led1_after on (mqtt_code_error_timeout ∷ cs) = on
led1_after on (other_error ∷ cs) = on
led1_after on cs = unconnected (later_codes cs)

run_mqtt-answers :
    (n : ℕ) (cs : List ReturnCode) (a : AppState (recording n))
    → let id = mqtt_get_packetid n a.m_packet_id_last in
      (requests n (run_mqtt (recording n) (from_start n cs a))
        ≡ dialogue id (mqtt_get_packetid n id) a.mqt.use_tls cs)
      × ((run_mqtt (recording n) (from_start n cs a)).1.led1 ≡ led1_after a.led1 cs)
unfolding run_mqtt bz_mqtt_ctx mqtt_init_ctx
run_mqtt-answers n [] a = (refl, refl)
run_mqtt-answers n (mqtt_code_error_timeout ∷ cs) a = (refl, refl)
run_mqtt-answers n (other_error ∷ cs) a = (refl, refl)
run_mqtt-answers n (mqtt_code_success ∷ []) a = (refl, refl)
run_mqtt-answers n (mqtt_code_success ∷ mqtt_code_error_timeout ∷ cs) a = (refl, refl)
run_mqtt-answers n (mqtt_code_success ∷ other_error ∷ cs) a = (refl, refl)
run_mqtt-answers n (mqtt_code_success ∷ mqtt_code_success ∷ []) a = (refl, refl)
run_mqtt-answers n (mqtt_code_success ∷ mqtt_code_success ∷ mqtt_code_error_timeout ∷ cs) a =
    (refl, refl)
run_mqtt-answers n (mqtt_code_success ∷ mqtt_code_success ∷ other_error ∷ cs) a = (refl, refl)
run_mqtt-answers n (mqtt_code_success ∷ mqtt_code_success ∷ mqtt_code_success ∷ []) a = (refl, refl)
run_mqtt-answers n
      (mqtt_code_success ∷ mqtt_code_success ∷ mqtt_code_success ∷ mqtt_code_error_timeout ∷ cs) a =
    (refl, refl)
run_mqtt-answers n (mqtt_code_success ∷ mqtt_code_success ∷ mqtt_code_success ∷ other_error ∷ cs)
      a =
    (refl, refl)
run_mqtt-answers n
      (mqtt_code_success ∷ mqtt_code_success ∷ mqtt_code_success ∷ mqtt_code_success ∷ []) a =
    (refl, refl)
run_mqtt-answers n
      (mqtt_code_success ∷ mqtt_code_success ∷ mqtt_code_success ∷ mqtt_code_success
        ∷ mqtt_code_error_timeout ∷ cs)
      a =
    (refl, refl)
run_mqtt-answers n
      (mqtt_code_success ∷ mqtt_code_success ∷ mqtt_code_success ∷ mqtt_code_success ∷ other_error
        ∷ cs)
      a =
    (refl, refl)
run_mqtt-answers n
      (mqtt_code_success ∷ mqtt_code_success ∷ mqtt_code_success ∷ mqtt_code_success
        ∷ mqtt_code_success ∷ cs)
      a =
    (refl, refl)

-- Whatever codes the library answers with, and whatever the context held before, `run_mqtt` makes the
-- requests of the dialogue and returns its result: it connects to the broker and then as a client with
-- a last will, subscribes to the door's topic and announces itself, in this order, as long as the
-- library answers with success; at the first other answer behind the set-up it disconnects, takes
-- down the network and returns -1, and the answer to the announcement does not count. LED 1 is on
-- afterwards exactly if the network connection has failed; it stays as it was if the set-up has.
pub run_mqtt-dialogue :
    (max_packet_id : ℕ) (cs : List ReturnCode) (a : AppState (recording max_packet_id))
    → a.client ≡ record { codes = cs; log = [] }
    → let id = mqtt_get_packetid max_packet_id a.m_packet_id_last in
      (requests max_packet_id (run_mqtt (recording max_packet_id) a)
        ≡ dialogue id (mqtt_get_packetid max_packet_id id) a.mqt.use_tls cs)
      × ((run_mqtt (recording max_packet_id) a).1.led1 ≡ led1_after a.led1 cs)
run_mqtt-dialogue n cs a e =
    let id = mqtt_get_packetid n a.m_packet_id_last in
    subst
      (λ c.
        let b = run_mqtt (recording n) (record a { client = c }) in
        (requests n b ≡ dialogue id (mqtt_get_packetid n id) a.mqt.use_tls cs)
        × (b.1.led1 ≡ led1_after a.led1 cs))
      (sym e) (run_mqtt-answers n cs a)
