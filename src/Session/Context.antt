-- ===== src/Session/Context.antt =====
-- `MQTTCtx` of smartDoor/MQTTClient.h, as far as the program sets or reads it, and the two functions
-- of smartDoor/smart_door.c that fill it. The containers `client` and `net` are the MQTT library's.
use smart_door_lock.Base.{ℕ, List, []}
use smart_door_lock.Base.Bytes.{codes}

-- `MqttConnect` without its will.
pub record Connect : Type 0 where
  pub keep_alive_sec : ℕ
  pub clean_session : ℕ
  pub client_id : List ℕ
  pub enable_lwt : ℕ

-- `MqttMessage`, also the part of `MqttPublish` that it shares.
pub record Message : Type 0 where
  pub qos : ℕ
  pub retain : ℕ
  pub topic_name : List ℕ
  pub buffer : List ℕ
  pub total_len : ℕ

-- `MqttTopic`
pub record Topic : Type 0 where
  pub topic_filter : List ℕ
  pub qos : ℕ

pub record MqttCtx : Type 0 where
  pub connect : Connect
  pub lwt_msg : Message
  pub publish : Message
  pub topic : Topic
  pub qos : ℕ
  pub host : List ℕ
  pub topic_name : List ℕ
  pub client_id : List ℕ
  pub use_tls : ℕ
  pub enable_lwt : ℕ
  pub cmd_timeout_ms : ℕ
  pub keep_alive_sec : ℕ
  pub port : ℕ
  pub clean_session : ℕ

-- What `bzero` leaves.
abbrev pub zero_connect : Connect
zero_connect = record { keep_alive_sec = 0; clean_session = 0; client_id = []; enable_lwt = 0 }

abbrev pub zero_message : Message
zero_message = record { qos = 0; retain = 0; topic_name = []; buffer = []; total_len = 0 }

-- `static MQTTCtx mqt = {0};`
abbrev pub zero_ctx : MqttCtx
zero_ctx = record {
  connect = zero_connect;
  lwt_msg = zero_message;
  publish = zero_message;
  topic = record { topic_filter = []; qos = 0 };
  qos = 0;
  host = [];
  topic_name = [];
  client_id = [];
  use_tls = 0;
  enable_lwt = 0;
  cmd_timeout_ms = 0;
  keep_alive_sec = 0;
  port = 0;
  clean_session = 0;
}

abbrev pub default_mqtt_qos : ℕ
default_mqtt_qos = 1

abbrev pub topic_send : List ℕ
topic_send = codes "smart_door_lock/iot/device_send"

abbrev pub topic_recv : List ℕ
topic_recv = codes "smart_door_lock/iot/device_recv"

-- `LWT`, the message that the broker sends when the connection breaks.
abbrev pub lwt : List ℕ
lwt = codes "{\n    \"DisconnectedGracefully\":false\n}"

-- `bz_mqttCtx`
unfoldable pub bz_mqtt_ctx : MqttCtx → MqttCtx
bz_mqtt_ctx ctx = record ctx {
  connect = zero_connect;
  publish = zero_message;
  lwt_msg = zero_message;
}

-- `mqtt_init_ctx`
unfoldable pub mqtt_init_ctx : MqttCtx → MqttCtx
mqtt_init_ctx ctx = record ctx {
  host = codes "broker.mqttdashboard.com";
  port = 1883;
  qos = default_mqtt_qos;
  clean_session = 0;
  keep_alive_sec = 720;
  client_id = codes "hujiIotMichIdo ";
  topic_name = topic_send;
  cmd_timeout_ms = 15000;
  topic = record ctx.topic { qos = default_mqtt_qos };
}
