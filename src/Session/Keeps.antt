-- ===== src/Session/Keeps.antt =====
-- What holds of the door whatever the MQTT library delivers in the calls of the program: a property
-- that its messages and the timer keep holds as long as the program runs.
use smart_door_lock.Base.{
  ℕ, zero, suc, ◌≡◌, List, [], ◌∷◌, true, false, Option, none, some, subst, refl, Bool-cases, inl,
  inr,
}
use smart_door_lock.Base.Bytes.{codes}
use smart_door_lock.Exec.{Result, ok, err, fault, Exec}
use smart_door_lock.Door.{Door, periodic_timeout, is_closed, mqtt_max_packet_sz}
use smart_door_lock.Scan.{send_device}
use smart_door_lock.Session.{
  TimedEvent, ReturnCode, mqtt_code_success, mqtt_code_error_timeout, other_error, Connect, Message,
  Topic, Library, AppState, deliver, call, succeeded, ping_after, read_msg, connect_mqtt,
  lwt_connect, subscribes, publish_msg, on_fail, or_fail, open_session, run_mqtt, publish_all,
  scan_and_send, run_app_round, ignoring, initialized, next_id, bt_steps, mqtt_init_ctx,
  bz_mqtt_ctx, set_led1, set_topic_name, topic_send, topic_recv,
}
use smart_door_lock.Session.Lock.{AppEvent, round, timer, app_step, app_run}
use smart_door_lock.Session.Start.{attempted, connect_until, run_app}

module _ (lib : Library) (P : Door → Type 0) where
  abbrev pub Keeps : List (ℕ × List ℕ) → Type 0
  Keeps ms = (d : Door) → P d → P (deliver ms d)

  -- Whatever the program calls, the library delivers no message that ends `P`, nor does the timer.
  pub record Spares : Type 0 where
    pub init : (t r m : ℕ) (c : lib.Client) → Keeps (lib.client_init t r m c).1
    pub net_connect :
        (h : List ℕ) (p t u : ℕ) (c : lib.Client) → Keeps (lib.client_net_connect h p t u c).1
    pub connect : (k : Connect) (m : Message) (c : lib.Client) → Keeps (lib.client_connect k m c).1
    pub subscribe :
        (i : ℕ) (ts : List Topic) (c : lib.Client) → Keeps (lib.client_subscribe i ts c).1
    pub publish : (i : ℕ) (m : Message) (c : lib.Client) → Keeps (lib.client_publish i m c).1
    pub wait_message : (t : ℕ) (c : lib.Client) → Keeps (lib.client_wait_message t c).1
    pub ping : (c : lib.Client) → Keeps (lib.client_ping c).1
    pub disconnect : (c : lib.Client) → Keeps (lib.client_disconnect c).1
    pub timeout : (now : ℕ) (d : Door) → P d → P (periodic_timeout now d).0

  abbrev Holds : AppState lib → Type 0
  Holds a = P a.dr_iot

  module _ (k : Spares) where
    succeeded-Holds : (rc : ReturnCode) (a : AppState lib) → Holds a → Holds (succeeded lib rc a).1
    succeeded-Holds mqtt_code_success a h = h
    succeeded-Holds mqtt_code_error_timeout a h = h
    succeeded-Holds other_error a h = h

    connect_mqtt-Holds : (a : AppState lib) → Holds a → Holds (connect_mqtt lib a).1
    unfolding connect_mqtt call
    connect_mqtt-Holds a h =
        succeeded-Holds _ _
          (k.net_connect a.mqt.host a.mqt.port 5000 a.mqt.use_tls a.client a.dr_iot h)

    lwt_connect-Holds : (a : AppState lib) → Holds a → Holds (lwt_connect lib a).1
    unfolding lwt_connect call
    lwt_connect-Holds a h = succeeded-Holds _ _ (k.connect _ _ a.client a.dr_iot h)

    subscribes-Holds : (a : AppState lib) → Holds a → Holds (subscribes lib a).1
    unfolding subscribes call next_id
    subscribes-Holds a h = succeeded-Holds _ _ (k.subscribe _ _ a.client a.dr_iot h)

    publish_msg-Holds :
        (t m : List ℕ) (a : AppState lib) → Holds a → Holds (publish_msg lib t m a).1
    unfolding publish_msg call next_id
    publish_msg-Holds t m a h = succeeded-Holds _ _ (k.publish _ _ a.client a.dr_iot h)

    on_fail-Holds : (a : AppState lib) → Holds a → Holds (on_fail lib a)
    unfolding on_fail call
    on_fail-Holds a h = k.disconnect a.client a.dr_iot h

    or_fail-Holds :
        (r : Result (Unit {0}) × AppState lib) (next : Exec (AppState lib) (Unit {0}))
        → Holds r.1
        → ((b : AppState lib) → Holds b → Holds (next b).1)
        → Holds (or_fail lib r next).1
    or_fail-Holds (ok x, a) next h n = n a h
    or_fail-Holds (err, a) next h n = on_fail-Holds a h
    or_fail-Holds (fault, a) next h n = h

    -- What follows the connection.
    abbrev third : Exec (AppState lib) (Unit {0})
    third d = (
      ok tt,
      ignoring lib (publish_msg lib topic_send (codes "connected"))
          (set_topic_name lib topic_send d),
    )

    abbrev second : Exec (AppState lib) (Unit {0})
    second c = or_fail lib (subscribes lib (set_topic_name lib topic_recv c)) third

    abbrev first : Exec (AppState lib) (Unit {0})
    first b = or_fail lib (lwt_connect lib (set_led1 lib false b)) second

    open_session-Holds : (a : AppState lib) → Holds a → Holds (open_session lib a).1
    unfolding open_session
    open_session-Holds a h =
        or_fail-Holds (connect_mqtt lib (set_led1 lib true a)) first
          (connect_mqtt-Holds (set_led1 lib true a) h)
          λ b hb.
            or_fail-Holds (lwt_connect lib (set_led1 lib false b)) second
              (lwt_connect-Holds (set_led1 lib false b) hb)
              λ c hc.
                or_fail-Holds (subscribes lib (set_topic_name lib topic_recv c)) third
                  (subscribes-Holds (set_topic_name lib topic_recv c) hc)
                  λ d hd.
                    publish_msg-Holds topic_send (codes "connected")
                      (set_topic_name lib topic_send d) hd

    initialized-Holds :
        (r : Result ReturnCode × AppState lib) → Holds r.1 → Holds (initialized lib r).1
    initialized-Holds (ok mqtt_code_success, a) h = open_session-Holds a h
    initialized-Holds (ok mqtt_code_error_timeout, a) h = h
    initialized-Holds (ok other_error, a) h = h
    initialized-Holds (err, a) h = h
    initialized-Holds (fault, a) h = h

    run_mqtt-Holds : (a : AppState lib) → Holds a → Holds (run_mqtt lib a).1
    unfolding run_mqtt call
    run_mqtt-Holds a h =
        let mqt = mqtt_init_ctx (bz_mqtt_ctx a.mqt) in
        let r =
          call lib (lib.client_init mqtt_max_packet_sz mqtt_max_packet_sz mqt.cmd_timeout_ms)
            (record a { client = lib.prepare a.client; mqt = mqt }) in
        initialized-Holds r (k.init _ _ mqt.cmd_timeout_ms (lib.prepare a.client) a.dr_iot h)

    attempted-Holds :
        (r : Result (Unit {0}) × AppState lib) (next : Option (AppState lib)) (b : AppState lib)
        → Holds r.1
        → (next ≡ some b → Holds b)
        → attempted r next ≡ some b
        → Holds b
    attempted-Holds (ok x, a) next b h n e = let same : a ≡ b = cc in subst Holds same h
    attempted-Holds (err, a) next b h n e = n e
    attempted-Holds (fault, a) next b h n e = absurd (cc)

    connect_until-Holds :
        (f : ℕ) (a b : AppState lib) → Holds a → connect_until lib f a ≡ some b → Holds b
    unfolding connect_until
    connect_until-Holds zero a b h e = absurd (cc)
    connect_until-Holds (suc f) a b h e =
        attempted-Holds (run_mqtt lib a) _ b (run_mqtt-Holds a h)
          (connect_until-Holds f _ b (run_mqtt-Holds a h)) e

    ping_after-Holds :
        (rc : ReturnCode) (a : AppState lib) → Holds a → Holds (ping_after lib rc a).1
    unfolding call
    ping_after-Holds mqtt_code_success a h = h
    ping_after-Holds mqtt_code_error_timeout a h = succeeded-Holds _ _ (k.ping a.client a.dr_iot h)
    ping_after-Holds other_error a h = h

    read_msg-Holds : (a : AppState lib) → Holds a → Holds (read_msg lib a).1
    unfolding read_msg call
    read_msg-Holds a h = ping_after-Holds _ _ (k.wait_message _ a.client a.dr_iot h)

    publish_all-Holds :
        (ms : List (List ℕ)) (a : AppState lib) → Holds a → Holds (publish_all lib ms a)
    unfolding publish_all
    publish_all-Holds [] a h = h
    publish_all-Holds (m ∷ ms) a h = publish_all-Holds ms _ (publish_msg-Holds topic_send m a h)

    scan_and_send-Holds :
        (send_time : ℕ → ℕ) (es : List TimedEvent) (a : AppState lib)
        → Holds a
        → Holds (scan_and_send lib send_time es a)
    unfolding scan_and_send
    scan_and_send-Holds send_time es a h =
        let (l, sent, messages) = send_device send_time (bt_steps lib es a.bt_lst) a.sent_lst in
        publish_all-Holds messages (record a { bt_lst = l; sent_lst = sent }) h

    round-Holds :
        (send_time : ℕ → ℕ) (es : List TimedEvent) (a : AppState lib)
        → Holds a
        → Holds (run_app_round lib send_time es a)
    unfolding run_app_round
    round-Holds send_time es a h = elim (Bool-cases (is_closed a.dr_iot.stat)) [
      | inl e ↦ rw e (read_msg-Holds _ (scan_and_send-Holds send_time es a h))
      | inr e ↦ rw e (read_msg-Holds a h)
    ]

    app_step-Holds : (a : AppState lib) (e : AppEvent lib) → Holds a → Holds (app_step lib a e)
    unfolding app_step
    app_step-Holds a (round send_time es) h = round-Holds send_time es a h
    app_step-Holds a (timer now) h = k.timeout now a.dr_iot h

    app_run-Holds :
        (es : List (AppEvent lib)) (a : AppState lib) → Holds a → Holds (app_run lib a es)
    unfolding app_run
    app_run-Holds [] a h = h
    app_run-Holds (e ∷ es) a h = app_run-Holds es _ (app_step-Holds a e h)

    pub run_app-Holds :
        (f : ℕ) (es : List (AppEvent lib)) (a b : AppState lib)
        → Holds a
        → run_app lib f es a ≡ some b
        → Holds b
    unfolding run_app
    run_app-Holds f es a b h e = by_start (connect_until lib f a) refl e
      where
        by_start :
            (o : Option (AppState lib))
            → connect_until lib f a ≡ o
            → (elim o [ none ↦ none | some c ↦ some (app_run lib c es) ]) ≡ some b
            → Holds b
        by_start none s e' = absurd (cc)
        by_start (some c) s e' =
            let same : app_run lib c es ≡ b = cc in
            subst Holds same (app_run-Holds es c (connect_until-Holds f a c h s))
