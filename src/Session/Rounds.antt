-- ===== src/Session/Rounds.antt =====
-- What the endless loop of `run_app` asks of the MQTT library, against the library that writes its
-- calls down.
use smart_door_lock.Base.{
  ℕ, ◌≡◌, ◌∙◌, refl, sym, ap, List, [], ◌∷◌, ◌++◌, Bool, true, false, All, Bool-cases, inl, inr,
  append-nil, append_assoc, length, ◌%◌, ◌^◌,
}
use smart_door_lock.Door.{is_closed}
use smart_door_lock.Scan.{send_device}
use smart_door_lock.Session.{
  TimedEvent, Call, Message, mqtt_get_packetid, ReturnCode, mqtt_code_success,
  mqtt_code_error_timeout, other_error, AppState, call, next_id, succeeded, ping_after, read_msg,
  publish_msg, publish_all, bt_steps, scan_and_send, run_app_round, topic_send,
}
use smart_door_lock.Session.Lock.{AppEvent, round, timer, app_step, app_run}
use smart_door_lock.Session.Requests.{Recorder, Request, publish, wait_message, ping, recording}

-- Not one of the requests that open or close a session.
abbrev pub within_session : Request → Bool
within_session (publish id m) = true
within_session (wait_message t) = true
within_session ping = true
within_session _ = false

abbrev pub WithinSession : Request → Type 0
WithinSession r = within_session r ≡ true

All-append :
    (xs ys : List Request)
    → All WithinSession xs
    → All WithinSession ys
    → All WithinSession (xs ++ ys)
All-append [] ys h k = k
All-append (x ∷ xs) ys h k = (h.0, All-append xs ys h.1 k)

module _ (n : ℕ) where
  -- From a state to a later one the program has made such requests only.
  pub record Stays (a b : AppState (recording n)) : Type 0 where
    pub made : List Request
    pub logged : b.client.log ≡ a.client.log ++ made
    pub within : All WithinSession made

  Stays-refl : (a : AppState (recording n)) → Stays a a
  Stays-refl a = record { made = []; logged = sym (append-nil a.client.log); within = tt }

  Stays-trans : (a b c : AppState (recording n)) → Stays a b → Stays b c → Stays a c
  Stays-trans a b c s t = record {
    made = s.made ++ t.made;
    logged = t.logged ∙ ap (λ l. l ++ t.made) s.logged ∙ append_assoc a.client.log s.made t.made;
    within = All-append s.made t.made s.within t.within;
  }

  succeeded-Stays :
      (rc : ReturnCode) (a b : AppState (recording n))
      → Stays a b
      → Stays a (succeeded (recording n) rc b).1
  succeeded-Stays mqtt_code_success a b s = s
  succeeded-Stays mqtt_code_error_timeout a b s = s
  succeeded-Stays other_error a b s = s

  -- A call that writes down such a request.
  call-Stays :
      (m : Call Recorder) (r : Request) (a : AppState (recording n))
      → ((c : Recorder) → (m c).2.log ≡ c.log ++ r ∷ [])
      → WithinSession r
      → Stays a (call (recording n) m a).1
  unfolding call
  call-Stays m r a logs within = record {
    made = r ∷ [];
    logged = logs a.client;
    within = (within, tt);
  }

  publish_msg-Stays :
      (t m : List ℕ) (a : AppState (recording n)) → Stays a (publish_msg (recording n) t m a).1
  unfolding publish_msg call next_id
  publish_msg-Stays t m a =
      let id = mqtt_get_packetid n a.m_packet_id_last in
      let message : Message = record a.mqt.publish {
        qos = a.mqt.qos;
        topic_name = t;
        buffer = m;
        total_len = length m % 2 ^ 16;
      } in
      let ask = (recording n).client_publish id message in
      let b : AppState (recording n) = record a { m_packet_id_last = id } in
      succeeded-Stays (ask a.client).0 a (call (recording n) ask b).1
        (record { made = publish id message ∷ []; logged = refl; within = (refl, tt) })

  ping_after-Stays :
      (rc : ReturnCode) (a : AppState (recording n)) → Stays a (ping_after (recording n) rc a).1
  unfolding call
  ping_after-Stays mqtt_code_success a = Stays-refl a
  ping_after-Stays mqtt_code_error_timeout a =
      let ask = (recording n).client_ping in
      succeeded-Stays (ask a.client).0 a (call (recording n) ask a).1
        (call-Stays ask ping a (λ c. refl) refl)
  ping_after-Stays other_error a = Stays-refl a

  read_msg-Stays : (a : AppState (recording n)) → Stays a (read_msg (recording n) a).1
  unfolding read_msg call
  read_msg-Stays a =
      let t = a.mqt.cmd_timeout_ms in
      let ask = (recording n).client_wait_message t in
      let w = (call (recording n) ask a).1 in
      Stays-trans a w _ (call-Stays ask (wait_message t) a (λ c. refl) refl)
        (ping_after-Stays (ask a.client).0 w)

  publish_all-Stays :
      (ms : List (List ℕ)) (a : AppState (recording n)) → Stays a (publish_all (recording n) ms a)
  unfolding publish_all
  publish_all-Stays [] a = Stays-refl a
  publish_all-Stays (m ∷ ms) a =
      Stays-trans a (publish_msg (recording n) topic_send m a).1 _
        (publish_msg-Stays topic_send m a)
        (publish_all-Stays ms (publish_msg (recording n) topic_send m a).1)

  scan_and_send-Stays :
      (send_time : ℕ → ℕ) (es : List TimedEvent) (a : AppState (recording n))
      → Stays a (scan_and_send (recording n) send_time es a)
  unfolding scan_and_send
  scan_and_send-Stays send_time es a =
      let (l, sent, messages) =
        send_device send_time (bt_steps (recording n) es a.bt_lst) a.sent_lst in
      let s = publish_all-Stays messages (record a { bt_lst = l; sent_lst = sent }) in
      record { made = s.made; logged = s.logged; within = s.within }

  round-Stays :
      (send_time : ℕ → ℕ) (es : List TimedEvent) (a : AppState (recording n))
      → Stays a (run_app_round (recording n) send_time es a)
  unfolding run_app_round
  round-Stays send_time es a = elim (Bool-cases (is_closed a.dr_iot.stat)) [
    | inl e ↦
        let b = scan_and_send (recording n) send_time es a in
        rw e (Stays-trans a b _ (scan_and_send-Stays send_time es a) (read_msg-Stays b))
    | inr e ↦ rw e (read_msg-Stays a)
  ]

  app_step-Stays :
      (a : AppState (recording n)) (e : AppEvent (recording n))
      → Stays a (app_step (recording n) a e)
  unfolding app_step
  app_step-Stays a (round send_time es) = round-Stays send_time es a
  app_step-Stays a (timer now) =
      let s = Stays-refl a in record { made = s.made; logged = s.logged; within = s.within }

  -- Whatever codes the library answers with, also once the connection is lost, the main loop only
  -- publishes, waits for messages and pings: it never closes the session or opens another one.
  pub never_reconnects :
      (es : List (AppEvent (recording n))) (a : AppState (recording n))
      → Stays a (app_run (recording n) a es)
  unfolding app_run
  never_reconnects [] a = Stays-refl a
  never_reconnects (e ∷ es) a =
      Stays-trans a (app_step (recording n) a e) _ (app_step-Stays a e)
        (never_reconnects es (app_step (recording n) a e))
