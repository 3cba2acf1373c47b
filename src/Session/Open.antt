-- ===== src/Session/Open.antt =====
-- The opening of a session.
use smart_door_lock.Base.{ℕ, ◌≡◌, ◌∙◌, refl, List, Bool, true, false, not, arith}
use smart_door_lock.Base.Bytes.{codes}
use smart_door_lock.Exec.{Result, ok, err, fault, Exec}
use smart_door_lock.Session.{
  Library, AppState, connect_mqtt, lwt_connect, subscribes, publish_msg, on_fail, set_led1,
  open_session, or_fail, ignoring, topic_send, topic_recv, set_topic_name,
}

abbrev pub succeeds : Result (Unit {0}) → Bool
succeeds (ok x) = true
succeeds err = false
succeeds fault = false

module _ (lib : Library) where
  or_fail-err :
      (r : Result (Unit {0}) × AppState lib) (next : Exec (AppState lib) (Unit {0}))
      → r.0 ≡ err
      → or_fail lib r next ≡ (err, on_fail lib r.1)
  or_fail-err (r, a) next e = rw e

  connect_mqtt-led1 : (a : AppState lib) → (connect_mqtt lib a).1.led1 ≡ a.led1
  unfolding connect_mqtt
  connect_mqtt-led1 a = ground arith

  lwt_connect-led1 : (a : AppState lib) → (lwt_connect lib a).1.led1 ≡ a.led1
  unfolding lwt_connect
  lwt_connect-led1 a = ground arith

  subscribes-led1 : (a : AppState lib) → (subscribes lib a).1.led1 ≡ a.led1
  unfolding subscribes
  subscribes-led1 a = ground arith

  publish_msg-led1 : (t m : List ℕ) (a : AppState lib) → (publish_msg lib t m a).1.led1 ≡ a.led1
  unfolding publish_msg
  publish_msg-led1 t m a = ground arith

  on_fail-led1 : (a : AppState lib) → (on_fail lib a).led1 ≡ a.led1
  unfolding on_fail
  on_fail-led1 a = refl

  -- What follows the connection: LED 1 is off by then, whatever comes.
  abbrev afterwards : Exec (AppState lib) (Unit {0})
  afterwards b = or_fail lib (lwt_connect lib (set_led1 lib false b)) λ c.
      or_fail lib (subscribes lib (set_topic_name lib topic_recv c)) λ d. (
        ok tt,
        ignoring lib (publish_msg lib topic_send (codes "connected"))
            (set_topic_name lib topic_send d),
      )

  or_fail-led1 :
      (r : Result (Unit {0}) × AppState lib) (next : Exec (AppState lib) (Unit {0}))
      → r.1.led1 ≡ false
      → ((b : AppState lib) → b.led1 ≡ false → (next b).1.led1 ≡ false)
      → (or_fail lib r next).1.led1 ≡ false
  or_fail-led1 (ok x, a) next e h = h a e
  or_fail-led1 (err, a) next e h = on_fail-led1 a ∙ e
  or_fail-led1 (fault, a) next e h = e

  -- Where the connection fails the session is closed and -1 returned, and nothing more is tried.
  open_session-unconnected :
      (a : AppState lib)
      → (connect_mqtt lib (set_led1 lib true a)).0 ≡ err
      → open_session lib a ≡ (err, on_fail lib (connect_mqtt lib (set_led1 lib true a)).1)
  unfolding open_session
  open_session-unconnected a e = or_fail-err (connect_mqtt lib (set_led1 lib true a)) afterwards e

  afterwards-led1 : (b : AppState lib) → (afterwards b).1.led1 ≡ false
  afterwards-led1 b =
      or_fail-led1 (lwt_connect lib (set_led1 lib false b)) _
        (lwt_connect-led1 (set_led1 lib false b))
        (λ c off.
          or_fail-led1 (subscribes lib (set_topic_name lib topic_recv c)) _
            (subscribes-led1 (set_topic_name lib topic_recv c) ∙ off)
            (λ d off'.
              publish_msg-led1 topic_send (codes "connected") (set_topic_name lib topic_send d)
              ∙ off'))

  or_fail-succeeds :
      (r : Result (Unit {0}) × AppState lib)
      → r.1.led1 ≡ true
      → (or_fail lib r afterwards).1.led1 ≡ not (succeeds r.0)
  or_fail-succeeds (ok x, b) e = afterwards-led1 b
  or_fail-succeeds (err, b) e = on_fail-led1 b ∙ e
  or_fail-succeeds (fault, b) e = e

  -- LED 1 is on after the opening of a session exactly if the network connection has failed, whatever
  -- it was before and whatever the later steps return.
  open_session-led1 :
      (a : AppState lib)
      → (open_session lib a).1.led1 ≡ not (succeeds (connect_mqtt lib (set_led1 lib true a)).0)
  unfolding open_session
  open_session-led1 a =
      or_fail-succeeds (connect_mqtt lib (set_led1 lib true a))
        (connect_mqtt-led1 (set_led1 lib true a))
