-- ===== src/Session/Lock.antt =====
-- The locked door while the main loop runs, with what the MQTT library delivers and the callback of
-- the timer between the rounds.
use smart_door_lock.Base.{ℕ, ◌≡◌, List, [], ◌∷◌, false, All}
use smart_door_lock.Door.{Door, locked, mqtt_message_cb, periodic_timeout}
use smart_door_lock.Door.Lock.{message, timeout, step, run, KeepsLocked, locked_stays}
use smart_door_lock.Session.{
  TimedEvent, ReturnCode, mqtt_code_success, mqtt_code_error_timeout, other_error, Library,
  AppState, deliver, call, succeeded, ping_after, read_msg, run_app_round,
}

-- No message says `unlock` or `normal`.
abbrev pub SpareLock : List (ℕ × List ℕ) → Type 0
SpareLock ms = All (λ m. KeepsLocked (message m.1)) ms

deliver-locked :
    (ms : List (ℕ × List ℕ)) (d : Door)
    → SpareLock ms
    → d.stat ≡ locked
    → (deliver ms d).stat ≡ locked
unfolding deliver run step
deliver-locked [] d k l = l
deliver-locked ((time, b) ∷ ms) d k l =
    deliver-locked ms (mqtt_message_cb time b d) k.1
      (locked_stays (message b ∷ []) (record { door = d; led0 = false; time = time }) (k.0, tt) l)

module _ (lib : Library) where
  -- Reading and pinging, the library delivers no message that says `unlock` or `normal`.
  pub record SparesLock : Type 0 where
    pub wait_message : (t : ℕ) (c : lib.Client) → SpareLock (lib.client_wait_message t c).1
    pub ping : (c : lib.Client) → SpareLock (lib.client_ping c).1

  succeeded-locked :
      (rc : ReturnCode) (a : AppState lib)
      → a.dr_iot.stat ≡ locked
      → (succeeded lib rc a).1.dr_iot.stat ≡ locked
  succeeded-locked mqtt_code_success a l = l
  succeeded-locked mqtt_code_error_timeout a l = l
  succeeded-locked other_error a l = l

  ping_after-locked :
      (rc : ReturnCode) (a : AppState lib)
      → SparesLock
      → a.dr_iot.stat ≡ locked
      → (ping_after lib rc a).1.dr_iot.stat ≡ locked
  unfolding call
  ping_after-locked mqtt_code_success a k l = l
  ping_after-locked mqtt_code_error_timeout a k l =
      succeeded-locked _ _ (deliver-locked _ a.dr_iot (k.ping a.client) l)
  ping_after-locked other_error a k l = l

  read_msg-locked :
      (a : AppState lib)
      → SparesLock
      → a.dr_iot.stat ≡ locked
      → (read_msg lib a).1.dr_iot.stat ≡ locked
  unfolding read_msg call
  read_msg-locked a k l =
      ping_after-locked _ _ k
        (deliver-locked _ a.dr_iot (k.wait_message a.mqt.cmd_timeout_ms a.client) l)

  -- A locked door is not closed, so a round only reads.
  round-locked :
      (send_time : ℕ → ℕ) (es : List TimedEvent) (a : AppState lib)
      → SparesLock
      → a.dr_iot.stat ≡ locked
      → (run_app_round lib send_time es a).dr_iot.stat ≡ locked
  unfolding run_app_round
  round-locked send_time es a k l = simp l (read_msg-locked a k l)

  -- A round of the main loop, or the callback of the timer.
  pub data AppEvent : Type 0 where
    round : (send_time : ℕ → ℕ) → List TimedEvent → AppEvent
    timer : ℕ → AppEvent

  unfoldable pub app_step : AppState lib → AppEvent → AppState lib
  unfolding run_app_round periodic_timeout
  app_step a (round send_time es) = run_app_round lib send_time es a
  app_step a (timer now) = record a { dr_iot = (periodic_timeout now a.dr_iot).0 }

  unfoldable pub app_run : AppState lib → List AppEvent → AppState lib
  unfolding app_step
  app_run a [] = a
  app_run a (e ∷ es) = app_run (app_step a e) es

  app_step-locked :
      (a : AppState lib) (e : AppEvent)
      → SparesLock
      → a.dr_iot.stat ≡ locked
      → (app_step a e).dr_iot.stat ≡ locked
  unfolding app_step step run
  app_step-locked a (round send_time es) k l = round-locked send_time es a k l
  app_step-locked a (timer now) k l =
      locked_stays (timeout ∷ []) (record { door = a.dr_iot; led0 = false; time = now })
        ((tt, tt), tt) l

  -- A locked door is still locked after any number of rounds of the main loop, with any scan events,
  -- answers of the broker and calls of the timer between them, as long as the library delivers no
  -- message that says `unlock` or `normal`.
  pub app_stays_locked :
      (es : List AppEvent) (a : AppState lib)
      → SparesLock
      → a.dr_iot.stat ≡ locked
      → (app_run a es).dr_iot.stat ≡ locked
  unfolding app_run
  app_stays_locked [] a k l = l
  app_stays_locked (e ∷ es) a k l = app_stays_locked es (app_step a e) k (app_step-locked a e k l)
