-- ===== src/Session/Start.antt =====
-- smartDoor/smart_door.c, `run_app` from power-on: the loop that opens a session, then the main loop
-- with the timer.
use smart_door_lock.Base.{ℕ, zero, suc, List, Option, none, some}
use smart_door_lock.Exec.{Result, ok, err, fault}
use smart_door_lock.Session.{Library, AppState, run_mqtt}
use smart_door_lock.Session.Lock.{AppEvent, app_run}

-- `do { ret = run_mqtt(); } while (ret);` on fuel. `none` is a loop that still runs.
abbrev pub attempted : {A : Type 0} → Result (Unit {0}) × A → Option A → Option A
attempted (ok x, a) next = some a
attempted (err, a) next = next
attempted (fault, a) next = none

module _ (lib : Library) where
  unfoldable pub connect_until : ℕ → AppState lib → Option (AppState lib)
  unfolding run_mqtt
  connect_until zero a = none
  connect_until (suc f) a = attempted (run_mqtt lib a) (connect_until f (run_mqtt lib a).1)

  -- `run_app`, with the rounds and the calls of the timer that come in its endless loop.
  unfoldable pub run_app : ℕ → List (AppEvent lib) → AppState lib → Option (AppState lib)
  unfolding connect_until app_run
  run_app f es a = elim (connect_until f a) [ none ↦ none | some b ↦ some (app_run lib b es) ]
