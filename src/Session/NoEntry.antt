-- ===== src/Session/NoEntry.antt =====
-- The door from power-on.
use smart_door_lock.Base.{ℕ, ◌≡◌, refl, false, List, [], ◌∷◌, some, All, arith}
use smart_door_lock.Door.{Door, mqtt_message_cb, periodic_timeout}
use smart_door_lock.Door.Lock.{message, BringsNoEntry, IsShut, no_entry_without_command, run, step}
use smart_door_lock.Session.{Library, AppState, Connect, Message, Topic, deliver}
use smart_door_lock.Session.Lock.{AppEvent}
use smart_door_lock.Session.Start.{run_app}
use smart_door_lock.Session.Keeps.{Spares, run_app-Holds}

-- None of the messages says `open_door` or `unlock`.
abbrev pub Harmless : List (ℕ × List ℕ) → Type 0
Harmless ms = All (λ m. BringsNoEntry (message m.1)) ms

-- No call of the library delivers a message that says one of the two.
pub record IsHarmless (lib : Library) : Type 0 where
  pub init : (t r m : ℕ) (c : lib.Client) → Harmless (lib.client_init t r m c).1
  pub net_connect :
      (h : List ℕ) (p t u : ℕ) (c : lib.Client) → Harmless (lib.client_net_connect h p t u c).1
  pub connect : (k : Connect) (m : Message) (c : lib.Client) → Harmless (lib.client_connect k m c).1
  pub subscribe :
      (i : ℕ) (ts : List Topic) (c : lib.Client) → Harmless (lib.client_subscribe i ts c).1
  pub publish : (i : ℕ) (m : Message) (c : lib.Client) → Harmless (lib.client_publish i m c).1
  pub wait_message : (t : ℕ) (c : lib.Client) → Harmless (lib.client_wait_message t c).1
  pub ping : (c : lib.Client) → Harmless (lib.client_ping c).1
  pub disconnect : (c : lib.Client) → Harmless (lib.client_disconnect c).1

abbrev ShutDoor : Door → Type 0
ShutDoor d = IsShut d.stat

deliver-shut :
    (ms : List (ℕ × List ℕ)) (d : Door) → Harmless ms → ShutDoor d → ShutDoor (deliver ms d)
unfolding deliver run step
deliver-shut [] d h s = s
deliver-shut ((time, b) ∷ ms) d h s =
    deliver-shut ms (mqtt_message_cb time b d) h.1
      (no_entry_without_command (message b ∷ []) (record { door = d; led0 = false; time = time })
        (h.0, tt) s refl).0

spares : (lib : Library) → IsHarmless lib → Spares lib ShutDoor
unfolding periodic_timeout
spares lib h = record {
  init = λ t r m c d s. deliver-shut _ d (h.init t r m c) s;
  net_connect = λ a p t u c d s. deliver-shut _ d (h.net_connect a p t u c) s;
  connect = λ k m c d s. deliver-shut _ d (h.connect k m c) s;
  subscribe = λ i ts c d s. deliver-shut _ d (h.subscribe i ts c) s;
  publish = λ i m c d s. deliver-shut _ d (h.publish i m c) s;
  wait_message = λ t c d s. deliver-shut _ d (h.wait_message t c) s;
  ping = λ c d s. deliver-shut _ d (h.ping c) s;
  disconnect = λ c d s. deliver-shut _ d (h.disconnect c) s;
  timeout = λ now d s. ground arith;
}

-- From a door that is closed or locked, as it is at power-on, the program leaves it closed or locked
-- through the attempts to open a session and any number of rounds and calls of the timer behind them,
-- if no message that the library delivers in any call says `open_door` or `unlock`.
pub run_app_no_entry :
    (lib : Library) (f : ℕ) (es : List (AppEvent lib)) (a b : AppState lib)
    → IsHarmless lib
    → IsShut a.dr_iot.stat
    → run_app lib f es a ≡ some b
    → IsShut b.dr_iot.stat
run_app_no_entry lib f es a b h s e = run_app-Holds lib ShutDoor (spares lib h) f es a b s e
