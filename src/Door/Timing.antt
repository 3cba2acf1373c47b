-- ===== src/Door/Timing.antt =====
-- How long an opened door stays open.
use smart_door_lock.Base.{
  ℕ, ◌+◌, ◌≤◌, ◌<◌, ◌≡◌, ◌≢◌, ◌⊎◌, inl, refl, List, [], ◌∷◌, ◌++◌, arith, All, ltb, if◌then◌else◌,
}
use smart_door_lock.Clock.{clock_after, u32_mod, sub32-clock_after}
use smart_door_lock.Door.{closed, opened, locked, message_text, periodic_timeout, open_interval}
use smart_door_lock.Door.Command.{open_door, command_of, message-eq-react}
use smart_door_lock.Door.Lock.{House, Event, message, timeout, elapse, step, run}

-- No message comes; the timer fires and time passes.
abbrev pub IsQuiet : Event → Type 0
IsQuiet (message b) = ⊥
IsQuiet timeout = Unit
IsQuiet (elapse ms) = Unit

-- The milliseconds that pass in a list of events.
abbrev pub duration : List Event → ℕ
duration [] = 0
duration (elapse ms ∷ es) = ms + duration es
duration (message b ∷ es) = duration es
duration (timeout ∷ es) = duration es

-- A door that was opened at `start`, `age` milliseconds ago, and has had no message since.
record WasOpened (start age : ℕ) (h : House) : Type 0 where
  clock : h.time ≡ clock_after start age
  opened_at : h.door.open_time ≡ start
  status : (h.door.stat ≡ opened) ⊎ ((h.door.stat ≡ closed) × (open_interval ≤ age))

elapse-WasOpened :
    {start age : ℕ} {h : House} (ms : ℕ)
    → WasOpened start age h
    → WasOpened start (age + ms) (step h (elapse ms))
unfolding step
elapse-WasOpened ms w = record {
  clock = omega (arith, w.clock);
  opened_at = w.opened_at;
  status = ground (arith, w.status);
}

timeout-WasOpened :
    {start age : ℕ} {h : House}
    → start < u32_mod
    → age < u32_mod
    → WasOpened start age h
    → WasOpened start age (step h timeout)
unfolding step periodic_timeout
timeout-WasOpened {start} {age} hs ha w = record {
  clock = w.clock;
  opened_at = ground (arith, w.opened_at);
  status = ground (arith, w.status, w.clock, w.opened_at, sub32-clock_after start age hs ha);
}

run-WasOpened :
    (es : List Event) (start age : ℕ) (h : House)
    → All IsQuiet es
    → start < u32_mod
    → age + duration es < u32_mod
    → WasOpened start age h
    → WasOpened start (age + duration es) (run h es)
unfolding run
run-WasOpened [] start age h q hs ha w = let e : age + 0 ≡ age = omega arith in rw e w
run-WasOpened (message b ∷ es) start age h q hs ha w = absurd q.0
run-WasOpened (timeout ∷ es) start age h q hs ha w =
    run-WasOpened es start age (step h timeout) q.1 hs ha (timeout-WasOpened hs (omega arith) w)
run-WasOpened (elapse ms ∷ es) start age h q hs ha w =
    let e : age + (ms + duration es) ≡ age + ms + duration es = omega arith in
    rw e (
      run-WasOpened es start (age + ms) (step h (elapse ms)) q.1 hs (omega arith)
        (elapse-WasOpened ms w))

-- The timer's callback on such a door: it stays open with LED 0 on before the interval is over,
-- and is closed with LED 0 off from then on.
timeout_of-WasOpened :
    {start age : ℕ} {h : House}
    → start < u32_mod
    → age < u32_mod
    → WasOpened start age h
    → ((step h timeout).door.stat ≡ (if ltb age open_interval then opened else closed))
      × ((step h timeout).led0 ≡ ltb age open_interval)
unfolding step periodic_timeout
timeout_of-WasOpened {start} {age} hs ha w = (
  ground (arith, w.status, w.clock, w.opened_at, sub32-clock_after start age hs ha),
  ground (arith, w.status, w.clock, w.opened_at, sub32-clock_after start age hs ha),
)

run-append : (es fs : List Event) (h : House) → run h (es ++ fs) ≡ run (run h es) fs
unfolding run
run-append [] fs h = refl
run-append (e ∷ es) fs h = run-append es fs (step h e)

opened_by_message :
    (h : House) (buffer : List ℕ)
    → h.time < u32_mod
    → h.door.stat ≢ locked
    → command_of (message_text buffer) ≡ open_door
    → WasOpened h.time 0 (step h (message buffer))
unfolding step
opened_by_message h buffer ht nl c =
    rw (message-eq-react h.time buffer h.door, c)
      (record { clock = omega arith; opened_at = ground arith; status = inl (ground arith) })

-- An `open_door` message to a door that is not locked opens it for 30000 ms: at the next timer
-- callback after some time without messages, which is below 2 ^ 32 ms, the door is open and LED 0 on
-- if less than 30000 ms have passed, and else closed and off, also where the 32-bit clock wraps in
-- between.
pub open_door_lasts :
    (h : House) (buffer : List ℕ) (es : List Event)
    → h.time < u32_mod
    → h.door.stat ≢ locked
    → command_of (message_text buffer) ≡ open_door
    → All IsQuiet es
    → duration es < u32_mod
    → let h' = run h (message buffer ∷ es ++ (timeout ∷ [])) in
      (h'.door.stat ≡ (if ltb (duration es) open_interval then opened else closed))
      × (h'.led0 ≡ ltb (duration es) open_interval)
unfolding run
open_door_lasts h buffer es ht nl c q d =
    let z : 0 + duration es ≡ duration es = omega arith in
    let w =
      run-WasOpened es h.time 0 (step h (message buffer)) q ht (omega arith)
        (opened_by_message h buffer ht nl c) in
    rw (run-append es (timeout ∷ []) (step h (message buffer)))
      (timeout_of-WasOpened ht d (rw z at w))
