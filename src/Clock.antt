-- ===== src/Clock.antt =====
-- smartDoor/timer.c: the start of the timer, periodic timers, and the millisecond counter `time_since_start` that SysTick advances, read by
-- `cur_time`. It is a `uint32_t`, so it and every difference of two of its values wrap at 2 ^ 32.
mod Tests
use smart_door_lock.Base.{
  ℕ, zero, suc, ◌+◌, ◌-◌, ◌%◌, ◌^◌, ◌<◌, ◌≡◌, arith, Bool, true, false, Option, none, some, ◌==◌,
  if◌then◌else◌,
}

abbrev pub u32_mod : ℕ
u32_mod = 2 ^ 32

-- `a - b` of two `uint32_t`.
abbrev pub sub32 : ℕ → ℕ → ℕ
sub32 a b = (a + u32_mod - b) % u32_mod

-- `time_since_start++`
unfoldable pub sys_tick_handler : ℕ → ℕ
sys_tick_handler time_since_start = (time_since_start + 1) % u32_mod

-- The counter after `n` interrupts.
unfoldable pub ticks : ℕ → ℕ → ℕ
ticks zero t = t
ticks (suc n) t = ticks n (sys_tick_handler t)

-- The same in one step.
abbrev pub clock_after : ℕ → ℕ → ℕ
clock_after start n = (start + n) % u32_mod

pub sub32-clock_after :
    (start n : ℕ) → start < u32_mod → n < u32_mod → sub32 (clock_after start n) start ≡ n
sub32-clock_after start n h k = omega arith

ticks-eq-clock_after : (n start : ℕ) → start < u32_mod → ticks n start ≡ clock_after start n
unfolding ticks sys_tick_handler
ticks-eq-clock_after zero start h = omega arith
ticks-eq-clock_after (suc n) start h =
    omega (arith, ticks-eq-clock_after n ((start + 1) % u32_mod) (omega arith))

-- `cur_time() - start` is the true number of interrupts since the counter was `start`, for any
-- number of them below 2 ^ 32, also where the counter has wrapped in between.
elapsed-ticks : (start n : ℕ) → start < u32_mod → n < u32_mod → sub32 (ticks n start) start ≡ n
elapsed-ticks start n h k = rw (ticks-eq-clock_after n start h) (sub32-clock_after start n h k)

-- The sleep timer of the SDK with the SysTick interrupt: what `our_timer_init` and
-- `set_periodic_timer` call. `none` is a status other than `SL_STATUS_OK`.
pub record SleepTimer : Type 1 where
  pub Sdk : Type 0
  pub init : Sdk → Sdk
  pub ms32_to_tick : ℕ → Option ℕ
  pub start_periodic : (timeout : ℕ) → Sdk → Option Sdk

module _ (timer : SleepTimer) where
  -- `_isInit`, and the SDK.
  pub record Timer : Type 0 where
    pub is_init : Bool
    pub sdk : timer.Sdk

  unfoldable pub our_timer_init : Timer → Timer
  our_timer_init t = if t.is_init then t else record { is_init = true; sdk = timer.init t.sdk }

  -- 0, or -1: the timer is started with the ticks of the milliseconds.
  unfoldable pub set_periodic_timer : ℕ → Timer → Bool × Timer
  set_periodic_timer timeout_ms t = elim (timer.ms32_to_tick timeout_ms) [
    | none ↦ (false, t)
    | some timeout ↦ elim (timer.start_periodic timeout t.sdk) [
      | none ↦ (false, t)
      | some sdk ↦ (true, record t { sdk = sdk })
    ]
  ]

  -- However often `our_timer_init` is called, the timer is started once.
  our_timer_init_once : (t : Timer) → our_timer_init (our_timer_init t) ≡ our_timer_init t
  unfolding our_timer_init
  our_timer_init_once t = ground arith

-- `timer_handler` on its counter, an `int` that is not negative; `none` is an overflow.
unfoldable pub timer_handler : ℕ → Option ℕ
timer_handler counter = if counter == 2147483647 then none else some (counter + 1)
