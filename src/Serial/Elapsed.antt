-- ===== src/Serial/Elapsed.antt =====
-- The clock while the driver runs: the milliseconds that pass and those that are still to come.
use smart_door_lock.Base.{ℕ, zero, suc, ◌+◌, ◌≤◌, ◌<◌, ◌≡◌, refl, List, [], ◌∷◌, arith, All}
use smart_door_lock.Clock.{u32_mod, sys_tick_handler, clock_after}
use smart_door_lock.Serial.{Uart}
use smart_door_lock.Serial.Driver.{
  Irq, sys_tick, usart0_rx, usart0_tx, World, handle_all, tick_all, arrive_from, arrive, pop_with,
  pop_from, get_byte, get_bytes,
}

abbrev pub ticks_of : List Irq → ℕ
ticks_of [] = 0
ticks_of (sys_tick ∷ is) = suc (ticks_of is)
ticks_of (usart0_rx c ∷ is) = ticks_of is
ticks_of (usart0_tx ready ∷ is) = ticks_of is

-- The milliseconds that will pass.
abbrev pub all_ticks : List (List Irq) → ℕ
all_ticks [] = 0
all_ticks (is ∷ rest) = ticks_of is + all_ticks rest

-- Between two points at which the program looks at a shared variable at most a millisecond passes.
abbrev pub IsSteady : List (List Irq) → Type 0
IsSteady = All (λ is. ticks_of is ≤ 1)

pub tick_all-lem :
    (is : List Irq) (t : ℕ) → t < u32_mod → tick_all is t ≡ clock_after t (ticks_of is)
unfolding tick_all sys_tick_handler
tick_all-lem [] t h = omega arith
tick_all-lem (sys_tick ∷ is) t h = omega (arith, tick_all-lem is (sys_tick_handler t) (omega arith))
tick_all-lem (usart0_rx c ∷ is) t h = tick_all-lem is t h
tick_all-lem (usart0_tx ready ∷ is) t h = tick_all-lem is t h

-- From `w` to `w'` a number of milliseconds has passed, and the clock shows it.
pub record Runs (w w' : World) : Type 0 where
  pub ticks : ℕ
  pub spent : all_ticks w.upcoming ≡ ticks + all_ticks w'.upcoming
  pub clock :
      w.time_since_start < u32_mod → w'.time_since_start ≡ clock_after w.time_since_start ticks
  pub steady : IsSteady w.upcoming → IsSteady w'.upcoming

pub Runs-refl : (w : World) → Runs w w
Runs-refl w = record { ticks = 0; spent = omega arith; clock = λ h. omega arith; steady = λ s. s }

pub Runs-trans : {u v w : World} → Runs u v → Runs v w → Runs u w
Runs-trans {u} {v} {w} p q = record {
  ticks = p.ticks + q.ticks;
  spent = omega (arith, p.spent, q.spent);
  clock = λ h. let first = p.clock h in let second = q.clock (omega arith) in omega arith;
  steady = λ s. q.steady (p.steady s);
}

pub Runs-entry :
    (is : List Irq) (rest : List (List Irq)) (u u' : Uart) (t : ℕ)
    → Runs
        (record { uart = u; time_since_start = t; upcoming = is ∷ rest })
        (record { uart = u'; time_since_start = tick_all is t; upcoming = rest })
Runs-entry is rest u u' t = record {
  ticks = ticks_of is;
  spent = refl;
  clock = λ h. tick_all-lem is t h;
  steady = λ s. s.1;
}

Runs-arrive_from :
    (up : List (List Irq)) (u : Uart) (t : ℕ)
    → Runs (record { uart = u; time_since_start = t; upcoming = up }) (arrive_from up u t)
unfolding arrive_from
Runs-arrive_from [] u t = Runs-refl _
Runs-arrive_from (is ∷ rest) u t = Runs-entry is rest u (handle_all is u) t

pub Runs-arrive : (w : World) → Runs w (arrive w)
unfolding arrive
Runs-arrive w = Runs-arrive_from w.upcoming w.uart w.time_since_start

arrive_from-ticks_le :
    (up : List (List Irq)) (u : Uart) (t : ℕ)
    → IsSteady up
    → all_ticks up ≤ 1 + all_ticks (arrive_from up u t).upcoming
unfolding arrive_from
arrive_from-ticks_le [] u t s = omega arith
arrive_from-ticks_le (is ∷ rest) u t s = omega (arith, s.0)

pub arrive-ticks_le :
    (w : World) → IsSteady w.upcoming → all_ticks w.upcoming ≤ 1 + all_ticks (arrive w).upcoming
unfolding arrive
arrive-ticks_le w s = arrive_from-ticks_le w.upcoming w.uart w.time_since_start s

Runs-same :
    (u u' : Uart) (t : ℕ)
    → Runs
        (record { uart = u; time_since_start = t; upcoming = [] })
        (record { uart = u'; time_since_start = t; upcoming = [] })
Runs-same u u' t = record {
  ticks = 0;
  spent = omega arith;
  clock = λ h. omega arith;
  steady = λ s. s;
}

Runs-pop_from :
    (up : List (List Irq)) (u : Uart) (t : ℕ)
    → Runs (record { uart = u; time_since_start = t; upcoming = up }) (pop_from up u t)
unfolding pop_from
Runs-pop_from [] u t = Runs-same u (pop_with [] u) t
Runs-pop_from (is ∷ rest) u t = Runs-entry is rest u (pop_with is u) t

Runs-get_byte : (w : World) → Runs w (get_byte w).1
unfolding get_byte
Runs-get_byte w = Runs-pop_from w.upcoming w.uart w.time_since_start

pub Runs-get_bytes : (n : ℕ) (w : World) → Runs w (get_bytes n w).1
unfolding get_bytes
Runs-get_bytes zero w = Runs-refl w
Runs-get_bytes (suc n) w =
    Runs-trans (Runs-arrive w)
      (Runs-trans (Runs-get_byte (arrive w)) (Runs-get_bytes n (get_byte (arrive w)).1))
