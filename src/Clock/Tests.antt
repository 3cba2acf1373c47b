-- ===== src/Clock/Tests.antt =====
-- The counter at its wrap.
use smart_door_lock.Base.{◌≡◌, refl}
use smart_door_lock.Clock.{sys_tick_handler}

wraps : sys_tick_handler 4294967295 ≡ 0
unfolding sys_tick_handler
wraps = refl
