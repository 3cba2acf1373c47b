-- ===== src/Socket/Tests.antt =====
-- The loop over the operators against scripted replies.
use smart_door_lock.Base.{◌≡◌, refl, [], ◌∷◌}
use smart_door_lock.Base.Bytes.{codes}
use smart_door_lock.Exec.{ok}
use smart_door_lock.Cellular.{Cell}
use smart_door_lock.Cellular.Script.{script, replying}
use smart_door_lock.Cellular.Modem.{cellular_set_operator, cellular_wait_until_registered}
use smart_door_lock.Cellular.Text.{scan_past}
use smart_door_lock.Socket.{blank_operator, register_at, try_operators}

-- The first operator is refused, with the second the modem registers.
abbrev second_takes : Cell script.Dev
second_takes = replying (codes "ERROR\r\n" ∷ codes "\r\nOK\r\n" ∷ codes "\r\n+CREG: 0,1\r\n" ∷ [])

abbrev silent : Cell script.Dev
silent = replying []

second_registers :
    (try_operators script (blank_operator ∷ blank_operator ∷ []) second_takes).0 ≡ ok tt
unfolding try_operators register_at cellular_set_operator cellular_wait_until_registered scan_past
second_registers = refl

none_registers : (try_operators script (blank_operator ∷ []) silent).0 ≡ ok tt
unfolding try_operators register_at cellular_set_operator
none_registers = refl
