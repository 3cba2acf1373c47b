-- ===== src/Cellular/Modem/Tests.antt =====
-- The modem functions against scripted replies.
use smart_door_lock.Base.{ℕ, ◌≡◌, ◌↔◌, refl, List, [], ◌∷◌}
use smart_door_lock.Base.Bytes.{codes}
use smart_door_lock.Exec.{ok}
use smart_door_lock.Cellular.{Cell}
use smart_door_lock.Cellular.Script.{script, replying}
use smart_door_lock.Cellular.Text.{scan_past, rounds}
use smart_door_lock.Cellular.Modem.{
  cellular_check_modem, cellular_wait_until_modem_responds, parse_status,
}
use smart_door_lock.Cellular.Modem.Start.{Succeeded, wait_until_modem_responds_iff}

abbrev yes_reply : List ℕ
yes_reply = codes "\r\nOK\r\n"

abbrev third_time : Cell script.Dev
third_time = replying ([] ∷ codes "ERROR" ∷ yes_reply ∷ [])

abbrev silent : Cell script.Dev
silent = replying []

responds_at_third : (cellular_wait_until_modem_responds script third_time).0 ≡ ok tt
unfolding cellular_wait_until_modem_responds
responds_at_third = refl

wait_until_modem_responds_iff_example :
    ((cellular_wait_until_modem_responds script third_time).0 ≡ ok tt)
    ↔ Succeeded (cellular_check_modem script) rounds third_time
wait_until_modem_responds_iff_example = wait_until_modem_responds_iff script third_time

abbrev ready : Cell script.Dev
ready = replying (codes "^SYSSTART\r\n+PBREADY\r\n" ∷ yes_reply ∷ yes_reply ∷ [])

creg_home : parse_status (codes "\r\n+CREG: 0,1\r\n\r\nOK\r\n") ≡ ok 1
unfolding parse_status scan_past
creg_home = refl

abbrev searching : Cell script.Dev
searching = replying (codes "\r\n+CREG: 0,2\r\n" ∷ codes "\r\n+CREG: 0,5\r\n" ∷ [])
