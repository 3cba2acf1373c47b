-- ===== src/Cellular/Signal/Tests.antt =====
-- The signal queries on concrete replies.
use smart_door_lock.Base.{ℕ, ◌≡◌, refl, List, [], ◌∷◌, true}
use smart_door_lock.Base.Bytes.{codes}
use smart_door_lock.Base.Int.{pos, negsuc, ◌≤ℤ◌}
use smart_door_lock.Exec.{ok}
use smart_door_lock.Cellular.{Cell, exchange, has}
use smart_door_lock.Cellular.Text.{strtol, smoni, long_time, scan_past}
use smart_door_lock.Cellular.Script.{script, replying}
use smart_door_lock.Cellular.Signal.{
  parse_quality, strtok, drop_tokens, SignalInfo, cellular_get_signal_quality,
  cellular_get_signal_info,
}
use smart_door_lock.Cellular.Signal.Quality.{signal_quality-range}
use smart_door_lock.Cellular.Signal.Info.{signal_info_needs_all_three}

csq_reply : parse_quality (codes "\r\n+CSQ: 20,99\r\n\r\nOK\r\n") ≡ ok (negsuc 72)
unfolding parse_quality scan_past strtol
csq_reply = refl

abbrev answers_20 : Cell script.Dev
answers_20 = replying (codes "+CSQ: 20,99\r\n" ∷ [])

signal_quality-range_example : (negsuc 108 ≤ℤ negsuc 72) × (negsuc 72 ≤ℤ negsuc 50)
unfolding cellular_get_signal_quality scan_past strtol
signal_quality-range_example = signal_quality-range script answers_20 (negsuc 72) refl

abbrev blank : SignalInfo
blank = record { signal_power = pos 0; ec_n0 = pos 0; access_technology = codes "----" }

abbrev field : List ℕ
field = codes "7"

-- A line that holds all three words, and a connection.
abbrev odd_reply : List ℕ
odd_reply = codes "^SMONI: 3G,1,2,-5,-70,SEARCH,LIMSRV,NOCONN\r\n"

abbrev answers_odd : Cell script.Dev
answers_odd = replying (odd_reply ∷ [])

abbrev odd_info : SignalInfo
odd_info = record { signal_power = negsuc 69; ec_n0 = negsuc 4; access_technology = codes "3G--" }

signal_info_needs_all_three_example :
    (reply : List ℕ) × ((exchange script smoni 1023 long_time answers_odd).0 ≡ ok reply)
    × (has reply (codes "SEARCH") ≡ true)
    × (has reply (codes "LIMSRV") ≡ true)
    × (has reply (codes "NOCONN") ≡ true)
unfolding cellular_get_signal_info scan_past strtok drop_tokens strtol
signal_info_needs_all_three_example =
    signal_info_needs_all_three script blank answers_odd (true, odd_info) refl
