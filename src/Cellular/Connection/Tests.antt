-- ===== src/Cellular/Connection/Tests.antt =====
-- Opening and closing against scripted replies.
use smart_door_lock.Base.{◌≡◌, refl, [], ◌∷◌, ◌++◌, true}
use smart_door_lock.Base.Bytes.{codes}
use smart_door_lock.Cellular.{Cell}
use smart_door_lock.Cellular.Text.{stop_transparent, sisc_comm}
use smart_door_lock.Cellular.Wire.{line}
use smart_door_lock.Cellular.Script.{script, replying}
use smart_door_lock.Cellular.Connection.{cellular_close}
use smart_door_lock.Cellular.Connection.Mode.{close_says}

abbrev opens : Cell script.Dev
opens = replying (codes "\r\nOK\r\n" ∷ codes "\r\nCONNECT\r\n" ∷ [])

abbrev closes : Cell script.Dev
closes = record (replying (codes "\r\nOK\r\n" ∷ codes "\r\nOK\r\n" ∷ [])) {
  transparent_mode = true;
}

close_says_example :
    line script (cellular_close script closes).1 ≡ [] ++ (stop_transparent ++ sisc_comm)
unfolding cellular_close
close_says_example = close_says script closes refl
