-- ===== src/Cellular/Identity/Tests.antt =====
-- The IMEI and the ICCID in arrays that fit and arrays that do not.
use smart_door_lock.Base.{ℕ, ◌+◌, ◌≡◌, refl, List, [], ◌∷◌, ◌++◌, arith, length, drop, set}
use smart_door_lock.Base.Bytes.{codes}
use smart_door_lock.Exec.{ok, fault}
use smart_door_lock.Cellular.Identity.{parse_imei}
use smart_door_lock.Cellular.Identity.Bounds.{imei_reply, imei_fits, imei_overflows, imei_not_found}

abbrev old_8 : List ℕ
old_8 = codes "xxxxxxxx"

abbrev old_3 : List ℕ
old_3 = codes "xxx"

imei_fits_example :
    parse_imei (imei_reply (codes "\r\n") b'3' (codes "56") 13 (codes "\nOK")) (length old_8) old_8
    ≡ ok (
        set
          ((b'3' ∷ codes "56") ++ drop (length (b'3' ∷ codes "56")) old_8)
          (length (b'3' ∷ codes "56") + 1)
          0)
imei_fits_example =
    imei_fits (codes "\r\n") b'3' (codes "56") 13 (codes "\nOK") old_8 (refl, (refl, tt))
      (refl, (refl, (refl, tt))) refl (omega arith)

imei_overflows_example :
    parse_imei (imei_reply (codes "\r\n") b'3' (codes "56") 13 (codes "\nOK")) (length old_3) old_3
    ≡ fault
imei_overflows_example =
    imei_overflows (codes "\r\n") b'3' (codes "56") 13 (codes "\nOK") old_3 (refl, (refl, tt))
      (refl, (refl, (refl, tt))) refl (omega arith) (omega arith)

imei_not_found_example : parse_imei [] (length old_8) old_8 ≡ fault
imei_not_found_example = imei_not_found [] (length old_8) old_8 tt
