-- ===== src/Cellular/Identity.antt =====
-- cellular.c: the SIM's ICCID (`AT+CCID`) and the modem's IMEI (`AT+CGSN`). The caller's array is a
-- list of its bytes; a read or a write outside an array is a `fault`.
pub mod Copy
pub mod Bounds
mod Tests
use smart_door_lock.Base.Bytes.{buffer}
use smart_door_lock.Base.{
  ℕ, zero, suc, ◌+◌, ◌-◌, List, [], ◌∷◌, ◌++◌, Bool, true, false, ◌||◌, ◌&&◌, not, Option, none,
  some, length, set, ltb, leb, ◌==◌, if◌then◌else◌,
}
use smart_door_lock.Base.Int.{ℤ, pos, negsuc}
use smart_door_lock.SerialIo.{SerialIo}
use smart_door_lock.Exec.{Result, ok, err, fault, Exec, pure, raise, check, ◌>>=◌, ◌>>◌}
use smart_door_lock.Cellular.{Cell, State, exchange}
use smart_door_lock.Cellular.Text.{ccid, cgsn, short_time, scan_past, isalnum}

-- `out[k] = c`
unfoldable pub write : List ℕ → ℕ → ℕ → Result (List ℕ)
write out k c = if ltb k (length out) then ok (set out k c) else fault

-- The conditions of the two `for` loops, as the macro `MIN` expands:
-- `(i < (maxlen < rc - count)) ? maxlen : ((rc - count) + count)` and
-- `(i < (maxlen + count < rc)) ? (maxlen + count) : rc`, a number being true if it is not 0. The
-- `int` sum `(rc - count) + count` is `rc`; a `rc - count` below 0 is as little above `maxlen` as the
-- 0 that `-` gives here.
abbrev pub as_int : Bool → ℕ
as_int true = 1
as_int false = 0

unfoldable pub iccid_goes_on : ℕ → ℕ → ℕ → ℕ → Bool
iccid_goes_on maxlen rc count i =
    if ltb i (as_int (ltb maxlen (rc - count))) then not (maxlen == 0) else not (rc == 0)

unfoldable pub imei_goes_on : ℕ → ℕ → ℕ → ℕ → Bool
imei_goes_on maxlen rc count i =
    if ltb i (as_int (ltb (maxlen + count) rc)) then not (maxlen + count == 0) else not (rc == 0)

-- The loop that copies, with the array's bytes from `i` on: `k` is `i - count`, and `goes_on i` the
-- loop's condition. After a byte that is no letter or digit `i` is counted up once more. Then
-- `out[i - count] = '\0'`.
unfoldable pub copy_alnum : (ℕ → Bool) → List ℕ → ℕ → ℕ → List ℕ → Result (List ℕ)
copy_alnum goes_on [] i k out = if goes_on i then fault else write out k 0
copy_alnum goes_on (b ∷ bs) i k out =
    let copied = copy_alnum goes_on bs (i + 1) (k + 1) (set out k b) in
    if goes_on i
    then (if isalnum b then (if ltb k (length out) then copied else fault) else write out (k + 1) 0)
    else write out k 0

unfoldable pub iccid_copy : ℕ → ℕ → Option (ℕ × List ℕ) → List ℕ → Result (List ℕ)
unfolding copy_alnum iccid_goes_on
iccid_copy maxlen rc none iccid = fault
iccid_copy maxlen rc (some (count, rest)) iccid =
    copy_alnum (iccid_goes_on maxlen rc count) rest count 0 iccid

-- `while (!isalnum(buf[count++]) || count > rc) {}`: the index of the letter or digit at which it
-- stops, and the array from there.
unfoldable pub find_alnum : ℕ → List ℕ → ℕ → Option (ℕ × List ℕ)
find_alnum rc [] count = none
find_alnum rc (b ∷ bs) count =
    let rest = find_alnum rc bs (count + 1) in
    if not (isalnum b) || ltb rc (count + 1) then rest else some (count, b ∷ bs)

unfoldable pub imei_copy : ℕ → ℕ → Option (ℕ × List ℕ) → List ℕ → Result (List ℕ)
unfolding copy_alnum imei_goes_on
imei_copy maxlen rc none imei = fault
imei_copy maxlen rc (some (count, rest)) imei =
    copy_alnum (imei_goes_on maxlen rc count) rest count 0 imei

pub parse_iccid : List ℕ → ℕ → List ℕ → Result (List ℕ)
unfolding iccid_copy
parse_iccid reply maxlen iccid =
    iccid_copy maxlen (length reply) (scan_past 32 49 (buffer 50 reply) 0) iccid

pub parse_imei : List ℕ → ℕ → List ℕ → Result (List ℕ)
unfolding imei_copy find_alnum
parse_imei reply maxlen imei =
    imei_copy maxlen (length reply) (find_alnum (length reply) (buffer 50 reply) 0) imei

module _ (io : SerialIo) where
  -- The array is `none` where the pointer is NULL.
  pub cellular_get_iccid : Option (List ℕ) → ℤ → Exec (State io) (List ℕ)
  unfolding exchange parse_iccid
  cellular_get_iccid none maxlen = raise
  cellular_get_iccid (some iccid) (negsuc n) = raise
  cellular_get_iccid (some iccid) (pos maxlen) = do
    reply ← exchange io ccid 49 short_time
    λ s. (parse_iccid reply maxlen iccid, s)

  pub cellular_get_imei : Option (List ℕ) → ℤ → Exec (State io) (List ℕ)
  unfolding exchange parse_imei
  cellular_get_imei none maxlen = raise
  cellular_get_imei (some imei) (negsuc n) = raise
  cellular_get_imei (some imei) (pos maxlen) = do
    reply ← exchange io cgsn 49 short_time
    λ s. (parse_imei reply maxlen imei, s)
