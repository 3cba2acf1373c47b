-- ===== src/Cellular/Text.antt =====
-- The texts of cellular.c, and the functions of the C library with which it reads replies.
pub mod Decimal
use smart_door_lock.Base.{
  ℕ, zero, suc, ◌+◌, ◌-◌, ◌*◌, ◌/◌, ◌%◌, ◌^◌, List, [], ◌∷◌, ◌++◌, Bool, true, false, ◌&&◌, ◌||◌,
  not, Option, none, some, ltb, leb, ◌==◌, length, replicate, if◌then◌else◌,
}
use smart_door_lock.Base.Bytes.{codes}
use smart_door_lock.Base.Int.{ℤ, pos, negsuc}

abbrev pub stop_transparent : List ℕ
stop_transparent = codes "+++"

abbrev pub at : List ℕ
at = codes "AT\r\n"

abbrev pub echo_off : List ℕ
echo_off = codes "ATE0\r\n"

abbrev pub csq : List ℕ
csq = codes "AT+CSQ\r\n"

abbrev pub ccid : List ℕ
ccid = codes "AT+CCID\r\n"

abbrev pub cgsn : List ℕ
cgsn = codes "AT+CGSN\r\n"

abbrev pub creg : List ℕ
creg = codes "AT+CREG?\r\n"

abbrev pub smoni : List ℕ
smoni = codes "AT^SMONI\r\n"

abbrev pub siso_comm : List ℕ
siso_comm = codes "AT^SISO=0\r\n"

abbrev pub sist_comm : List ℕ
sist_comm = codes "AT^SIST=0\r\n"

abbrev pub sisc_comm : List ℕ
sisc_comm = codes "AT^SISC=0\r\n"

abbrev pub siss_connid : List ℕ
siss_connid = codes "AT^SISS=0,\"conId\",\"0\"\r\n"

abbrev pub sics_contype : List ℕ
sics_contype = codes "AT^SICS=0,conType,\"GPRS0\"\r\n"

abbrev pub sics_apn : List ℕ
sics_apn = codes "AT^SICS=0,apn,\"postm2m.lu\"\r\n"

abbrev pub scfg : List ℕ
scfg = codes "AT^SCFG=\"Tcp/WithURCs\",\"on\"\r\n"

abbrev pub siss_srvtype : List ℕ
siss_srvtype = codes "AT^SISS=0,\"SrvType\",\"Socket\"\r\n"

abbrev pub rounds : ℕ
rounds = 7

abbrev pub short_time : ℕ
short_time = 3000

abbrev pub medium_time : ℕ
medium_time = 60000

abbrev pub long_time : ℕ
long_time = 120000

-- `%d` of a number that is not negative, on fuel: `n` digits are enough for `n`.
pub digits_from : ℕ → ℕ → List ℕ → List ℕ
digits_from zero n acc = acc
digits_from (suc f) n acc =
    let rest = digits_from f (n / 10) ((b'0' + n % 10) ∷ acc) in
    if ltb n 10 then (b'0' + n) ∷ acc else rest

unfoldable pub decimal : ℕ → List ℕ
unfolding digits_from
decimal n = digits_from (suc n) n []

-- `%d`
unfoldable pub decimal_int : ℤ → List ℕ
unfolding decimal
decimal_int (pos n) = decimal n
decimal_int (negsuc n) = b'-' ∷ decimal (n + 1)

-- `AT^SICS=0,inactTO,"%d"\r\n`
unfoldable pub sics_inact : ℕ → List ℕ
sics_inact sec = codes "AT^SICS=0,inactTO,\"" ++ (decimal sec ++ codes "\"\r\n")

-- `AT^SISS=0,"address","socktcp://%s:%d;etx;timer=%d"\r\n`
unfoldable pub siss_socktcp : List ℕ → ℤ → ℕ → List ℕ
siss_socktcp ip port sec =
    codes "AT^SISS=0,\"address\",\"socktcp://"
    ++ (ip
        ++ (codes ":"
            ++ (decimal_int port ++ (codes ";etx;timer=" ++ (decimal sec ++ codes "\"\r\n")))))

-- `AT+COPS=1,2,"%d"\r\n`
unfoldable pub cops_manual : ℤ → List ℕ
cops_manual code = codes "AT+COPS=1,2,\"" ++ (decimal_int code ++ codes "\"\r\n")

-- `while (buf[count++] != sep && count < limit) {}` from `count` on: the count afterwards, and the
-- buffer from there. `none` is a read past the end of the array.
unfoldable pub scan_past : ℕ → ℕ → List ℕ → ℕ → Option (ℕ × List ℕ)
scan_past sep limit [] count = none
scan_past sep limit (b ∷ bs) count =
    let rest = scan_past sep limit bs (count + 1) in
    if not (b == sep) && ltb (count + 1) limit then rest else some (count + 1, bs)

abbrev pub is_digit : ℕ → Bool
is_digit c = leb b'0' c && leb c b'9'

-- `isalnum` in the C locale.
abbrev pub isalnum : ℕ → Bool
isalnum c = is_digit c || ((leb b'a' c && leb c b'z') || (leb b'A' c && leb c b'Z'))

-- `isspace` in the C locale.
abbrev pub isspace : ℕ → Bool
isspace c = c == 32 || (leb 9 c && leb c 13)

pub read_digits : ℕ → List ℕ → ℕ
read_digits acc [] = acc
read_digits acc (c ∷ cs) =
    let rest = read_digits (acc * 10 + (c - b'0')) cs in if is_digit c then rest else acc

abbrev pub skip_spaces : List ℕ → List ℕ
skip_spaces [] = []
skip_spaces (c ∷ cs) = if isspace c then skip_spaces cs else c ∷ cs

-- A 32-bit `long` holds at most this; `strtol` returns the nearest bound past it.
abbrev pub long_max : ℕ
long_max = 2 ^ 31 - 1

abbrev pub clamp_pos : ℕ → ℤ
clamp_pos n = if ltb long_max n then pos long_max else pos n

abbrev pub clamp_neg : ℕ → ℤ
clamp_neg zero = pos 0
clamp_neg (suc n) = if ltb long_max n then negsuc long_max else negsuc n

abbrev pub signed : List ℕ → ℤ
signed [] = pos 0
signed (c ∷ cs) =
    if c == b'-'
    then clamp_neg (read_digits 0 cs)
    else if c == b'+'
    then clamp_pos (read_digits 0 cs)
    else clamp_pos (read_digits 0 (c ∷ cs))

-- `strtol(s, NULL, 10)`; no digits give 0.
unfoldable pub strtol : List ℕ → ℤ
unfolding read_digits
strtol s = signed (skip_spaces s)
