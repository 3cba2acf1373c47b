-- ===== src/Cellular/Signal.antt =====
-- cellular.c: the signal quality (`AT+CSQ`) and the signal information (`AT^SMONI`).
pub mod Quality
pub mod Info
mod Tests
use smart_door_lock.Base.{
  ℕ, zero, suc, ◌+◌, ◌-◌, ◌*◌, List, [], ◌∷◌, ◌++◌, Bool, true, false, ◌||◌, ◌&&◌, not, Option,
  none, some, length, drop, ltb, ◌==◌, if◌then◌else◌,
}
use smart_door_lock.Base.Bytes.{buffer, codes, c_string, bytes_eq}
use smart_door_lock.Base.Int.{ℤ, pos, negsuc, ltb_ℤ, ◌+ℤ◌, ◌*ℤ◌}
use smart_door_lock.SerialIo.{SerialIo}
use smart_door_lock.Exec.{Result, ok, err, fault, Exec, pure, raise, check, ◌>>=◌, ◌>>◌}
use smart_door_lock.Cellular.{Cell, State, exchange, has}
use smart_door_lock.Cellular.Text.{csq, smoni, short_time, long_time, scan_past, strtol}

-- The tests of `CellularGetSignalQuality` on `rssi`, and the value for `*csq`.
pub quality_of : ℤ → Result ℤ
unfolding ◌+ℤ◌ ◌*ℤ◌
quality_of rssi =
    if ltb_ℤ rssi (pos 2) || ltb_ℤ (pos 31) rssi then err else ok (negsuc 112 +ℤ rssi *ℤ pos 2)

is_99 : ℤ → Bool
is_99 (pos n) = n == 99
is_99 (negsuc n) = false

abbrev rssi_of : Option (ℕ × List ℕ) → Result ℤ
rssi_of none = fault
rssi_of (some (count, rest)) = ok (strtol (c_string rest))

abbrev judge : Result ℤ → Result ℤ
judge (ok rssi) = if is_99 rssi then err else quality_of rssi
judge err = err
judge fault = fault

pub parse_quality : List ℕ → Result ℤ
unfolding is_99 quality_of
parse_quality reply = judge (rssi_of (scan_past 32 49 (buffer 50 reply) 0))

-- `strtok`: the next token of a string, and what is left behind the separator that ended it.
abbrev is_comma : ℕ → Bool
is_comma c = c == b','

pub skip_commas : List ℕ → List ℕ
skip_commas [] = []
skip_commas (c ∷ cs) = if is_comma c then skip_commas cs else c ∷ cs

pub cut : List ℕ → List ℕ → List ℕ × List ℕ
cut token [] = (token, [])
cut token (c ∷ cs) =
    let rest = cut (token ++ (c ∷ [])) cs in if is_comma c then (token, cs) else rest

abbrev first_token : List ℕ → Option (List ℕ × List ℕ)
first_token [] = none
first_token (c ∷ cs) = some (cut [] (c ∷ cs))

pub strtok : List ℕ → Option (List ℕ × List ℕ)
unfolding skip_commas cut
strtok s = first_token (skip_commas s)

-- The rest after `n` more tokens.
abbrev rest_of : Option (List ℕ × List ℕ) → List ℕ
rest_of none = []
rest_of (some (token, rest)) = rest

pub drop_tokens : ℕ → List ℕ → List ℕ
unfolding strtok
drop_tokens zero s = s
drop_tokens (suc n) s = drop_tokens n (rest_of (strtok s))

pub record SignalInfo : Type 0 where
  pub signal_power : ℤ
  pub ec_n0 : ℤ
  pub access_technology : List ℕ

-- `memcpy(sigInfo->access_technology, tmp, 2)`
abbrev put_technology : List ℕ → SignalInfo → SignalInfo
put_technology tech info = record info { access_technology = tech ++ drop 2 info.access_technology }

-- The parsers write to `sigInfo` as they go: a return code (`true` is 0, `false` is -1) and what they
-- have left there.
abbrev pub Parsed : Type 0
Parsed = Bool × SignalInfo

-- `2G`: the power is the 15th token behind the technology.
pub parse_2g : List ℕ → SignalInfo → Parsed
parse_2g rest info = elim (strtok (drop_tokens 14 rest)) [
  | none ↦ (false, info)
  | some (token, _) ↦ (true, record info { signal_power = strtol token })
]

-- `3G`: Ec/n0 is the 3rd, the power the 4th.
pub parse_3g : List ℕ → SignalInfo → Parsed
parse_3g rest info = elim (strtok (drop_tokens 2 rest)) [
  | none ↦ (false, info)
  | some (token, more) ↦ elim (strtok more) [
    | none ↦ (false, record info { ec_n0 = strtol token })
    | some (power, _) ↦ (true, record info { ec_n0 = strtol token; signal_power = strtol power })
  ]
]

pub parse_fields : List ℕ → SignalInfo → Parsed
unfolding parse_2g parse_3g
parse_fields [] info = (false, info)
parse_fields (c ∷ []) info = (false, info)
parse_fields (c ∷ d ∷ line) info =
    let rest = rest_of (strtok (c ∷ d ∷ line)) in
    if c == b'2' && d == b'G'
    then parse_2g rest (put_technology (codes "2G") info)
    else if c == b'3' && d == b'G'
    then parse_3g rest (put_technology (codes "3G") info)
    else (false, info)

abbrev parse_at : Option (ℕ × List ℕ) → SignalInfo → Result Parsed
parse_at none info = fault
parse_at (some (count, rest)) info = ok (parse_fields (c_string rest) info)

-- `signal_parse`, with the reply in the array of 1024 bytes; `rc` is its length.
pub signal_parse : List ℕ → SignalInfo → Result Parsed
unfolding parse_fields
signal_parse reply info = parse_at (scan_past 32 (length reply) (buffer 1024 reply) 0) info

module _ (io : SerialIo) where
  pub cellular_get_signal_quality : Exec (State io) ℤ
  unfolding exchange parse_quality
  cellular_get_signal_quality = do
    reply ← exchange io csq 49 short_time
    λ s. (parse_quality reply, s)

  -- `err` is a -1 that leaves `sigInfo` alone. The guard on the three words is as the source has it.
  pub cellular_get_signal_info : SignalInfo → Exec (State io) Parsed
  unfolding exchange signal_parse
  cellular_get_signal_info info = do
    reply ← exchange io smoni 1023 long_time
    if not (has reply (codes "SEARCH"))
          || (not (has reply (codes "LIMSRV")) || not (has reply (codes "NOCONN")))
        then raise
        else λ s. (signal_parse reply info, s)
