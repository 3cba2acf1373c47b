-- ===== src/Cellular/Signal/Quality.antt =====
-- The signal quality: the number in the modem's reply, and the dBm that is returned for it.
use smart_door_lock.Base.{
  ℕ, zero, suc, ◌-◌, ◌*◌, ◌≤◌, ◌<◌, ◌≡◌, ◌≢◌, ◌∙◌, inl, inr, refl, sym, ap, List, [], ◌∷◌, ◌++◌,
  append_assoc, ◌&&◌, Option, none, some, arith, All, length, replicate, leb, ◌==◌, Bool-cases,
  if◌then◌else◌,
}
use smart_door_lock.Base.Bytes.{buffer, c_string}
use smart_door_lock.Base.Int.{ℤ, negsuc, ◌+ℤ◌, ◌*ℤ◌, ◌≤ℤ◌}
use smart_door_lock.SerialIo.{SerialIo}
use smart_door_lock.Exec.{Result, ok, err}
use smart_door_lock.Exec.Says.{bind-ok}
use smart_door_lock.Cellular.{State, exchange}
use smart_door_lock.Cellular.Text.{
  csq, short_time, scan_past, strtol, digits_from, decimal, clamp_pos, long_max,
}
use smart_door_lock.Cellular.Text.Decimal.{
  Ends, decimal-append, c_string-digits_from, strtol-digits_from,
}
use smart_door_lock.Cellular.Scan.{scan_past-append}
use smart_door_lock.Cellular.Signal.{
  quality_of, is_99, rssi_of, judge, parse_quality, cellular_get_signal_quality,
}

-- The value for a number that the modem reports: -113 dBm and 2 dBm more for each step, from step 2
-- to step 31, and an error for any other.
abbrev pub quality : ℕ → Result ℤ
quality n = if leb 2 n && leb n 31 then ok (negsuc (112 - 2 * n)) else err

judge-quality : (n : ℕ) → n ≤ long_max → judge (ok (clamp_pos n)) ≡ quality n
unfolding quality_of is_99 ◌+ℤ◌ ◌*ℤ◌
judge-quality n h = ground arith

Ends-c_string : (tail : List ℕ) (k : ℕ) → Ends tail → Ends (c_string (tail ++ replicate k 0))
Ends-c_string [] zero h = tt
Ends-c_string [] (suc k) h = tt
Ends-c_string (c ∷ tail) k h = elim (Bool-cases (c == 0)) [ inl e ↦ rw e tt | inr e ↦ rw e h ]

-- `CellularGetSignalQuality` on a reply in which a number follows the first space: it returns the
-- number's value for the steps 2 to 31 and -1 for any other number, 99 (not known) and the two
-- weakest steps 0 and 1 (-113 and -111 dBm) among them.
parse_quality-number :
    (pre tail : List ℕ) (n : ℕ)
    → All (λ c. c ≢ 32) pre
    → length pre < 48
    → n ≤ long_max
    → Ends tail
    → parse_quality (pre ++ 32 ∷ (decimal n ++ tail)) ≡ quality n
unfolding parse_quality
parse_quality-number pre tail n np lp hn ends =
    let reply : List ℕ = pre ++ 32 ∷ (decimal n ++ tail) in
    let zeros : List ℕ = replicate (50 - length reply) 0 in
    let shape : buffer 50 reply ≡ pre ++ 32 ∷ digits_from (suc n) n (tail ++ zeros) =
      append_assoc pre (32 ∷ (decimal n ++ tail)) zeros
      ∙ ap (λ l. pre ++ 32 ∷ l)
          (append_assoc (decimal n) tail zeros ∙ decimal-append n (tail ++ zeros)) in
    let found =
      scan_past-append 32 49 pre (digits_from (suc n) n (tail ++ zeros)) 0 np (omega arith) in
    let text = c_string-digits_from (suc n) n (tail ++ zeros) (omega arith) in
    let read =
      strtol-digits_from n (c_string (tail ++ zeros))
        (Ends-c_string tail (50 - length reply) ends) in
    ap (λ b. judge (rssi_of (scan_past 32 49 b 0))) shape
    ∙ ap (λ o. judge (rssi_of o)) found
    ∙ ap (λ t. judge (ok (strtol t))) text
    ∙ ap (λ z. judge (ok z)) read
    ∙ judge-quality n hn

judge-range : (rssi v : ℤ) → judge (ok rssi) ≡ ok v → (negsuc 108 ≤ℤ v) × (v ≤ℤ negsuc 50)
unfolding quality_of is_99 ◌+ℤ◌ ◌*ℤ◌
judge-range rssi v h = ground arith

parse_quality-range :
    (reply : List ℕ) (v : ℤ) → parse_quality reply ≡ ok v → (negsuc 108 ≤ℤ v) × (v ≤ℤ negsuc 50)
unfolding parse_quality
parse_quality-range reply v h = by_scan (scan_past 32 49 (buffer 50 reply) 0) refl
  where
    by_scan :
        (o : Option (ℕ × List ℕ))
        → scan_past 32 49 (buffer 50 reply) 0 ≡ o
        → (negsuc 108 ≤ℤ v) × (v ≤ℤ negsuc 50)
    by_scan none e = absurd (ground arith)
    by_scan (some (count, rest)) e =
        judge-range (strtol (c_string rest)) v (ap (λ o. judge (rssi_of o)) (sym e) ∙ h)

module _ (io : SerialIo) where
  -- Whatever the modem sends, a value that `CellularGetSignalQuality` returns with 0 is from -109 to
  -- -51 dBm.
  pub signal_quality-range :
      (s : State io) (v : ℤ)
      → (cellular_get_signal_quality io s).0 ≡ ok v
      → (negsuc 108 ≤ℤ v) × (v ≤ℤ negsuc 50)
  unfolding cellular_get_signal_quality
  signal_quality-range s v h =
      let (reply, got, parsed) = bind-ok (exchange io csq 49 short_time) _ s v h in
      parse_quality-range reply v parsed
