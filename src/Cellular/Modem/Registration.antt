-- ===== src/Cellular/Modem/Registration.antt =====
-- The registration status of cellular.c.
use smart_door_lock.Base.Bytes.{buffer}
use smart_door_lock.Base.{
  ℕ, ◌+◌, ◌-◌, ◌≤◌, ◌<◌, ◌≡◌, ◌≢◌, ◌⊎◌, inl, inr, refl, List, [], ◌∷◌, ◌++◌, append_assoc, ◌||◌,
  some, arith, All, length, replicate, ltb, Bool-cases,
}
use smart_door_lock.SerialIo.{SerialIo}
use smart_door_lock.Exec.{Result, ok, err, fault}
use smart_door_lock.Cellular.{State}
use smart_door_lock.Cellular.Text.{rounds}
use smart_door_lock.Cellular.Scan.{scan_past-some, scan_past-append, length-buffer}
use smart_door_lock.Cellular.Modem.{
  status_of, parse_status, cellular_get_registration_status, registered_once,
  cellular_wait_until_registered,
}
use smart_door_lock.Cellular.Modem.Start.{after, retry_ok}

abbrev zeros : ℕ → List ℕ → List ℕ
zeros size bs = replicate (size - length bs) 0

-- The digit from 0 to 5 behind the first comma of a reply is the status that is read, if the comma
-- is among the first 24 characters.
parse_status-digit :
    (pre post : List ℕ) (v : ℕ)
    → All (λ c. c ≢ b',') pre
    → length pre < 24
    → v ≤ 5
    → parse_status (pre ++ b',' ∷ (b'0' + v) ∷ post) ≡ ok v
unfolding parse_status
parse_status-digit pre post v np lp hv =
    rw
      (
        append_assoc pre (b',' ∷ (b'0' + v) ∷ post) (zeros 30 (pre ++ b',' ∷ (b'0' + v) ∷ post)),
        scan_past-append b',' 25 pre
            ((b'0' + v) ∷ (post ++ zeros 30 (pre ++ b',' ∷ (b'0' + v) ∷ post))) 0 np (omega arith),
      )
      (ground arith)

status_of-range :
    (count : ℕ) (rest : List ℕ)
    → 0 < length rest
    → (status_of (some (count, rest)) ≡ err)
      ⊎ ((v : ℕ) × (v ≤ 5) × (status_of (some (count, rest)) ≡ ok v))
status_of-range count [] h = absurd (omega arith)
status_of-range count (b ∷ rest) h = elim (Bool-cases (ltb b b'0' || ltb b'5' b)) [
  | inl out ↦ inl (rw out)
  | inr within ↦ inr (b - b'0', ground arith, rw within)
]

-- Whatever the modem sends, no read leaves the array, and a status that is returned is 0 to 5.
parse_status-range :
    (reply : List ℕ)
    → length reply ≤ 25
    → (parse_status reply ≡ err) ⊎ ((v : ℕ) × (v ≤ 5) × (parse_status reply ≡ ok v))
unfolding parse_status
parse_status-range reply h =
    let size = length-buffer 30 reply (omega arith) in
    let (stop, rest, e, le, len) =
      scan_past-some b',' 25 (buffer 30 reply) 0 (omega arith) (omega (arith, size)) in
    rw e (status_of-range stop rest (omega (arith, size)))

module _ (io : SerialIo) where
  -- One round of `CellularWaitUntilRegistered`: it succeeds exactly on a status of 1 or 5.
  registered_once-status :
      (s : State io)
      → (registered_once io s).0 ≡ ok tt
      → (v : ℕ) × ((cellular_get_registration_status io s).0 ≡ ok v) × ((v ≡ 1) ⊎ (v ≡ 5))
  unfolding registered_once
  registered_once-status s h = by_result (cellular_get_registration_status io s).0 refl
    where
      by_result :
          (r : Result ℕ)
          → (cellular_get_registration_status io s).0 ≡ r
          → (v : ℕ) × ((cellular_get_registration_status io s).0 ≡ ok v) × ((v ≡ 1) ⊎ (v ≡ 5))
      by_result (ok v) p = (v, p, ground arith)
      by_result err p = absurd (ground arith)
      by_result fault p = absurd (ground arith)

  -- Where `CellularWaitUntilRegistered` returns 0, one of at most seven rounds got from the modem a
  -- status that is 1 or 5 (registered at home, or roaming).
  wait_until_registered_lem :
      (s : State io)
      → (cellular_wait_until_registered io s).0 ≡ ok tt
      → (k : ℕ) × (v : ℕ) × (k < rounds)
        × ((cellular_get_registration_status io (after (registered_once io) k s)).0 ≡ ok v)
        × ((v ≡ 1) ⊎ (v ≡ 5))
  unfolding cellular_wait_until_registered
  wait_until_registered_lem s h =
      let (k, lt, f, good) = retry_ok (registered_once io) rounds s h in
      let (v, got, one_or_five) = registered_once-status (after (registered_once io) k s) good in
      (k, v, lt, got, one_or_five)
