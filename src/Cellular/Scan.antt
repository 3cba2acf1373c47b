-- ===== src/Cellular/Scan.antt =====
-- The scanning loop `while (buf[count++] != sep && count < limit) {}`.
use smart_door_lock.Base.Bytes.{buffer}
use smart_door_lock.Base.{
  ℕ, zero, ◌+◌, ◌-◌, ◌≤◌, ◌<◌, ◌≡◌, ◌≢◌, inl, inr, List, [], ◌∷◌, ◌++◌, some, arith, All, length,
  replicate, length-append, length-replicate, ltb, ◌==◌, Bool-cases,
}
use smart_door_lock.Cellular.Text.{scan_past}

-- The loop stops in the array if the limit is not past its end, at a count that is not past the limit.
pub scan_past-some :
    (sep limit : ℕ) (bs : List ℕ) (count : ℕ)
    → count < limit
    → limit ≤ count + length bs
    → (stop : ℕ) × (rest : List ℕ) × (scan_past sep limit bs count ≡ some (stop, rest))
      × (stop ≤ limit)
      × (stop + length rest ≡ count + length bs)
unfolding scan_past
scan_past-some sep limit [] count h k = absurd (omega arith)
scan_past-some sep limit (b ∷ bs) count h k = elim (Bool-cases (ltb (count + 1) limit)) [
  | inl more ↦
      let (stop, rest, e, le, len) =
        scan_past-some sep limit bs (count + 1) (ground arith) (omega arith) in
      elim (Bool-cases (b == sep)) [
        | inl found ↦ (count + 1, bs, rw found, omega arith, omega arith)
        | inr other ↦ (stop, rest, rw (other, more, e), le, omega arith)
      ]
  | inr last ↦ (count + 1, bs, ground arith, omega arith, omega arith)
]

-- Where the separator comes before the limit, the loop stops behind the first one.
pub scan_past-append :
    (sep limit : ℕ) (pre post : List ℕ) (count : ℕ)
    → All (λ c. c ≢ sep) pre
    → count + length pre < limit
    → scan_past sep limit (pre ++ sep ∷ post) count ≡ some (count + length pre + 1, post)
unfolding scan_past
scan_past-append sep limit [] post count np h = ground arith
scan_past-append sep limit (c ∷ pre) post count np h =
    ground (arith, np.0, scan_past-append sep limit pre post (count + 1) np.1 (omega arith))

-- An array keeps its size when a reply that fits it is received.
pub length-buffer : (size : ℕ) (bs : List ℕ) → length bs ≤ size → length (buffer size bs) ≡ size
length-buffer size bs h = omega (
  arith,
  length-append bs (replicate (size - length bs) 0),
  length-replicate (size - length bs) (zero),
)
