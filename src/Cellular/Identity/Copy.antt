-- ===== src/Cellular/Identity/Copy.antt =====
-- The copying loop of the two functions, on bytes that are letters and digits up to some other byte.
use smart_door_lock.Base.{
  ℕ, suc, ◌+◌, ◌≤◌, ◌<◌, ◌≡◌, ◌∙◌, refl, sym, ap, List, [], ◌∷◌, ◌++◌, append_assoc, Bool, true,
  false, arith, All, length, length-append, drop, set, ltb, lt→ltb, le→ltb, Bool-cases, ltb→lt,
  length-set, inl, inr, none, some,
}
use smart_door_lock.Exec.{ok, fault}
use smart_door_lock.Cellular.Text.{isalnum}
use smart_door_lock.Cellular.Identity.{write, iccid_goes_on, imei_goes_on, copy_alnum, find_alnum}

-- With a length above 0 and a reply that is not empty the conditions hold for every `i`: neither loop
-- is bounded by the caller's length.
pub iccid_goes_on-true :
    (maxlen rc count i : ℕ) → 0 < maxlen → 0 < rc → iccid_goes_on maxlen rc count i ≡ true
unfolding iccid_goes_on
iccid_goes_on-true maxlen rc count i h k = ground arith

pub imei_goes_on-true :
    (maxlen rc count i : ℕ) → 0 < maxlen → 0 < rc → imei_goes_on maxlen rc count i ≡ true
unfolding imei_goes_on
imei_goes_on-true maxlen rc count i h k = ground arith

write-ok : (out : List ℕ) (k c : ℕ) → k < length out → write out k c ≡ ok (set out k c)
unfolding write
write-ok out k c h = rw (lt→ltb k (length out) h)

write-fault : (out : List ℕ) (k c : ℕ) → length out ≤ k → write out k c ≡ fault
unfolding write
write-fault out k c h = rw (le→ltb k (length out) h)

set-append :
    (front back : List ℕ) (k v : ℕ)
    → set (front ++ back) (length front + k) v ≡ front ++ set back k v
set-append [] back k v = ap (λ n. set back n v) (omega arith)
set-append (x ∷ front) back k v =
    let e : suc (length front) + k ≡ suc (length front + k) = omega arith in
    rw e (ap (λ l. x ∷ l) (set-append front back k v))

abbrev pub IsAlnum : ℕ → Type 0
IsAlnum c = isalnum c ≡ true

module _ (goes_on : ℕ → Bool) (always : (i : ℕ) → goes_on i ≡ true) where
  copy-last :
      (c : ℕ) (post : List ℕ) (i k : ℕ) (out : List ℕ)
      → isalnum c ≡ false
      → copy_alnum goes_on (c ∷ post) i k out ≡ write out (k + 1) 0
  unfolding copy_alnum
  copy-last c post i k out h = rw (always i, h)

  copy-next :
      (d : ℕ) (bs : List ℕ) (i k : ℕ) (out : List ℕ)
      → IsAlnum d
      → k < length out
      → copy_alnum goes_on (d ∷ bs) i k out ≡ copy_alnum goes_on bs (i + 1) (k + 1) (set out k d)
  unfolding copy_alnum
  copy-next d bs i k out h lt = rw (always i, h, lt→ltb k (length out) lt)

  copy-full :
      (d : ℕ) (bs : List ℕ) (i k : ℕ) (out : List ℕ)
      → IsAlnum d
      → length out ≤ k
      → copy_alnum goes_on (d ∷ bs) i k out ≡ fault
  unfolding copy_alnum
  copy-full d bs i k out h le = rw (always i, h, le→ltb k (length out) le)

  -- Where they fit, the characters are copied, the byte behind them is left as it was, and the NUL is
  -- put behind that byte.
  pub copy_fits :
      (ds : List ℕ) (c : ℕ) (post : List ℕ) (i : ℕ) (front back : List ℕ)
      → All IsAlnum ds
      → isalnum c ≡ false
      → length ds + 2 ≤ length back
      → copy_alnum goes_on (ds ++ c ∷ post) i (length front) (front ++ back)
        ≡ ok (front ++ set (ds ++ drop (length ds) back) (length ds + 1) 0)
  copy_fits [] c post i front back hs hc fit =
      let len = length-append front back in
      copy-last c post i (length front) (front ++ back) hc
      ∙ write-ok (front ++ back) (length front + 1) 0 (omega arith)
      ∙ ap ok (set-append front back 1 0)
  copy_fits (d ∷ ds) c post i front [] hs hc fit = absurd (omega arith)
  copy_fits (d ∷ ds) c post i front (b ∷ back) hs hc fit =
      let len = length-append front (b ∷ back) in
      let at : length front + 0 ≡ length front = omega arith in
      let put : set (front ++ b ∷ back) (length front) d ≡ (front ++ (d ∷ [])) ++ back =
        rw at at (set-append front (b ∷ back) 0 d) ∙ sym (append_assoc front (d ∷ []) back) in
      let more : length front + 1 ≡ length (front ++ (d ∷ [])) =
        omega (arith, length-append front (d ∷ [])) in
      let nul_at : suc (length ds) + 1 ≡ suc (length ds + 1) = omega arith in
      rw nul_at (
        copy-next d (ds ++ c ∷ post) i (length front) (front ++ b ∷ back) hs.0 (omega arith)
        ∙ ap (λ out. copy_alnum goes_on (ds ++ c ∷ post) (i + 1) (length front + 1) out) put
        ∙ ap (λ k. copy_alnum goes_on (ds ++ c ∷ post) (i + 1) k ((front ++ (d ∷ [])) ++ back)) more
        ∙ copy_fits ds c post (i + 1) (front ++ (d ∷ [])) back hs.1 hc (omega arith)
        ∙ ap ok (append_assoc front (d ∷ []) _))

  -- Where they do not, a byte is written past the end of the caller's array.
  pub copy_overflows :
      (ds : List ℕ) (c : ℕ) (post : List ℕ) (i k : ℕ) (out : List ℕ)
      → All IsAlnum ds
      → isalnum c ≡ false
      → length out ≤ k + length ds + 1
      → copy_alnum goes_on (ds ++ c ∷ post) i k out ≡ fault
  copy_overflows [] c post i k out hs hc full =
      copy-last c post i k out hc ∙ write-fault out (k + 1) 0 (omega arith)
  copy_overflows (d ∷ ds) c post i k out hs hc full = elim (Bool-cases (ltb k (length out))) [
    | inl room ↦
        copy-next d (ds ++ c ∷ post) i k out hs.0 (ltb→lt k (length out) room)
        ∙ copy_overflows ds c post (i + 1) (k + 1) (set out k d) hs.1 hc
            (omega (arith, length-set out k d))
    | inr none_left ↦ copy-full d (ds ++ c ∷ post) i k out hs.0 (ground arith)
  ]

-- The search for the first letter or digit, in a reply that is long enough to hold it.
pub find_alnum-append :
    (rc : ℕ) (pre : List ℕ) (d : ℕ) (bs : List ℕ) (count : ℕ)
    → All (λ c. isalnum c ≡ false) pre
    → IsAlnum d
    → count + length pre < rc
    → find_alnum rc (pre ++ d ∷ bs) count ≡ some (count + length pre, d ∷ bs)
unfolding find_alnum
find_alnum-append rc [] d bs count np hd h =
    let e : count + 0 ≡ count = omega arith in rw (hd, le→ltb rc (count + 1) (omega arith), e)
find_alnum-append rc (c ∷ pre) d bs count np hd h =
    let e : count + suc (length pre) ≡ count + 1 + length pre = omega arith in
    rw (np.0, e) (find_alnum-append rc pre d bs (count + 1) np.1 hd (omega arith))

pub find_alnum-none :
    (rc : ℕ) (bs : List ℕ) (count : ℕ)
    → All (λ c. isalnum c ≡ false) bs
    → find_alnum rc bs count ≡ none
unfolding find_alnum
find_alnum-none rc [] count h = refl
find_alnum-none rc (b ∷ bs) count h = rw h.0 (find_alnum-none rc bs (count + 1) h.1)
