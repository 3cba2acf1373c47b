-- ===== src/Cellular/Identity/Bounds.antt =====
-- What the two functions leave in the caller's array, and when they leave its bounds.
use smart_door_lock.Base.Bytes.{buffer}
use smart_door_lock.Base.{
  ℕ, zero, suc, ◌+◌, ◌-◌, ◌≤◌, ◌<◌, ◌≡◌, ◌≢◌, ◌∙◌, refl, ap, List, [], ◌∷◌, ◌++◌, append_assoc,
  false, arith, All, length, length-append, drop, set, replicate, some,
}
use smart_door_lock.Exec.{ok, fault}
use smart_door_lock.Cellular.Text.{isalnum, scan_past}
use smart_door_lock.Cellular.Scan.{scan_past-append}
use smart_door_lock.Cellular.Identity.{
  iccid_goes_on, imei_goes_on, copy_alnum, find_alnum, iccid_copy, imei_copy, parse_iccid,
  parse_imei,
}
use smart_door_lock.Cellular.Identity.Copy.{
  IsAlnum, iccid_goes_on-true, imei_goes_on-true, copy_fits, copy_overflows, find_alnum-append,
  find_alnum-none,
}

abbrev pub IsOther : ℕ → Type 0
IsOther c = isalnum c ≡ false

-- A reply to `AT+CGSN`: other characters, then the IMEI, then a character that ends it.
abbrev pub imei_reply : List ℕ → ℕ → List ℕ → ℕ → List ℕ → List ℕ
imei_reply pre d ds c post = pre ++ d ∷ (ds ++ c ∷ post)

-- A reply to `AT+CCID`: a first part up to a space, then the ICCID, then a character that ends it.
abbrev pub iccid_reply : List ℕ → List ℕ → ℕ → List ℕ → List ℕ
iccid_reply pre ds c post = pre ++ 32 ∷ (ds ++ c ∷ post)

abbrev zeros : List ℕ → List ℕ
zeros reply = replicate (50 - length reply) 0

length-imei_reply :
    (pre : List ℕ) (d : ℕ) (ds : List ℕ) (c : ℕ) (post : List ℕ)
    → length pre < length (imei_reply pre d ds c post)
length-imei_reply pre d ds c post = omega (arith, length-append pre (d ∷ (ds ++ c ∷ post)))

length-iccid_reply :
    (pre ds : List ℕ) (c : ℕ) (post : List ℕ) → 0 < length (iccid_reply pre ds c post)
length-iccid_reply pre ds c post = omega (arith, length-append pre (32 ∷ (ds ++ c ∷ post)))

-- The loops start their copy at the first character of the IMEI, and of the ICCID.
imei-starts :
    (pre : List ℕ) (d : ℕ) (ds : List ℕ) (c : ℕ) (post : List ℕ) (maxlen : ℕ) (imei : List ℕ)
    → All IsOther pre
    → IsAlnum d
    → parse_imei (imei_reply pre d ds c post) maxlen imei
      ≡ copy_alnum
          (imei_goes_on maxlen (length (imei_reply pre d ds c post)) (length pre))
          ((d ∷ ds) ++ c ∷ (post ++ zeros (imei_reply pre d ds c post)))
          (length pre)
          0
          imei
unfolding parse_imei
imei-starts pre d ds c post maxlen imei np hd =
    let reply : List ℕ = imei_reply pre d ds c post in
    let rc : ℕ = length reply in
    let shape : buffer 50 reply ≡ pre ++ d ∷ (ds ++ c ∷ (post ++ zeros reply)) =
      append_assoc pre (d ∷ (ds ++ c ∷ post)) (zeros reply)
      ∙ ap (λ l. pre ++ d ∷ l) (append_assoc ds (c ∷ post) (zeros reply)) in
    let start : 0 + length pre ≡ length pre = omega arith in
    let found =
      find_alnum-append rc pre d (ds ++ c ∷ (post ++ zeros reply)) 0 np hd
        (omega (arith, length-imei_reply pre d ds c post)) in
    ap (λ b. imei_copy maxlen rc (find_alnum rc b 0) imei) shape
    ∙ ap (λ o. imei_copy maxlen rc o imei) found
    ∙ ap (λ k. imei_copy maxlen rc (some (k, d ∷ (ds ++ c ∷ (post ++ zeros reply)))) imei) start

iccid-starts :
    (pre ds : List ℕ) (c : ℕ) (post : List ℕ) (maxlen : ℕ) (iccid : List ℕ)
    → All (λ x. x ≢ 32) pre
    → length pre < 49
    → parse_iccid (iccid_reply pre ds c post) maxlen iccid
      ≡ copy_alnum
          (iccid_goes_on maxlen (length (iccid_reply pre ds c post)) (0 + length pre + 1))
          (ds ++ c ∷ (post ++ zeros (iccid_reply pre ds c post)))
          (0 + length pre + 1)
          0
          iccid
unfolding parse_iccid
iccid-starts pre ds c post maxlen iccid np short =
    let reply : List ℕ = iccid_reply pre ds c post in
    let shape : buffer 50 reply ≡ pre ++ 32 ∷ (ds ++ c ∷ (post ++ zeros reply)) =
      append_assoc pre (32 ∷ (ds ++ c ∷ post)) (zeros reply)
      ∙ ap (λ l. pre ++ 32 ∷ l) (append_assoc ds (c ∷ post) (zeros reply)) in
    let found = scan_past-append 32 49 pre (ds ++ c ∷ (post ++ zeros reply)) 0 np (omega arith) in
    ap (λ b. iccid_copy maxlen (length reply) (scan_past 32 49 b 0) iccid) shape
    ∙ ap (λ o. iccid_copy maxlen (length reply) o iccid) found

-- An IMEI that is at least two characters shorter than the caller's array is copied to the array's
-- start. The byte behind it stays as it was, and the NUL is put behind that byte; so the array holds
-- the IMEI as a C string only if that byte was NUL before.
pub imei_fits :
    (pre : List ℕ) (d : ℕ) (ds : List ℕ) (c : ℕ) (post : List ℕ) (imei : List ℕ)
    → All IsOther pre
    → All IsAlnum (d ∷ ds)
    → isalnum c ≡ false
    → length ds + 3 ≤ length imei
    → parse_imei (imei_reply pre d ds c post) (length imei) imei
      ≡ ok (set ((d ∷ ds) ++ drop (length (d ∷ ds)) imei) (length (d ∷ ds) + 1) 0)
imei_fits pre d ds c post imei np hs hc fit =
    let reply : List ℕ = imei_reply pre d ds c post in
    imei-starts pre d ds c post (length imei) imei np hs.0
    ∙ copy_fits (imei_goes_on (length imei) (length reply) (length pre))
        (λ i.
          imei_goes_on-true (length imei) (length reply) (length pre) i (omega arith)
            (omega (arith, length-imei_reply pre d ds c post)))
        (d ∷ ds) c (post ++ zeros reply) (length pre) [] imei hs hc (omega arith)

-- An IMEI that is not two characters shorter than the caller's array is written past the array's end,
-- although its length is passed as `maxlen`.
pub imei_overflows :
    (pre : List ℕ) (d : ℕ) (ds : List ℕ) (c : ℕ) (post : List ℕ) (imei : List ℕ)
    → All IsOther pre
    → All IsAlnum (d ∷ ds)
    → isalnum c ≡ false
    → 0 < length imei
    → length imei < length ds + 3
    → parse_imei (imei_reply pre d ds c post) (length imei) imei ≡ fault
imei_overflows pre d ds c post imei np hs hc pos_len full =
    let reply : List ℕ = imei_reply pre d ds c post in
    imei-starts pre d ds c post (length imei) imei np hs.0
    ∙ copy_overflows (imei_goes_on (length imei) (length reply) (length pre))
        (λ i.
          imei_goes_on-true (length imei) (length reply) (length pre) i pos_len
            (omega (arith, length-imei_reply pre d ds c post)))
        (d ∷ ds) c (post ++ zeros reply) (length pre) 0 imei hs hc (omega arith)

All-replicate : (k : ℕ) → All IsOther (replicate k 0)
All-replicate zero = tt
All-replicate (suc k) = (refl, All-replicate k)

All-buffer : (bs : List ℕ) (k : ℕ) → All IsOther bs → All IsOther (bs ++ replicate k 0)
All-buffer [] k h = All-replicate k
All-buffer (b ∷ bs) k h = (h.0, All-buffer bs k h.1)

-- A reply with no letter or digit, an empty one (a timeout) among them, makes `CellularGetIMEI` read
-- past the end of its buffer.
pub imei_not_found :
    (reply : List ℕ) (maxlen : ℕ) (imei : List ℕ)
    → All IsOther reply
    → parse_imei reply maxlen imei ≡ fault
unfolding parse_imei
imei_not_found reply maxlen imei h =
    ap (λ o. imei_copy maxlen (length reply) o imei)
      (find_alnum-none (length reply) (buffer 50 reply) 0 (All-buffer reply (50 - length reply) h))

-- An ICCID, the letters and digits behind the first space of a reply, that is at least two characters
-- shorter than the caller's array is copied to the array's start. The byte behind it stays as it was,
-- and the NUL is put behind that byte.
iccid_fits :
    (pre ds : List ℕ) (c : ℕ) (post : List ℕ) (iccid : List ℕ)
    → All (λ x. x ≢ 32) pre
    → length pre < 49
    → All IsAlnum ds
    → isalnum c ≡ false
    → length ds + 2 ≤ length iccid
    → parse_iccid (iccid_reply pre ds c post) (length iccid) iccid
      ≡ ok (set (ds ++ drop (length ds) iccid) (length ds + 1) 0)
iccid_fits pre ds c post iccid np short hs hc fit =
    let reply : List ℕ = iccid_reply pre ds c post in
    iccid-starts pre ds c post (length iccid) iccid np short
    ∙ copy_fits (iccid_goes_on (length iccid) (length reply) (0 + length pre + 1))
        (λ i.
          iccid_goes_on-true (length iccid) (length reply) (0 + length pre + 1) i (omega arith)
            (length-iccid_reply pre ds c post))
        ds c (post ++ zeros reply) (0 + length pre + 1) [] iccid hs hc fit

-- An ICCID, the letters and digits behind the first space of a reply, that is not two characters
-- shorter than the caller's array is written past the array's end, although its length is passed as
-- `maxlen`.
iccid_overflows :
    (pre ds : List ℕ) (c : ℕ) (post : List ℕ) (iccid : List ℕ)
    → All (λ x. x ≢ 32) pre
    → length pre < 49
    → All IsAlnum ds
    → isalnum c ≡ false
    → 0 < length iccid
    → length iccid < length ds + 2
    → parse_iccid (iccid_reply pre ds c post) (length iccid) iccid ≡ fault
iccid_overflows pre ds c post iccid np short hs hc pos_len full =
    let reply : List ℕ = iccid_reply pre ds c post in
    iccid-starts pre ds c post (length iccid) iccid np short
    ∙ copy_overflows (iccid_goes_on (length iccid) (length reply) (0 + length pre + 1))
        (λ i.
          iccid_goes_on-true (length iccid) (length reply) (0 + length pre + 1) i pos_len
            (length-iccid_reply pre ds c post))
        ds c (post ++ zeros reply) (0 + length pre + 1) 0 iccid hs hc (omega arith)
