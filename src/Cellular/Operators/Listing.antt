-- ===== src/Cellular/Operators/Listing.antt =====
-- A whole list of operators, as the modem writes it and as the loop of `CellularGetOperators` reads it.
use smart_door_lock.Base.{
  ℕ, suc, ◌+◌, ◌-◌, ◌≤◌, ◌<◌, ◌≡◌, ◌≢◌, ◌∙◌, ap, List, [], ◌∷◌, ◌++◌, true, false, some, All,
  length, drop, arith, leb,
}
use smart_door_lock.Exec.{Result, ok}
use smart_door_lock.Cellular.Text.{strtol, scan_past}
use smart_door_lock.Cellular.Scan.{scan_past-append}
use smart_door_lock.Cellular.Operators.{
  OperatorInfo, OpStatus, max_operator_name, pars_op, Found, ops_from, op_round, next_op, add_op,
}
use smart_door_lock.Cellular.Operators.Cut.{
  IsPlain, quoted, entry, cut_entry, entry_length, length-quoted, passed-length,
}
use smart_door_lock.Cellular.Operators.Entry.{IsOperator, pars_op-entry}

-- The loop passes over bytes that are not the separator.
scan_past-skip :
    (sep limit : ℕ) (pre post : List ℕ) (count : ℕ)
    → All (λ c. c ≢ sep) pre
    → count + length pre < limit
    → scan_past sep limit (pre ++ post) count ≡ scan_past sep limit post (count + length pre)
unfolding scan_past
scan_past-skip sep limit [] post count np h = ap (scan_past sep limit post) (omega arith)
scan_past-skip sep limit (c ∷ pre) post count np h =
    ground (arith, np.0, scan_past-skip sep limit pre post (count + 1) np.1 (omega arith))

abbrev pub IsInside : List ℕ → Type 0
IsInside = All (λ c. c ≢ b')')

plain-not_close : (c : ℕ) → IsPlain c → c ≢ b')'
plain-not_close c h e = ground (arith, h)

plain-IsInside : (text : List ℕ) → All IsPlain text → IsInside text
plain-IsInside [] h = tt
plain-IsInside (c ∷ text) h = (plain-not_close c h.0, plain-IsInside text h.1)

quoted-IsInside : (text : List ℕ) → All IsPlain text → IsInside (quoted text)
quoted-IsInside [] h = ((λ e. omega arith), tt)
quoted-IsInside (c ∷ text) h = (plain-not_close c h.0, quoted-IsInside text h.1)

scan_past-entry :
    (status : ℕ) (name short : List ℕ) (n : ℕ) (num : List ℕ) (tech : ℕ) (rest : List ℕ) (p len : ℕ)
    {s : OpStatus} {t : List ℕ}
    → IsOperator status name short n num tech len s t
    → p + entry_length name short num < 1024
    → scan_past b')' 1024 (entry status name short n num tech rest) p
      ≡ some (p + entry_length name short num + 1, rest)
scan_past-entry status name short n num tech rest p len o h =
    let a : List ℕ = status ∷ b',' ∷ b'"' ∷ quoted name in
    let b : List ℕ = b',' ∷ b'"' ∷ quoted short in
    let c : List ℕ = b',' ∷ b'"' ∷ n ∷ num in
    let d : List ℕ = b'"' ∷ b',' ∷ tech ∷ [] in
    let ln = length-quoted name in
    let ls = length-quoted short in
    let post : List ℕ = b')' ∷ rest in
    scan_past-skip b')' 1024 a (b ++ (c ++ (d ++ post))) p
      (
        plain-not_close status o.plain_status,
        ((λ e. omega arith), ((λ e. omega arith), quoted-IsInside name o.plain_name)),
      )
      (omega (arith, ln))
    ∙ scan_past-skip b')' 1024 b (c ++ (d ++ post)) (p + length a)
        ((λ e. omega arith), ((λ e. omega arith), quoted-IsInside short o.plain_short))
        (omega (arith, ln, ls))
    ∙ scan_past-skip b')' 1024 c (d ++ post) (p + length a + length b)
        ((λ e. omega arith), ((λ e. omega arith), plain-IsInside (n ∷ num) o.plain_num))
        (omega (arith, ln, ls))
    ∙ scan_past-append b')' 1024 d rest (p + length a + length b + length c)
        ((λ e. omega arith), ((λ e. omega arith), (plain-not_close tech o.plain_tech, tt)))
        (omega (arith, ln, ls))
    ∙ ap (λ k. some (k, rest)) (omega (arith, ln, ls))

drop-at : (xs : List ℕ) (k m : ℕ) → k ≡ m → drop k xs ≡ drop m xs
drop-at xs k m e = ap (λ j. drop j xs) e

drop-append : (front rest : List ℕ) (k : ℕ) → drop (length front + k) (front ++ rest) ≡ drop k rest
drop-append [] rest k = ap (λ m. drop m rest) (omega arith)
drop-append (x ∷ front) rest k =
    drop-at (x ∷ (front ++ rest)) (suc (length front) + k) (suc (length front + k)) (omega arith)
    ∙ drop-append front rest k

drop-cut_entry :
    (status : ℕ) (name short : List ℕ) (n : ℕ) (num : List ℕ) (tech : ℕ) (rest : List ℕ)
    → drop (entry_length name short num + 2) (cut_entry status name short n num tech rest)
      ≡ drop 1 rest
drop-cut_entry status name short n num tech rest =
    let front : List ℕ =
      status
      ∷ 0
      ∷ ((b'"' ∷ quoted name ++ 0 ∷ [])
          ++ ((b'"' ∷ quoted short ++ 0 ∷ []) ++ (b'"' ∷ n ∷ num ++ 0 ∷ []))) in
    let behind : List ℕ = b',' ∷ tech ∷ 0 ∷ rest in
    drop-at (front ++ behind) (entry_length name short num + 2) (length front + 4)
      (omega (arith, passed-length status name short n num))
    ∙ drop-append front behind 4

op_round-found :
    (more : ℕ → List ℕ → Result Found) (ptr : List ℕ) (p i : ℕ) (o : OperatorInfo)
    (later : List OperatorInfo) (q : ℕ) (r : List ℕ)
    → leb 1024 q ≡ false
    → op_round more ptr p i o later (some (q, r))
      ≡ next_op (λ buf. more (q + 1) (drop (q - p) buf)) later (pars_op (drop 1 ptr) (q - p) o)
op_round-found more ptr p i o later q r h = rw h

-- A round of the loop on an operator whose name fits the array: its fields are stored, and the loop
-- goes on behind the byte that follows the closing bracket.
ops_from-entry :
    (status : ℕ) (name short : List ℕ) (n : ℕ) (num : List ℕ) (tech c : ℕ) (rest : List ℕ) (i p : ℕ)
    (info : OperatorInfo) (later : List OperatorInfo) {s : OpStatus} {t : List ℕ}
    → IsOperator status name short n num tech (entry_length name short num + 2) s t
    → length name ≤ length info.operator_name
    → p + entry_length name short num + 2 < 1024
    → ops_from (info ∷ later) i p (b'(' ∷ entry status name short n num tech (c ∷ rest))
      ≡ add_op
          (record {
            operator_name = name ++ drop (length name) info.operator_name;
            operator_code = strtol (n ∷ num);
            access_technology = t ++ drop 2 info.access_technology;
            operator_status = s;
          })
          (ops_from later (i + 1) (p + entry_length name short num + 3) rest)
unfolding ops_from
ops_from-entry status name short n num tech c rest i p info later {s} {t} o fits h =
    let l = entry_length name short num in
    let ptr : List ℕ = b'(' ∷ entry status name short n num tech (c ∷ rest) in
    let more = ops_from later (i + 1) in
    let q = p + 1 + l + 1 in
    let stored : OperatorInfo = record {
      operator_name = name ++ drop (length name) info.operator_name;
      operator_code = strtol (n ∷ num);
      access_technology = t ++ drop 2 info.access_technology;
      operator_status = s;
    } in
    let here : q - p ≡ l + 2 = omega arith in
    ap (op_round more ptr p i info later) (
      scan_past-skip b')' 1024 (b'(' ∷ []) (entry status name short n num tech (c ∷ rest)) p
        ((λ e. omega arith), tt) (omega arith)
      ∙ scan_past-entry status name short n num tech (c ∷ rest) (p + 1) (l + 2) o (omega arith))
    ∙ op_round-found more ptr p i info later q (c ∷ rest) (ground arith)
    ∙ ap (next_op (λ buf. more (q + 1) (drop (q - p) buf)) later) (
        ap (λ k. pars_op (entry status name short n num tech (c ∷ rest)) k info) here
        ∙ pars_op-entry status name short n num tech (c ∷ rest) (l + 2) info o fits)
    ∙ ap (λ b. add_op stored (more (q + 1) b))
        (drop-at (cut_entry status name short n num tech (c ∷ rest)) (q - p) (l + 2) here
          ∙ drop-cut_entry status name short n num tech (c ∷ rest))
    ∙ ap (λ k. add_op stored (more k rest)) (omega arith)

-- An operator of the list, with the byte behind its bracket.
pub record Op : Type 0 where
  pub status : ℕ
  pub name : List ℕ
  pub short : List ℕ
  pub n : ℕ
  pub num : List ℕ
  pub tech : ℕ
  pub after : ℕ
  pub known_status : OpStatus
  pub known_tech : List ℕ

-- Its fields are plain, its status and its technology known, and its name fits the array.
pub record IsListed (o : Op) : Type 0 where
  pub operator :
      IsOperator o.status o.name o.short o.n o.num o.tech
        (entry_length o.name o.short o.num + 2)
        o.known_status
        o.known_tech
  pub fits : length o.name ≤ max_operator_name

-- The reply from the first bracket on.
abbrev pub listing : List Op → List ℕ → List ℕ
listing [] tail = tail
listing (o ∷ os) tail =
    b'(' ∷ entry o.status o.name o.short o.n o.num o.tech (o.after ∷ listing os tail)

-- What an entry of the array holds of an operator.
abbrev pub stored_in : Op → OperatorInfo → OperatorInfo
stored_in o info = record {
  operator_name = o.name ++ drop (length o.name) info.operator_name;
  operator_code = strtol (o.n ∷ o.num);
  access_technology = o.known_tech ++ drop 2 info.access_technology;
  operator_status = o.known_status;
}

abbrev pub stored_all : List Op → List OperatorInfo → List OperatorInfo
stored_all [] infos = infos
stored_all (o ∷ os) [] = []
stored_all (o ∷ os) (info ∷ infos) = stored_in o info ∷ stored_all os infos

abbrev pub listing_length : List Op → ℕ
listing_length [] = 0
listing_length (o ∷ os) = entry_length o.name o.short o.num + 3 + listing_length os

scan_past-end :
    (sep : ℕ) (tail : List ℕ) (p : ℕ)
    → All (λ c. c ≢ sep) tail
    → 0 < length tail
    → p + length tail ≡ 1024
    → scan_past sep 1024 tail p ≡ some (1024, [])
unfolding scan_past
scan_past-end sep [] p np pos e = absurd (omega arith)
scan_past-end sep (c ∷ []) p np pos e = ground (arith, e)
scan_past-end sep (c ∷ d ∷ tail) p np pos e =
    ground (arith, np.0, scan_past-end sep (d ∷ tail) (p + 1) np.1 (omega arith) (omega arith))

-- 0 is returned, with this number and this list.
abbrev pub found : ℕ → List OperatorInfo → Result Found
found k infos = ok (record { code = true; num_ops_found = k; op_list = infos })

-- The loop on a list of operators, from `opList[i]` on.
pub ops_from-listing :
    (os : List Op) (infos : List OperatorInfo) (i p : ℕ) (tail : List ℕ)
    → All IsListed os
    → All (λ info. length info.operator_name ≡ max_operator_name) infos
    → length os ≤ length infos
    → IsInside tail
    → 0 < length tail
    → p + listing_length os + length tail ≡ 1024
    → ops_from infos i p (listing os tail) ≡ found (i + length os) (stored_all os infos)
unfolding ops_from
ops_from-listing [] [] i p tail h a le np pos e = ap (λ k. found k []) (omega arith)
ops_from-listing [] (info ∷ infos) i p tail h a le np pos e =
    ap (op_round (ops_from infos (i + 1)) tail p i info infos)
      (scan_past-end b')' tail p np pos (omega arith))
    ∙ ap (λ k. found k (info ∷ infos)) (omega arith)
ops_from-listing (o ∷ os) [] i p tail h a le np pos e = absurd (omega arith)
ops_from-listing (o ∷ os) (info ∷ infos) i p tail h a le np pos e =
    ops_from-entry o.status o.name o.short o.n o.num o.tech o.after (listing os tail) i p info infos
      h.0.operator (omega (arith, h.0.fits, a.0)) (omega arith)
    ∙ ap (add_op (stored_in o info)) (
        ops_from-listing os infos (i + 1) (p + entry_length o.name o.short o.num + 3) tail h.1 a.1
          (omega arith) np pos (omega arith))
    ∙ ap (λ k. found k (stored_in o info ∷ stored_all os infos)) (omega arith)
