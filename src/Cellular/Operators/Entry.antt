-- ===== src/Cellular/Operators/Entry.antt =====
-- What `pars_op` stores of one operator of the reply.
use smart_door_lock.Base.{
  ℕ, ◌-◌, ◌≤◌, ◌<◌, ◌≡◌, ◌∙◌, ap, List, [], ◌∷◌, ◌++◌, true, false, some, All, length, drop, arith,
  ltb, le→ltb, lt→ltb, take-append_self,
}
use smart_door_lock.Exec.{Result, ok, fault}
use smart_door_lock.Cellular.Text.{strtol}
use smart_door_lock.Cellular.Operators.{
  OperatorInfo, OpStatus, status_of, technology_of, put_name, named, fill_in, pars_op,
}
use smart_door_lock.Cellular.Operators.Cut.{
  IsPlain, quoted, entry, cut_entry, pars_op-tokens, not_too_long, length-quoted, entry_length,
}

-- The name without its quotes goes to the start of the array; a NUL is not put behind it.
put_name-fits :
    (name : List ℕ) (info : OperatorInfo)
    → length name ≤ length info.operator_name
    → put_name (b'"' ∷ quoted name) info
      ≡ ok (record info { operator_name = name ++ drop (length name) info.operator_name })
unfolding put_name
put_name-fits name info h =
    let size : length (b'"' ∷ quoted name) - 2 ≡ length name = omega (arith, length-quoted name) in
    let long : ltb (length (b'"' ∷ quoted name)) 2 ≡ false =
      le→ltb _ _ (omega (arith, length-quoted name)) in
    let fits : ltb (length info.operator_name) (length (b'"' ∷ quoted name) - 2) ≡ false =
      le→ltb _ _ (omega (arith, length-quoted name)) in
    rw (long, fits, size, take-append_self name (b'"' ∷ []))

put_name-too_long :
    (name : List ℕ) (info : OperatorInfo)
    → length info.operator_name < length name
    → put_name (b'"' ∷ quoted name) info ≡ fault
unfolding put_name
put_name-too_long name info h =
    let long : ltb (length info.operator_name) (length (b'"' ∷ quoted name) - 2) ≡ true =
      lt→ltb _ _ (omega (arith, length-quoted name)) in
    ground (arith, long)

-- An operator of the reply, whole and with a known status and technology.
pub record IsOperator (status : ℕ) (name short : List ℕ) (n : ℕ) (num : List ℕ) (tech : ℕ) (len : ℕ)
    (s : OpStatus) (t : List ℕ) : Type 0 where
  pub plain_status : IsPlain status
  pub plain_name : All IsPlain name
  pub plain_short : All IsPlain short
  pub plain_num : All IsPlain (n ∷ num)
  pub plain_tech : IsPlain tech
  pub whole : entry_length name short num ≤ len
  pub known : status_of (status ∷ []) ≡ some s
  pub spoken : technology_of (tech ∷ []) ≡ some t

-- The struct before the name is copied.
abbrev filled : OpStatus → List ℕ → List ℕ → OperatorInfo → OperatorInfo
filled s t num info = record info {
  operator_status = s;
  access_technology = t ++ drop 2 info.access_technology;
  operator_code = strtol num;
}

fill_in-known :
    (status tech : ℕ) (opname num : List ℕ) (info : OperatorInfo) {s : OpStatus} {t : List ℕ}
    {r : Result OperatorInfo}
    → status_of (status ∷ []) ≡ some s
    → technology_of (tech ∷ []) ≡ some t
    → put_name opname (filled s t num info) ≡ r
    → fill_in (some (status ∷ [])) (some opname) (some num) (some (tech ∷ [])) false info ≡ named r
unfolding fill_in
fill_in-known status tech opname num info known spoken e = rw (known, spoken, e)

-- `pars_op` on a whole operator whose name fits: the status, the technology, the number and the name
-- without its quotes are stored, and the separators in the array have become NULs.
pub pars_op-entry :
    (status : ℕ) (name short : List ℕ) (n : ℕ) (num : List ℕ) (tech : ℕ) (rest : List ℕ) (len : ℕ)
    (info : OperatorInfo) {s : OpStatus} {t : List ℕ}
    → IsOperator status name short n num tech len s t
    → length name ≤ length info.operator_name
    → pars_op (entry status name short n num tech rest) len info ≡ (
      ok (
        true,
        record {
          operator_name = name ++ drop (length name) info.operator_name;
          operator_code = strtol (n ∷ num);
          access_technology = t ++ drop 2 info.access_technology;
          operator_status = s;
        },
      ),
      cut_entry status name short n num tech rest,
    )
pars_op-entry status name short n num tech rest len info {s} {t} o fits =
    pars_op-tokens status name short n num tech rest len info o.plain_status o.plain_name
      o.plain_short o.plain_num o.plain_tech
    ∙ ap
        (λ b. (
          fill_in (some (status ∷ [])) (some (b'"' ∷ quoted name)) (some (n ∷ num))
              (some (tech ∷ [])) b info,
          cut_entry status name short n num tech rest,
        ))
        (not_too_long status name short n num len o.whole)
    ∙ ap (λ r. (r, cut_entry status name short n num tech rest))
        (fill_in-known status tech (b'"' ∷ quoted name) (n ∷ num) info o.known o.spoken
          (put_name-fits name (filled s t (n ∷ num) info) fits))

-- On a whole operator whose name has more characters than the array, `pars_op` copies the name past
-- the array's end.
pub long_name_faults :
    (status : ℕ) (name short : List ℕ) (n : ℕ) (num : List ℕ) (tech : ℕ) (rest : List ℕ) (len : ℕ)
    (info : OperatorInfo) {s : OpStatus} {t : List ℕ}
    → IsOperator status name short n num tech len s t
    → length info.operator_name < length name
    → (pars_op (entry status name short n num tech rest) len info).0 ≡ fault
long_name_faults status name short n num tech rest len info {s} {t} o long =
    ap (λ p. p.0)
      (pars_op-tokens status name short n num tech rest len info o.plain_status o.plain_name
        o.plain_short o.plain_num o.plain_tech)
    ∙ ap
        (λ b.
          fill_in (some (status ∷ [])) (some (b'"' ∷ quoted name)) (some (n ∷ num))
            (some (tech ∷ [])) b info)
        (not_too_long status name short n num len o.whole)
    ∙ fill_in-known status tech (b'"' ∷ quoted name) (n ∷ num) info o.known o.spoken
        (put_name-too_long name (filled s t (n ∷ num) info) long)
