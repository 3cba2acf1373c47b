-- ===== src/Cellular/Operators/Cut.antt =====
-- One operator of the reply as the modem writes it, and how `strtok` cuts it up.
use smart_door_lock.Base.{
  ℕ, ◌+◌, ◌≤◌, ◌≡◌, refl, List, [], ◌∷◌, ◌++◌, false, ◌||◌, some, All, length, arith, ltb, le→ltb,
  ◌==◌, length-append,
}
use smart_door_lock.Cellular.Operators.{OperatorInfo, fill_in, pars_op}
use smart_door_lock.Strtok.{
  is_comma, is_comma_quote, is_comma_quote_bracket, IsToken, strtok_in-token, strtok_in-second,
}

-- A letter, a digit or another character that is none of the separators and not NUL.
abbrev pub IsPlain : ℕ → Type 0
IsPlain c = (c == 0 || is_comma_quote_bracket c) ≡ false

abbrev pub quoted : List ℕ → List ℕ
quoted text = text ++ b'"' ∷ []

-- An operator: `2,"name","short","num",tech)` without the bracket that opens it, and what follows.
abbrev pub entry :
    (status : ℕ) (name short : List ℕ) (n : ℕ) (num : List ℕ) (tech : ℕ) → List ℕ → List ℕ
entry status name short n num tech rest =
    status
    ∷ b','
    ∷ (b'"' ∷ quoted name
        ++ b','
          ∷ (b'"' ∷ quoted short ++ b',' ∷ b'"' ∷ (n ∷ num ++ b'"' ∷ b',' ∷ tech ∷ b')' ∷ rest)))

IsToken-quoted : (text : List ℕ) → All IsPlain text → IsToken is_comma (quoted text)
IsToken-quoted [] h = (refl, tt)
IsToken-quoted (c ∷ text) h = (ground (arith, h.0), IsToken-quoted text h.1)

IsToken-number : (text : List ℕ) → All IsPlain text → IsToken is_comma_quote text
IsToken-number [] h = tt
IsToken-number (c ∷ text) h = (ground (arith, h.0), IsToken-number text h.1)

-- What `pars_op` leaves of an operator in the array: NULs in place of the separators.
abbrev pub cut_entry :
    (status : ℕ) (name short : List ℕ) (n : ℕ) (num : List ℕ) (tech : ℕ) → List ℕ → List ℕ
cut_entry status name short n num tech rest =
    (status ∷ 0 ∷ [])
    ++ ((b'"' ∷ quoted name ++ 0 ∷ [])
        ++ ((b'"' ∷ quoted short ++ 0 ∷ []) ++ (b'"' ∷ n ∷ num ++ 0 ∷ [])))
    ++ ((b',' ∷ tech ∷ 0 ∷ []) ++ rest)

pub pars_op-tokens :
    (status : ℕ) (name short : List ℕ) (n : ℕ) (num : List ℕ) (tech : ℕ) (rest : List ℕ) (len : ℕ)
    (info : OperatorInfo)
    → IsPlain status
    → All IsPlain name
    → All IsPlain short
    → All IsPlain (n ∷ num)
    → IsPlain tech
    → pars_op (entry status name short n num tech rest) len info ≡ (
      fill_in
          (some (status ∷ []))
          (some (b'"' ∷ quoted name))
          (some (n ∷ num))
          (some (tech ∷ []))
          (ltb len (
            length (
              (status ∷ 0 ∷ [])
              ++ ((b'"' ∷ quoted name ++ 0 ∷ [])
                  ++ ((b'"' ∷ quoted short ++ 0 ∷ []) ++ (b'"' ∷ n ∷ num ++ 0 ∷ []))))
            + (1 + 1)))
          info,
      cut_entry status name short n num tech rest,
    )
unfolding pars_op
pars_op-tokens status name short n num tech rest len info hs hn hsh hnum ht =
    let after_num : List ℕ = b',' ∷ tech ∷ b')' ∷ rest in
    let after_short : List ℕ = b'"' ∷ (n ∷ num ++ b'"' ∷ after_num) in
    let after_name : List ℕ = b'"' ∷ quoted short ++ b',' ∷ after_short in
    let e1 =
      strtok_in-token is_comma status [] b',' (b'"' ∷ quoted name ++ b',' ∷ after_name)
        (ground (arith, hs), tt) (ground (arith, hs)) refl refl in
    let e2 =
      strtok_in-token is_comma b'"' (quoted name) b',' after_name (refl, IsToken-quoted name hn)
        refl refl refl in
    let e3 =
      strtok_in-token is_comma b'"' (quoted short) b',' after_short (refl, IsToken-quoted short hsh)
        refl refl refl in
    let e4 =
      strtok_in-second is_comma_quote b'"' n num b'"' after_num refl (IsToken-number (n ∷ num) hnum)
        (ground (arith, hnum.0)) refl refl in
    let e5 =
      strtok_in-second is_comma_quote_bracket b',' tech [] b')' rest refl (ht, tt)
        (ground (arith, ht)) refl refl in
    rw (e1, e2, e3, e4, e5)

pub length-quoted : (text : List ℕ) → length (quoted text) ≡ length text + 1
length-quoted text = length-append text (b'"' ∷ [])

-- The number of bytes of an operator, the bracket that closes it not counted.
abbrev pub entry_length : (name short num : List ℕ) → ℕ
entry_length name short num = length name + length short + length num + 13

pub passed-length :
    (status : ℕ) (name short : List ℕ) (n : ℕ) (num : List ℕ)
    → length (
          (status ∷ 0 ∷ [])
          ++ ((b'"' ∷ quoted name ++ 0 ∷ [])
              ++ ((b'"' ∷ quoted short ++ 0 ∷ []) ++ (b'"' ∷ n ∷ num ++ 0 ∷ []))))
        + (1 + 1)
      ≡ entry_length name short num
passed-length status name short n num = omega (
  arith,
  length-append (b'"' ∷ quoted name ++ 0 ∷ [])
      ((b'"' ∷ quoted short ++ 0 ∷ []) ++ (b'"' ∷ n ∷ num ++ 0 ∷ [])),
  length-append (b'"' ∷ quoted short ++ 0 ∷ []) (b'"' ∷ n ∷ num ++ 0 ∷ []),
  length-append (b'"' ∷ quoted name) (0 ∷ []),
  length-append (b'"' ∷ quoted short) (0 ∷ []),
  length-append (b'"' ∷ n ∷ num) (0 ∷ []),
  length-quoted name,
  length-quoted short,
)

-- The length test of `pars_op` passes on an operator that is whole.
pub not_too_long :
    (status : ℕ) (name short : List ℕ) (n : ℕ) (num : List ℕ) (len : ℕ)
    → entry_length name short num ≤ len
    → ltb len (
        length (
          (status ∷ 0 ∷ [])
          ++ ((b'"' ∷ quoted name ++ 0 ∷ [])
              ++ ((b'"' ∷ quoted short ++ 0 ∷ []) ++ (b'"' ∷ n ∷ num ++ 0 ∷ []))))
        + (1 + 1))
      ≡ false
not_too_long status name short n num len le =
    le→ltb len _ (rw (passed-length status name short n num) le)
