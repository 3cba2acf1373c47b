-- ===== src/Cellular/Operators.antt =====
-- cellular.c: the operators that the modem finds (`AT+COPS=?`). `strtok` writes into the array that it
-- cuts up, and the loop goes on in what it has left there.
pub mod Cut
pub mod Entry
pub mod Listing
pub mod Reply
mod Tests
use smart_door_lock.Base.{
  ℕ, zero, suc, ◌+◌, ◌-◌, List, [], ◌∷◌, ◌++◌, Bool, true, false, ◌||◌, Option, none, some, length,
  take, drop, ltb, leb, ◌==◌, if◌then◌else◌,
}
use smart_door_lock.Base.Bytes.{buffer, codes, c_string}
use smart_door_lock.Base.Int.{ℤ, pos, negsuc}
use smart_door_lock.SerialIo.{SerialIo}
use smart_door_lock.Exec.{Result, ok, err, fault, Exec, pure, raise, crash, check, ◌>>=◌, ◌>>◌}
use smart_door_lock.Cellular.{Cell, State, exchange}
use smart_door_lock.Cellular.Text.{long_time, scan_past, strtol}
use smart_door_lock.Strtok.{Tok, strtok_in, is_comma, is_comma_quote, is_comma_quote_bracket}

abbrev pub cops : List ℕ
cops = codes "AT+COPS=?\r\n"

abbrev pub max_operator_name : ℕ
max_operator_name = 30

-- `OP_STATUS`
pub data OpStatus : Type 0 where
  unknown_operator operator_available current_operator operator_forbidden : OpStatus

pub record OperatorInfo : Type 0 where
  pub operator_name : List ℕ
  pub operator_code : ℤ
  pub access_technology : List ℕ
  pub operator_status : OpStatus

-- The first `switch` of `pars_op`, on `*status`.
abbrev pub status_of : List ℕ → Option OpStatus
status_of [] = none
status_of (c ∷ _) =
    if c == b'0'
    then some unknown_operator
    else if c == b'1'
    then some operator_available
    else if c == b'2'
    then some current_operator
    else if c == b'3'
    then some operator_forbidden
    else none

-- The second, on `*technology`.
abbrev pub technology_of : List ℕ → Option (List ℕ)
technology_of [] = none
technology_of (c ∷ _) =
    if c == b'0' then some (codes "2G") else if c == b'2' then some (codes "3G") else none

-- `memcpy(op_info->operator_name, opname + 1, strlen(opname) - 2)`, with the length as a `size_t`.
unfoldable pub put_name : List ℕ → OperatorInfo → Result OperatorInfo
put_name opname info =
    if ltb (length opname) 2 || ltb (length info.operator_name) (length opname - 2)
    then fault
    else ok (record info {
      operator_name =
          take (length opname - 2) (drop 1 opname) ++ drop (length opname - 2) info.operator_name;
    })

-- A return code (`true` is 0, `false` is -1) and the struct as it is left.
abbrev pub Parsed : Type 0
Parsed = Bool × OperatorInfo

abbrev pub named : Result OperatorInfo → Result Parsed
named (ok info) = ok (true, info)
named err = err
named fault = fault

abbrev with_technology : Option (List ℕ) → (opname opnum : List ℕ) → OperatorInfo → Result Parsed
with_technology none opname opnum info = ok (false, info)
with_technology (some tech) opname opnum info = named (
    put_name opname (record info {
      access_technology = tech ++ drop 2 info.access_technology;
      operator_code = strtol opnum;
    }))

abbrev with_status :
    Option OpStatus → (opname opnum technology : List ℕ) → OperatorInfo → Result Parsed
with_status none opname opnum technology info = ok (false, info)
with_status (some s) opname opnum technology info =
    with_technology (technology_of technology) opname opnum (record info { operator_status = s })

-- `pars_op` on the four tokens; the last test of the first `if` is `too_long`.
unfoldable pub fill_in :
    (status opname opnum technology : Option (List ℕ)) (too_long : Bool)
    → OperatorInfo
    → Result Parsed
unfolding put_name
fill_in (some status) (some opname) (some opnum) (some technology) false info =
    with_status (status_of status) opname opnum technology info
fill_in _ _ _ _ _ info = ok (false, info)

-- What `pars_op` makes of the array from `start` on, and what it stores.
unfoldable pub pars_op : List ℕ → ℕ → OperatorInfo → Result Parsed × List ℕ
unfolding fill_in
pars_op start len info =
    let status = strtok_in is_comma start in
    let opname = strtok_in is_comma status.rest in
    let short = strtok_in is_comma opname.rest in
    let opnum = strtok_in is_comma_quote short.rest in
    let technology = strtok_in is_comma_quote_bracket opnum.rest in
    let before = status.passed ++ (opname.passed ++ (short.passed ++ opnum.passed)) in
    (
      fill_in status.token opname.token opnum.token technology.token
          (ltb len (length before + technology.end_at)) info,
      before ++ (technology.passed ++ technology.rest),
    )

-- The code, `*numOpsFound` and the list.
pub record Found : Type 0 where
  pub code : Bool
  pub num_ops_found : ℕ
  pub op_list : List OperatorInfo

abbrev pub add_op : OperatorInfo → Result Found → Result Found
add_op o (ok f) = ok (record f { op_list = o ∷ f.op_list })
add_op o err = err
add_op o fault = fault

-- What the loop does with a result of `pars_op`; `more` is the further rounds, on the array as it is
-- then.
abbrev pub next_op :
    (List ℕ → Result Found) → List OperatorInfo → Result Parsed × List ℕ → Result Found
next_op more later (ok (true, o), buf) = add_op o (more buf)
next_op more later (ok (false, o), buf) =
    ok (record { code = false; num_ops_found = 0; op_list = o ∷ later })
next_op more later (err, buf) = fault
next_op more later (fault, buf) = fault

abbrev pub op_round :
    (ℕ → List ℕ → Result Found)
    → List ℕ
    → (p i : ℕ) → OperatorInfo
    → List OperatorInfo
    → Option (ℕ × List ℕ)
    → Result Found
op_round more ptr p i o later none = fault
op_round more ptr p i o later (some (q, _)) =
    if leb 1024 q
    then ok (record { code = true; num_ops_found = i; op_list = o ∷ later })
    else next_op (λ buf. more (q + 1) (drop (q - p) buf)) later (pars_op (drop 1 ptr) (q - p) o)

-- The loop from `opList[i]` on, with `ptr` at `buf[p]`.
unfoldable pub ops_from : List OperatorInfo → (i p : ℕ) → List ℕ → Result Found
unfolding pars_op scan_past
ops_from [] i p ptr = ok (record { code = true; num_ops_found = i; op_list = [] })
ops_from (o ∷ later) i p ptr =
    op_round (ops_from later (i + 1)) ptr p i o later (scan_past b')' 1024 ptr p)

abbrev pub ops_at : List OperatorInfo → Option (ℕ × List ℕ) → Result Found
ops_at op_list none = fault
ops_at op_list (some (count, ptr)) = ops_from op_list 0 count ptr

-- On a reply in the array of 1024 bytes.
unfoldable pub parse_operators : List OperatorInfo → List ℕ → Result Found
unfolding ops_from scan_past
parse_operators op_list reply = ops_at op_list (scan_past 32 1023 (buffer 1024 reply) 0)

module _ (io : SerialIo) where
  -- The array has `maxops` entries, which are its length. With none the function returns 0 at once and
  -- leaves `numOpsFound` as it was.
  pub cellular_get_operators : List OperatorInfo → (num_ops_found : ℕ) → Exec (State io) Found
  unfolding exchange parse_operators
  cellular_get_operators [] num_ops_found =
      pure (record { code = true; num_ops_found = num_ops_found; op_list = [] })
  cellular_get_operators (o ∷ later) num_ops_found = do
    reply ← exchange io cops 1023 long_time
    λ s. (parse_operators (o ∷ later) reply, s)
