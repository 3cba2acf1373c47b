-- ===== src/Cellular/Operators/Tests.antt =====
-- The operators of concrete replies.
use smart_door_lock.Base.{◌≡◌, refl, [], ◌∷◌, ◌++◌, true, arith, replicate}
use smart_door_lock.Base.Bytes.{codes}
use smart_door_lock.Base.Int.{pos}
use smart_door_lock.Exec.{ok, fault}
use smart_door_lock.Cellular.Text.{strtol}
use smart_door_lock.Cellular.Operators.{
  OperatorInfo, unknown_operator, operator_available, current_operator, pars_op, parse_operators,
}
use smart_door_lock.Strtok.{strtok_in}
use smart_door_lock.Cellular.Operators.Cut.{entry}
use smart_door_lock.Cellular.Operators.Entry.{IsOperator, long_name_faults}
use smart_door_lock.Cellular.Operators.Listing.{Op, IsListed, listing, stored_all, found}
use smart_door_lock.Cellular.Operators.Reply.{parse_operators-listing}

abbrev blank_op : OperatorInfo
blank_op = record {
  operator_name = replicate 6 0;
  operator_code = pos 0;
  access_technology = replicate 4 0;
  operator_status = unknown_operator;
}

two_found :
    parse_operators
      (blank_op ∷ blank_op ∷ blank_op ∷ [])
      (codes "+COPS: (2,\"Cell\",\"C\",\"42502\",2),(1,\"Pel\",\"P\",\"42503\",0)\r\n")
    ≡ ok (record {
      code = true;
      num_ops_found = 2;
      op_list =
          record {
            operator_name = codes "Cell" ++ 0 ∷ 0 ∷ [];
            operator_code = pos 42502;
            access_technology = codes "3G" ++ 0 ∷ 0 ∷ [];
            operator_status = current_operator;
          }
          ∷ record {
            operator_name = codes "Pel" ++ 0 ∷ 0 ∷ 0 ∷ [];
            operator_code = pos 42503;
            access_technology = codes "2G" ++ 0 ∷ 0 ∷ [];
            operator_status = operator_available;
          }
          ∷ blank_op
          ∷ [];
    })
unfolding parse_operators strtok_in strtol
two_found = refl

cell :
    IsOperator b'2'
      (codes "Cell")
      (codes "C")
      b'4'
      (codes "2502")
      b'2'
      30
      current_operator
      (codes "3G")
cell = record {
  plain_status = refl;
  plain_name = ground arith;
  plain_short = ground arith;
  plain_num = ground arith;
  plain_tech = refl;
  whole = omega arith;
  known = refl;
  spoken = refl;
}

-- An array of three characters.
long_name_faults_example :
    (pars_op
      (entry b'2' (codes "Cell") (codes "C") b'4' (codes "2502") b'2' (codes ","))
      30
      (record blank_op { operator_name = 0 ∷ 0 ∷ 0 ∷ [] })).0
    ≡ fault
long_name_faults_example =
    long_name_faults b'2' (codes "Cell") (codes "C") b'4' (codes "2502") b'2' (codes ",") 30
      (record blank_op { operator_name = 0 ∷ 0 ∷ 0 ∷ [] }) cell (omega arith)

abbrev blank_30 : OperatorInfo
blank_30 = record blank_op { operator_name = replicate 30 0 }

abbrev cellcom : Op
cellcom = record {
  status = b'2';
  name = codes "Cell";
  short = codes "C";
  n = b'4';
  num = codes "2502";
  tech = b'2';
  after = b',';
  known_status = current_operator;
  known_tech = codes "3G";
}

abbrev pelephone : Op
pelephone = record {
  status = b'1';
  name = codes "Pel";
  short = codes "P";
  n = b'4';
  num = codes "2503";
  tech = b'0';
  after = 13;
  known_status = operator_available;
  known_tech = codes "2G";
}

cellcom-IsListed : IsListed cellcom
cellcom-IsListed = record {
  operator = record {
    plain_status = refl;
    plain_name = ground arith;
    plain_short = ground arith;
    plain_num = ground arith;
    plain_tech = refl;
    whole = omega arith;
    known = refl;
    spoken = refl;
  };
  fits = omega arith;
}

pelephone-IsListed : IsListed pelephone
pelephone-IsListed = record {
  operator = record {
    plain_status = refl;
    plain_name = ground arith;
    plain_short = ground arith;
    plain_num = ground arith;
    plain_tech = refl;
    whole = omega arith;
    known = refl;
    spoken = refl;
  };
  fits = omega arith;
}

parse_operators-listing_example :
    parse_operators
      (blank_30 ∷ blank_30 ∷ blank_30 ∷ [])
      (codes "+COPS:" ++ 32 ∷ listing (cellcom ∷ pelephone ∷ []) (codes "\n"))
    ≡ found 2 (stored_all (cellcom ∷ pelephone ∷ []) (blank_30 ∷ blank_30 ∷ blank_30 ∷ []))
parse_operators-listing_example =
    parse_operators-listing (codes "+COPS:") (cellcom ∷ pelephone ∷ []) (codes "\n")
      (blank_30 ∷ blank_30 ∷ blank_30 ∷ []) (ground arith) (omega arith)
      (cellcom-IsListed, (pelephone-IsListed, tt)) (refl, (refl, (refl, tt))) (omega arith)
      (ground arith) (omega arith)
