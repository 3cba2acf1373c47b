-- ===== src/Cellular/Operators/Reply.antt =====
-- What `CellularGetOperators` makes of a whole reply.
use smart_door_lock.Base.{
  ℕ, zero, suc, ◌+◌, ◌-◌, ◌≤◌, ◌<◌, ◌≡◌, ◌≢◌, ◌∙◌, refl, ap, List, [], ◌∷◌, ◌++◌, All, length,
  arith, length-append, length-replicate, append_assoc, replicate,
}
use smart_door_lock.Cellular.Text.{scan_past}
use smart_door_lock.Cellular.Scan.{scan_past-append}
use smart_door_lock.Cellular.Operators.{OperatorInfo, max_operator_name, ops_at, parse_operators}
use smart_door_lock.Cellular.Operators.Cut.{quoted, entry, entry_length, length-quoted}
use smart_door_lock.Cellular.Operators.Listing.{
  IsInside, Op, IsListed, listing, listing_length, stored_all, found, ops_from-listing,
}

entry_append :
    (status : ℕ) (name short : List ℕ) (n : ℕ) (num : List ℕ) (tech : ℕ) (rest zeros : List ℕ)
    → entry status name short n num tech rest ++ zeros
      ≡ entry status name short n num tech (rest ++ zeros)
entry_append status name short n num tech rest zeros =
    let a : List ℕ = status ∷ b',' ∷ b'"' ∷ quoted name in
    let b : List ℕ = b',' ∷ b'"' ∷ quoted short in
    let c : List ℕ = b',' ∷ b'"' ∷ n ∷ num in
    let d : List ℕ = b'"' ∷ b',' ∷ tech ∷ b')' ∷ rest in
    append_assoc a (b ++ (c ++ d)) zeros
    ∙ ap (λ e. a ++ e) (append_assoc b (c ++ d) zeros ∙ ap (λ e. b ++ e) (append_assoc c d zeros))

length-entry :
    (status : ℕ) (name short : List ℕ) (n : ℕ) (num : List ℕ) (tech : ℕ) (rest : List ℕ)
    → length (entry status name short n num tech rest)
      ≡ entry_length name short num + 1 + length rest
length-entry status name short n num tech rest =
    let a : List ℕ = status ∷ b',' ∷ b'"' ∷ quoted name in
    let b : List ℕ = b',' ∷ b'"' ∷ quoted short in
    let c : List ℕ = b',' ∷ b'"' ∷ n ∷ num in
    let d : List ℕ = b'"' ∷ b',' ∷ tech ∷ b')' ∷ rest in
    omega (
      arith,
      length-append a (b ++ (c ++ d)),
      length-append b (c ++ d),
      length-append c d,
      length-quoted name,
      length-quoted short,
    )

listing_append :
    (os : List Op) (tail zeros : List ℕ) → listing os tail ++ zeros ≡ listing os (tail ++ zeros)
listing_append [] tail zeros = refl
listing_append (o ∷ os) tail zeros =
    ap (λ l. b'(' ∷ l)
      (entry_append o.status o.name o.short o.n o.num o.tech (o.after ∷ listing os tail) zeros
        ∙ ap (λ l. entry o.status o.name o.short o.n o.num o.tech (o.after ∷ l))
            (listing_append os tail zeros))

length-listing :
    (os : List Op) (tail : List ℕ) → length (listing os tail) ≡ listing_length os + length tail
length-listing [] tail = omega arith
length-listing (o ∷ os) tail = omega (
  arith,
  length-entry o.status o.name o.short o.n o.num o.tech (o.after ∷ listing os tail),
  length-listing os tail,
)

zeros-IsInside : (k : ℕ) → IsInside (replicate k 0)
zeros-IsInside zero = tt
zeros-IsInside (suc k) = ((λ e. omega arith), zeros-IsInside k)

append-IsInside : (xs ys : List ℕ) → IsInside xs → IsInside ys → IsInside (xs ++ ys)
append-IsInside [] ys hx hy = hy
append-IsInside (x ∷ xs) ys hx hy = (hx.0, append-IsInside xs ys hx.1 hy)

-- On a reply of at most 1023 bytes with a list of operators behind its first space, which is among its
-- first 1022 bytes, and no closing bracket behind the list, the list is read back: 0 is returned with
-- the number of the operators and the status, technology, number and name of each in its place. The
-- fields of an operator hold no separator, its status and technology are known, there are at least as
-- many entries as operators, and each name fits.
pub parse_operators-listing :
    (head : List ℕ) (os : List Op) (end : List ℕ) (infos : List OperatorInfo)
    → All (λ c. c ≢ 32) head
    → length head < 1022
    → All IsListed os
    → All (λ info. length info.operator_name ≡ max_operator_name) infos
    → length os ≤ length infos
    → IsInside end
    → length head + 1 + listing_length os + length end ≤ 1023
    → parse_operators infos (head ++ 32 ∷ listing os end) ≡ found (length os) (stored_all os infos)
unfolding parse_operators
parse_operators-listing head os end infos no_space room h a enough inside fits =
    let reply : List ℕ = head ++ 32 ∷ listing os end in
    let k = 1024 - length reply in
    let zeros : List ℕ = replicate k 0 in
    let size : length reply ≡ length head + 1 + listing_length os + length end =
      omega (arith, length-append head (32 ∷ listing os end), length-listing os end) in
    let len_tail = length-append end zeros in
    let len_zeros = length-replicate k (zero) in
    ap (λ bs. ops_at infos (scan_past 32 1023 bs 0))
      (append_assoc head (32 ∷ listing os end) zeros
        ∙ ap (λ l. head ++ 32 ∷ l) (listing_append os end zeros))
    ∙ ap (ops_at infos)
        (scan_past-append 32 1023 head (listing os (end ++ zeros)) 0 no_space (omega arith))
    ∙ ops_from-listing os infos 0 (0 + length head + 1) (end ++ zeros) h a enough
        (append-IsInside end zeros inside (zeros-IsInside k)) (omega arith) (omega arith)
    ∙ ap (λ m. found m (stored_all os infos)) (omega arith)
