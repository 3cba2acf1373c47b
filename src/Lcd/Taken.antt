-- ===== src/Lcd/Taken.antt =====
-- The row that a round of the loop over a long line takes.
use smart_door_lock.Base.{
  ℕ, suc, ◌+◌, ◌-◌, ◌≤◌, ◌<◌, ◌≡◌, ◌⊎◌, inl, inr, refl, List, ◌∷◌, length, take, arith, All,
}
use smart_door_lock.Lcd.{find_break, min, row_width}
use smart_door_lock.Lcd.Rows.{EndsInSpace, IsOther, Breaks, find_break_lem}

pub record Taken (size : ℕ) (line : List ℕ) (here : ℕ) (last_space : ℕ) (width : ℕ) : Type 0 where
  pub some_bytes : 0 < width
  pub within : width ≤ size
  pub in_line : width ≤ length line
  pub place : last_space ≤ here + width
  pub good :
      EndsInSpace (take width line)
      ⊎ ((width ≡ size) × All IsOther (take width line))
      ⊎ (width ≡ length line)

from_place :
    (size n : ℕ) (line : List ℕ) (here last place : ℕ)
    → 0 < n
    → n ≤ size
    → n ≤ length line
    → (n ≡ size) ⊎ (n ≡ length line)
    → last ≤ here
    → ((place ≡ last) × ((n < length line) ⊎ (n ≡ 0)) × All IsOther (take n line))
      ⊎ Breaks n line here place
    → Taken size line here place (row_width size (place - here))
from_place size n line here last place pos le_size le_line n_is le (inl (same, more, others)) =
    let full : row_width size (place - here) ≡ size = ground (arith, same) in
    let n_size : n ≡ size = ground (arith, n_is, more) in
    rw full (record {
      some_bytes = omega arith;
      within = omega arith;
      in_line = omega arith;
      place = omega arith;
      good = inr (inl (refl, rw (← n_size) others));
    })
from_place size n line here last place pos le_size le_line n_is le (inr b) =
    let found : row_width size (place - here) ≡ b.k =
      let e = b.found in let p = b.some_bytes in ground arith in
    let k_le = b.within in
    rw found (record {
      some_bytes = b.some_bytes;
      within = omega arith;
      in_line = omega arith;
      place = omega (arith, b.found);
      good = elim b.good [ inl space ↦ inl space | inr all ↦ inr (inr all) ];
    })

pub row-Taken :
    (size c : ℕ) (rest : List ℕ) (here last : ℕ)
    → 0 < size
    → last ≤ here
    → let place = find_break (min size (suc (length rest))) (c ∷ rest) here last in
      Taken size (c ∷ rest) here place (row_width size (place - here))
row-Taken size c rest here last pos le =
    let n = min size (suc (length rest)) in
    let n_le : n ≤ suc (length rest) = ground arith in
    from_place size n (c ∷ rest) here last _ (ground arith) (ground arith) n_le (ground arith) le
      (find_break_lem n (c ∷ rest) here last n_le)
