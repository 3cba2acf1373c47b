-- ===== src/Lcd/Wrap.antt =====
-- A line that is longer than a row: its rows, and what happens before the display is set up.
use smart_door_lock.Base.{
  ℕ, zero, suc, ◌+◌, ◌-◌, ◌≤◌, ◌<◌, ◌≡◌, ◌⊎◌, inl, inr, ◌∙◌, refl, ap, subst, List, [], ◌∷◌, ◌++◌,
  Bool, true, false, length, take, drop, leb, ltb, if◌then◌else◌, All, arith, length-take,
  append-nil, length-drop, take-append-drop,
}
use smart_door_lock.Lcd.{
  Lcd, line_size, clean_screen, lcd_puts, make_room, find_break, min, row_width, wrap, print_line,
  Outcome, done, fault, endless,
}
use smart_door_lock.Lcd.Taken.{Taken, row-Taken}
use smart_door_lock.Lcd.Rows.{
  put_row, put_rows, joined, put_row-size, put_rows-make_room, EndsInSpace, IsOther,
}

-- A row of 1 to `size` bytes.
abbrev pub IsRow : ℕ → List ℕ → Type 0
IsRow size r = (0 < length r) × (length r ≤ size)

-- Each row but the last one ends in a space, or is full and without a space.
abbrev pub BrokenWell : ℕ → List (List ℕ) → Type 0
BrokenWell size [] = Unit
BrokenWell size (r ∷ []) = Unit
BrokenWell size (r ∷ r' ∷ rs) =
    (EndsInSpace r ⊎ ((length r ≡ size) × All IsOther r)) × BrokenWell size (r' ∷ rs)

-- What wrapping the text from `here` on comes to.
pub record Wrapped (l : Lcd) (text : List ℕ) (here : ℕ) (result : Outcome (ℕ × Lcd)) : Type 0 where
  pub rows : List (List ℕ)
  pub last : ℕ
  pub returns : result ≡ done (last, put_rows rows l)
  pub whole : joined rows ≡ text
  pub sizes : All (IsRow (line_size l)) rows
  pub breaks : BrokenWell (line_size l) rows
  pub place : last ≤ here + length text

drop-all : (w : ℕ) (xs : List ℕ) → w ≡ length xs → drop w xs ≡ []
drop-all zero [] e = refl
drop-all zero (x ∷ xs) e = absurd (omega arith)
drop-all (suc w) [] e = refl
drop-all (suc w) (x ∷ xs) e = drop-all w xs (omega arith)

BrokenWell-cons :
    (size : ℕ) (r : List ℕ) (rs : List (List ℕ)) (rest : List ℕ)
    → (EndsInSpace r ⊎ ((length r ≡ size) × All IsOther r)) ⊎ (rest ≡ [])
    → joined rs ≡ rest
    → All (IsRow size) rs
    → BrokenWell size rs
    → BrokenWell size (r ∷ rs)
BrokenWell-cons size r [] rest good e rows w = tt
BrokenWell-cons size r (r' ∷ rs) rest (inl good) e rows w = (good, w)
BrokenWell-cons size r ([] ∷ rs) rest (inr e') e rows w = absurd (omega (arith, rows.0.0))
BrokenWell-cons size r ((x ∷ r') ∷ rs) rest (inr e') e rows w = absurd (cc)

IsRow-first :
    (size c : ℕ) (rest : List ℕ) (here p w : ℕ)
    → Taken size (c ∷ rest) here p w
    → IsRow size (take w (c ∷ rest))
      × ((EndsInSpace (take w (c ∷ rest))
            ⊎ ((length (take w (c ∷ rest)) ≡ size) × All IsOther (take w (c ∷ rest))))
          ⊎ (drop w (c ∷ rest) ≡ []))
IsRow-first size c rest here p w t =
    let len : length (take w (c ∷ rest)) ≡ w =
      ground (arith, length-take w (c ∷ rest), t.in_line) in
    (
      (omega (arith, t.some_bytes), omega (arith, t.within)),
      elim t.good [
        | inl space ↦ inl (inl space)
        | inr (inl (full, others)) ↦ inl (inr (len ∙ full, others))
        | inr (inr all) ↦ inr (drop-all w (c ∷ rest) all)
      ],
    )

Wrapped-row :
    (c : ℕ) (rest : List ℕ) (here p w : ℕ) (l : Lcd) (next : Outcome (ℕ × Lcd))
    → Taken (line_size l) (c ∷ rest) here p w
    → Wrapped (put_row (take w (c ∷ rest)) l) (drop w (c ∷ rest)) (here + w) next
    → Wrapped l (c ∷ rest) here (if leb l.line_cells w then fault else next)
unfolding put_rows
Wrapped-row c rest here p w l next t r =
    let first = IsRow-first (line_size l) c rest here p w t in
    let same : line_size (put_row (take w (c ∷ rest)) l) ≡ line_size l =
      ap (λ n. n - 1) (put_row-size (take w (c ∷ rest)) l).0 in
    let fits : leb l.line_cells w ≡ false = ground (arith, t.within, t.some_bytes) in
    let sizes = subst (λ n. All (IsRow n) r.rows) same r.sizes in
    record {
      rows = take w (c ∷ rest) ∷ r.rows;
      last = r.last;
      returns = rw fits r.returns;
      whole = ap (λ ys. take w (c ∷ rest) ++ ys) r.whole ∙ take-append-drop w (c ∷ rest);
      sizes = (first.0, sizes);
      breaks =
          BrokenWell-cons (line_size l) (take w (c ∷ rest)) r.rows (drop w (c ∷ rest)) first.1
            r.whole sizes (subst (λ n. BrokenWell n r.rows) same r.breaks);
      place = omega (arith, r.place, length-drop w (c ∷ rest), t.in_line);
    }

pub wrap-Wrapped :
    (f here : ℕ) (text : List ℕ) (last : ℕ) (l : Lcd)
    → 0 < line_size l
    → last ≤ here
    → length text ≤ f
    → Wrapped l text here (wrap f here text last l)
unfolding wrap put_rows put_row
wrap-Wrapped f here [] last l pos le fuel = record {
  rows = [];
  last = last;
  returns = refl;
  whole = refl;
  sizes = tt;
  breaks = tt;
  place = omega arith;
}
wrap-Wrapped zero here (c ∷ rest) last l pos le fuel = absurd (omega arith)
wrap-Wrapped (suc f) here (c ∷ rest) last l pos le fuel =
    let p = find_break (min (line_size l) (suc (length rest))) (c ∷ rest) here last in
    let w = row_width (line_size l) (p - here) in
    let t = row-Taken (line_size l) c rest here last pos le in
    let l' = put_row (take w (c ∷ rest)) l in
    let pos' : 0 < line_size l' = omega (arith, (put_row-size (take w (c ∷ rest)) l).0) in
    Wrapped-row c rest here p w l (wrap f (here + w) (drop w (c ∷ rest)) p l') t (
      wrap-Wrapped f (here + w) (drop w (c ∷ rest)) p l' pos' (omega (arith, t.place))
        (omega (arith, length-drop w (c ∷ rest), t.some_bytes)))

-- On a display that is not set up, where LINE_SIZE is 0, the loop over a line that is not empty does
-- not end, however many rounds it is given, while `last_space` is not behind the line's start.
pub wrap-endless :
    (f here c : ℕ) (rest : List ℕ) (last : ℕ) (l : Lcd)
    → l.line_cells ≡ 1
    → last ≤ here
    → wrap f here (c ∷ rest) last l ≡ endless
unfolding wrap put_row find_break
wrap-endless zero here c rest last l e le = refl
wrap-endless (suc f) here c rest last l e le =
    let line = c ∷ rest in
    let no_bytes : min (line_size l) (length line) ≡ 0 = ground (arith, e) in
    let no_place : find_break (min (line_size l) (length line)) line here last ≡ last =
      ap (λ n. find_break n line here last) no_bytes in
    let no_width : row_width (line_size l) (last - here) ≡ 0 = ground (arith, e) in
    let fits : leb l.line_cells 0 ≡ false = ground (arith, e) in
    let same : here + 0 ≡ here = omega arith in
    rw (no_place, no_width, fits, same)
      (wrap-endless f here c rest last (put_row [] l) ((put_row-size [] l).0 ∙ e) le)

make_room-size :
    (l : Lcd)
    → ((make_room l).line_cells ≡ l.line_cells) × ((make_room l).num_of_lines ≡ l.num_of_lines)
unfolding make_room clean_screen
make_room-size l = ground arith

-- Rows on a screen on which room was made before.
Wrapped-make_room :
    (l : Lcd) (text : List ℕ) (here : ℕ) (result : Outcome (ℕ × Lcd))
    → 0 < l.num_of_lines
    → 0 < length text
    → Wrapped (make_room l) text here result
    → Wrapped l text here result
Wrapped-make_room l text here result room some_bytes w = record {
  rows = w.rows;
  last = w.last;
  returns = w.returns ∙ ap (λ k. done (w.last, k)) (same_screen w.rows w.whole);
  whole = w.whole;
  sizes = subst (λ n. All (IsRow (n - 1)) w.rows) (make_room-size l).0 w.sizes;
  breaks = subst (λ n. BrokenWell (n - 1) w.rows) (make_room-size l).0 w.breaks;
  place = w.place;
}
  where
    same_screen :
        (rows : List (List ℕ)) → joined rows ≡ text → put_rows rows (make_room l) ≡ put_rows rows l
    same_screen [] e = absurd (omega (arith, ap (length {0}) e))
    same_screen (r ∷ rs) e = put_rows-make_room r rs l room

pub print_line-Wrapped :
    (here : ℕ) (line : List ℕ) (last : ℕ) (l : Lcd)
    → 0 < l.num_of_lines
    → 0 < line_size l
    → 0 < length line
    → last ≤ here
    → Wrapped l line here (print_line here line last l)
unfolding print_line put_rows
print_line-Wrapped here line last l room pos some_bytes le =
    by_length (ltb (line_size (make_room l)) (length line)) refl
  where
    by_length :
        (long : Bool)
        → ltb (line_size (make_room l)) (length line) ≡ long
        → Wrapped l line here (
            if long
            then wrap (length line) here line last (make_room l)
            else done (last, lcd_puts line (make_room l)))
    by_length true e = Wrapped-make_room l line here _ room some_bytes (
        wrap-Wrapped (length line) here line last (make_room l)
          (omega (arith, (make_room-size l).0)) le (omega arith))
    by_length false e = record {
      rows = line ∷ [];
      last = last;
      returns = refl;
      whole = append-nil line;
      sizes = ((some_bytes, ground (arith, e, (make_room-size l).0)), tt);
      breaks = tt;
      place = omega arith;
    }
