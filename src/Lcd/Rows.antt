-- ===== src/Lcd/Rows.antt =====
-- Rows on the screen, and the place where a long line is broken.
use smart_door_lock.Base.{
  ℕ, zero, suc, ◌+◌, ◌≤◌, ◌<◌, ◌≡◌, ◌⊎◌, inl, inr, ◌∙◌, refl, ap, List, [], ◌∷◌, ◌++◌, true, false,
  Bool-cases, length, take, leb, ◌==◌, if◌then◌else◌, All, arith,
}
use smart_door_lock.Lcd.{
  Lcd, Draw, clear, draw_on_line, update, clean_screen, lcd_puts, make_room, find_break,
}

-- A row on a screen that is cleared first if it is full.
unfoldable pub put_row : List ℕ → Lcd → Lcd
unfolding lcd_puts make_room
put_row row l = lcd_puts row (make_room l)

unfoldable pub put_rows : List (List ℕ) → Lcd → Lcd
unfolding put_row
put_rows [] l = l
put_rows (r ∷ rs) l = put_rows rs (put_row r l)

abbrev pub joined : List (List ℕ) → List ℕ
joined [] = []
joined (r ∷ rs) = r ++ joined rs

pub put_row-size :
    (r : List ℕ) (l : Lcd)
    → ((put_row r l).line_cells ≡ l.line_cells) × ((put_row r l).num_of_lines ≡ l.num_of_lines)
unfolding put_row clean_screen
put_row-size r l = ground arith

pub make_room_idem : (l : Lcd) → 0 < l.num_of_lines → make_room (make_room l) ≡ make_room l
unfolding make_room clean_screen
make_room_idem l h = ground arith

pub put_rows-make_room :
    (r : List ℕ) (rs : List (List ℕ)) (l : Lcd)
    → 0 < l.num_of_lines
    → put_rows (r ∷ rs) (make_room l) ≡ put_rows (r ∷ rs) l
unfolding put_rows
put_rows-make_room r rs l h = ap (λ k. put_rows rs (lcd_puts r k)) (make_room_idem l h)

-- A text stands on one of the first `lines` lines.
abbrev pub InScreen : ℕ → Draw → Type 0
InScreen lines (draw_on_line text k) = k < lines
InScreen lines clear = Unit
InScreen lines update = Unit

put_row-InScreen :
    (r : List ℕ) (l : Lcd) (lines : ℕ)
    → l.num_of_lines ≡ lines
    → 0 < lines
    → All (InScreen lines) l.drawn
    → All (InScreen lines) (put_row r l).drawn
unfolding put_row clean_screen
put_row-InScreen r l lines e h a = elim (Bool-cases (leb l.num_of_lines l.cur_line)) [
  | inl full ↦ rw full (h, (tt, a))
  | inr room ↦ rw room (ground (arith, e), a)
]

pub put_rows-InScreen :
    (rows : List (List ℕ)) (l : Lcd) (lines : ℕ)
    → l.num_of_lines ≡ lines
    → 0 < lines
    → All (InScreen lines) l.drawn
    → All (InScreen lines) (put_rows rows l).drawn
unfolding put_rows
put_rows-InScreen [] l lines e h a = a
put_rows-InScreen (r ∷ rs) l lines e h a =
    put_rows-InScreen rs (put_row r l) lines ((put_row-size r l).1 ∙ e) h
      (put_row-InScreen r l lines e h a)

abbrev pub EndsInSpace : List ℕ → Type 0
EndsInSpace text = (front : List ℕ) × (text ≡ front ++ 32 ∷ [])

abbrev pub IsOther : ℕ → Type 0
IsOther c = (c == 32) ≡ false

-- The loop has found a place to break the line `k` bytes on.
pub record Breaks (n : ℕ) (rest : List ℕ) (here result : ℕ) : Type 0 where
  pub k : ℕ
  pub found : result ≡ here + k
  pub some_bytes : 0 < k
  pub within : k ≤ n
  pub good : EndsInSpace (take k rest) ⊎ (k ≡ length rest)

place_ok :
    (c : ℕ) (rest : List ℕ)
    → (if c == 32 then true else length rest == 0) ≡ true
    → EndsInSpace (c ∷ []) ⊎ (1 ≡ suc (length rest))
place_ok c rest place = elim (Bool-cases (c == 32)) [
  | inl space ↦ inl ([], ap (λ x. x ∷ []) (ground (arith, space)))
  | inr other ↦ inr (ground (arith, other, place))
]

Breaks-suc :
    {n : ℕ} {rest : List ℕ} {here result : ℕ} (c : ℕ)
    → Breaks n rest (here + 1) result
    → Breaks (suc n) (c ∷ rest) here result
Breaks-suc c b = record {
  k = suc b.k;
  found = b.found ∙ omega arith;
  some_bytes = omega arith;
  within = omega (arith, b.within);
  good = elim b.good [
    | inl (front, e) ↦ inl (c ∷ front, ap (λ t. c ∷ t) e)
    | inr end ↦ inr (ap suc end)
  ];
}

pub find_break_lem :
    (n : ℕ) (rest : List ℕ) (here last : ℕ)
    → n ≤ length rest
    → ((find_break n rest here last ≡ last)
        × ((n < length rest) ⊎ (n ≡ 0))
        × All IsOther (take n rest))
      ⊎ Breaks n rest here (find_break n rest here last)
unfolding find_break
find_break_lem zero rest here last le = inl (refl, inr refl, tt)
find_break_lem (suc n) [] here last le = absurd (omega arith)
find_break_lem (suc n) (c ∷ rest) here last le =
    elim (Bool-cases (if c == 32 then true else length rest == 0)) [
      | inl place ↦ rw place (elim (find_break_lem n rest (here + 1) (here + 1) (omega arith)) [
        | inl (same, more, others) ↦ inr (record {
          k = 1;
          found = same;
          some_bytes = omega arith;
          within = omega arith;
          good = place_ok c rest place;
        })
        | inr b ↦ inr (Breaks-suc c b)
      ])
      | inr not_here ↦ rw not_here (elim (find_break_lem n rest (here + 1) last (omega arith)) [
        | inl (same, more, others) ↦
            inl (same, inl (ground (arith, more, not_here)), (ground (arith, not_here), others))
        | inr b ↦ inr (Breaks-suc c b)
      ])
    ]
