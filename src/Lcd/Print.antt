-- ===== src/Lcd/Print.antt =====
-- `lcd_printf`: the rows that it draws, line by line.
use smart_door_lock.Base.{
  ℕ, zero, suc, ◌+◌, ◌-◌, ◌≤◌, ◌<◌, ◌≡◌, ◌≢◌, ◌⊎◌, inl, inr, ◌∙◌, refl, sym, ap, subst, List, [],
  ◌∷◌, ◌++◌, false, Option, none, some, Bool-cases, length, take, ◌==◌, All, arith, map, replicate,
  length-take,
}
use smart_door_lock.Base.Bytes.{c_string, buffer}
use smart_door_lock.Strtok.{Tok, strtok_in}
use smart_door_lock.Strtok.Splits.{tokens, Splits, strtok_in-SplitsTo}
use smart_door_lock.Lcd.{
  Lcd, line_size, print_line, print_lines, is_newline, token_at, first_at, continue, Outcome, done,
  lcd_printf, update_display, print_buffer, remove_char, max_string_size,
}
use smart_door_lock.Lcd.Remove.{without, remove_char-without}
use smart_door_lock.Lcd.Rows.{put_rows, joined, put_row-size}
use smart_door_lock.Lcd.Wrap.{IsRow, BrokenWell, Wrapped, print_line-Wrapped}

-- The rows of the lines, line by line.
abbrev pub put_lines : List (List (List ℕ)) → Lcd → Lcd
put_lines [] l = l
put_lines (rows ∷ lines) l = put_lines lines (put_rows rows l)

pub put_rows-size :
    (rows : List (List ℕ)) (l : Lcd)
    → ((put_rows rows l).line_cells ≡ l.line_cells)
      × ((put_rows rows l).num_of_lines ≡ l.num_of_lines)
unfolding put_rows
put_rows-size [] l = (refl, refl)
put_rows-size (r ∷ rs) l =
    let (cells, lines) = put_rows-size rs _ in
    (cells ∙ (put_row-size r l).0, lines ∙ (put_row-size r l).1)

-- The rows of lines on a screen with rows of `size` bytes.
pub record IsText (size : ℕ) (lines : List (List ℕ)) (rows : List (List (List ℕ))) : Type 0 where
  pub whole : map joined rows ≡ lines
  pub sizes : All (All (IsRow size)) rows
  pub breaks : All (BrokenWell size) rows

abbrev Shows : Lcd → List (List ℕ) → Outcome Lcd → Type 0
Shows l lines result =
    (rows : List (List (List ℕ))) × (result ≡ done (put_lines rows l))
    × IsText (line_size l) lines rows

-- The rows of a line, and then those of the lines behind it.
Shows-line :
    (l : Lcd) (line : List ℕ) (lines : List (List ℕ)) (here : ℕ) (result : Outcome (ℕ × Lcd))
    (next : ℕ → Lcd → Outcome Lcd) (w : Wrapped l line here result)
    → Shows (put_rows w.rows l) lines (next w.last (put_rows w.rows l))
    → Shows l (line ∷ lines) (continue result λ p. next p.0 p.1)
Shows-line l line lines here result next w (rows, returns, shown) =
    let cells = (put_rows-size w.rows l).0 in
    (
      w.rows ∷ rows,
      ap (λ r. continue r λ p. next p.0 p.1) w.returns ∙ returns,
      record {
        whole = ap (λ ls. joined w.rows ∷ ls) shown.whole ∙ ap (λ r. r ∷ lines) w.whole;
        sizes = (w.sizes, subst (λ n. All (All (IsRow (n - 1))) rows) cells shown.sizes);
        breaks = (w.breaks, subst (λ n. All (BrokenWell (n - 1)) rows) cells shown.breaks);
      },
    )

print_lines-Shows :
    (f here : ℕ) (buf : List ℕ) (last : ℕ) (l : Lcd)
    → 0 < l.num_of_lines
    → 0 < line_size l
    → (last ≤ here) ⊎ (last ≡ first_at here (strtok_in is_newline buf))
    → length buf < f
    → Shows l (tokens is_newline (c_string buf)) (print_lines f here buf last l)
unfolding print_lines
print_lines-Shows zero here buf last l room pos le fuel = absurd (omega arith)
print_lines-Shows (suc f) here buf last l room pos le fuel =
    by_token t.token t.passed t.end_at t.rest (strtok_in-SplitsTo is_newline refl buf) le
      (λ here' last' l' rest. print_lines-Shows f here' rest last' l')
  where
    t : Tok
    t = strtok_in is_newline buf

    by_token :
        (o : Option (List ℕ)) (passed : List ℕ) (end_at : ℕ) (rest : List ℕ)
        → Splits is_newline buf o passed end_at rest
        → (last ≤ here) ⊎ (last ≡ elim o [ none ↦ 0 | some line ↦ token_at here end_at line ])
        → ((here' last' : ℕ) (l' : Lcd) (rest' : List ℕ)
            → 0 < l'.num_of_lines
            → 0 < line_size l'
            → (last' ≤ here') ⊎ (last' ≡ first_at here' (strtok_in is_newline rest'))
            → length rest' < f
            → Shows l' (tokens is_newline (c_string rest')) (print_lines f here' rest' last' l'))
        → Shows l (tokens is_newline (c_string buf)) (elim o [
          | none ↦ done l
          | some line ↦
              continue
                (print_line (here + end_at - length line) line last l)
                λ p. print_lines f (here + length passed) rest p.0 p.1
        ])
    by_token none passed end_at rest s le' ih =
        ([], refl, record { whole = sym s; sizes = tt; breaks = tt })
    by_token (some line) passed end_at rest s le' ih =
        let place : last ≤ here + end_at - length line = elim le' [
          | inl before ↦ omega (arith, s.starts)
          | inr same ↦ omega (arith, same)
        ] in
        let w =
          print_line-Wrapped (here + end_at - length line) line last l room pos s.some_bytes
            place in
        let size = put_rows-size w.rows l in
        let shown =
          ih (here + length passed) w.last (put_rows w.rows l) rest (omega (arith, size.1))
            (omega (arith, size.0)) (inl (omega (arith, w.place, s.starts, s.ends)))
            (omega (arith, s.whole, s.some_bytes, s.starts, s.ends)) in
        subst
          (λ lines. Shows l lines (
            continue (print_line (here + end_at - length line) line last l)
              λ p. print_lines f (here + length passed) rest p.0 p.1))
          (sym s.text)
          (Shows-line l line (tokens is_newline (c_string rest)) (here + end_at - length line) _
            (print_lines f (here + length passed) rest) w shown)

-- An array behind its text.
nul_behind : (xs rest : List ℕ) → (rest' : List ℕ) × (xs ++ 0 ∷ rest ≡ c_string xs ++ 0 ∷ rest')
nul_behind [] rest = (rest, refl)
nul_behind (x ∷ xs) rest = elim (Bool-cases (x == 0)) [
  | inl e ↦ rw e (xs ++ 0 ∷ rest, ap (λ c. c ∷ xs ++ 0 ∷ rest) (ground (arith, e)))
  | inr e ↦ let (rest', same) = nul_behind xs rest in rw e (rest', ap (λ t. x ∷ t) same)
]

c_string-ne : (xs : List ℕ) → All (λ c. c ≢ 0) (c_string xs)
c_string-ne [] = tt
c_string-ne (x ∷ xs) = elim (Bool-cases (x == 0)) [
  | inl e ↦ rw e tt
  | inr e ↦ rw e (ground (arith, e), c_string-ne xs)
]

buffer-nul :
    (size : ℕ) (xs : List ℕ)
    → length xs < size
    → (rest : List ℕ) × (buffer size xs ≡ c_string xs ++ 0 ∷ rest)
buffer-nul size xs h =
    let k = size - length xs - 1 in
    let (rest, same) = nul_behind xs (replicate k 0) in
    let more : size - length xs ≡ suc k = omega arith in
    (rest, ap (λ n. xs ++ replicate n 0) more ∙ same)

remove_char-buffer :
    (size rm : ℕ) (xs : List ℕ)
    → length xs < size
    → 0 ≢ rm
    → (p : List ℕ × ℕ) × (remove_char (buffer size xs) rm ≡ some p)
      × (c_string p.0 ≡ without rm (c_string xs))
remove_char-buffer size rm xs h ne =
    let (rest, array) = buffer-nul size xs h in
    let (out, returns, shown, same) =
      remove_char-without rm (c_string xs) rest ne (c_string-ne xs) in
    ((out, length (without rm (c_string xs))), ap (λ b. remove_char b rm) array ∙ returns, shown)

print_buffer-shows :
    (p : List ℕ × ℕ) (l : Lcd)
    → 0 < l.num_of_lines
    → 0 < line_size l
    → (rows : List (List (List ℕ))) × (print_buffer (some p) l
        ≡ done (update_display (put_lines rows l)))
      × IsText (line_size l) (tokens is_newline (c_string p.0)) rows
print_buffer-shows (buf, size) l room pos =
    let (rows, prints, is_text) =
      print_lines-Shows (length buf + 1) 0 buf (first_at 0 (strtok_in is_newline buf)) l room pos
        (inr refl) (omega arith) in
    let some_cells : (l.line_cells == 0) ≡ false = ground (arith, pos) in
    (rows, rw some_cells (ap (λ r. continue r λ l'. done (update_display l')) prints), is_text)

-- The text that a call prints: what is left of the result of `vsnprintf` in the array, without the
-- carriage returns.
abbrev pub printed : List ℕ → List ℕ
printed output = without 13 (c_string (take (max_string_size - 1) output))

-- On a display that is set up, a call with a text ends without an access outside an array; it draws
-- the lines of the text without its carriage returns, the empty ones left out, each as rows of 1 to
-- LINE_SIZE bytes that put together are the line and of which each but the line's last one ends in a
-- space, or is full and has none; a row that finds the screen full clears it first; then the display
-- is updated.
pub lcd_printf-shows :
    (c : ℕ) (text : List ℕ) (l : Lcd)
    → 0 < l.num_of_lines
    → 0 < line_size l
    → (rows : List (List (List ℕ))) × (lcd_printf (some (c ∷ text)) l
        ≡ done (update_display (put_lines rows l)))
      × IsText (line_size l) (tokens is_newline (printed (c ∷ text))) rows
unfolding lcd_printf
lcd_printf-shows c text l room pos =
    let (p, returns, shown) =
      remove_char-buffer max_string_size 13 (take (max_string_size - 1) (c ∷ text))
        (short (c ∷ text)) (λ e. absurd (omega (arith, e))) in
    let (rows, prints, is_text) = print_buffer-shows p l room pos in
    (
      rows,
      ap (λ o. print_buffer o l) returns ∙ prints,
      subst (λ t. IsText (line_size l) (tokens is_newline t) rows) shown is_text,
    )
  where
    short : (t : List ℕ) → length (take (max_string_size - 1) t) < max_string_size
    short t = omega (arith, length-take (max_string_size - 1) t)
