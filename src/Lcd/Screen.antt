-- ===== src/Lcd/Screen.antt =====
-- The screen from `lcd_init` on, through any calls of `lcd_printf`.
use native.Mathlib.Nat.{le-div_iff_mul-le}
use smart_door_lock.Base.{
  ℕ, ◌+◌, ◌*◌, ◌/◌, ◌≤◌, ◌<◌, ◌≡◌, ◌∙◌, refl, ap, List, [], ◌∷◌, Option, none, some, All, arith,
}
use smart_door_lock.Lcd.{
  Lcd, FontSize, Glib, at_start, line_size, lcd_init, Outcome, done, continue, lcd_printf,
  update_display,
}
use smart_door_lock.Lcd.Rows.{put_rows, InScreen, put_rows-InScreen}
use smart_door_lock.Lcd.Print.{put_lines, put_rows-size, lcd_printf-shows}

put_lines-InScreen :
    (rows : List (List (List ℕ))) (l : Lcd) (lines : ℕ)
    → l.num_of_lines ≡ lines
    → 0 < lines
    → All (InScreen lines) l.drawn
    → All (InScreen lines) (put_lines rows l).drawn
put_lines-InScreen [] l lines e h a = a
put_lines-InScreen (r ∷ rs) l lines e h a =
    put_lines-InScreen rs (put_rows r l) lines ((put_rows-size r l).1 ∙ e) h
      (put_rows-InScreen r l lines e h a)

put_lines-size :
    (rows : List (List (List ℕ))) (l : Lcd)
    → ((put_lines rows l).line_cells ≡ l.line_cells)
      × ((put_lines rows l).num_of_lines ≡ l.num_of_lines)
put_lines-size [] l = (refl, refl)
put_lines-size (r ∷ rs) l =
    let (cells, lines) = put_lines-size rs (put_rows r l) in
    (cells ∙ (put_rows-size r l).0, lines ∙ (put_rows-size r l).1)

-- The display is set up with so many lines, and text was drawn on these only.
record IsReady (lines : ℕ) (l : Lcd) : Type 0 where
  size : l.num_of_lines ≡ lines
  cells : 0 < line_size l
  inside : All (InScreen lines) l.drawn

lcd_printf-IsReady :
    (output : Option (List ℕ)) (l : Lcd) (lines : ℕ)
    → 0 < lines
    → IsReady lines l
    → (l' : Lcd) × (lcd_printf output l ≡ done l') × IsReady lines l'
unfolding lcd_printf
lcd_printf-IsReady none l lines h r = (l, refl, r)
lcd_printf-IsReady (some []) l lines h r = (l, refl, r)
lcd_printf-IsReady (some (c ∷ text)) l lines h r =
    let (rows, returns, is_text) = lcd_printf-shows c text l (omega (arith, r.size)) r.cells in
    let (cells, num) = put_lines-size rows l in
    (
      update_display (put_lines rows l),
      returns,
      record {
        size = num ∙ r.size;
        cells = omega (arith, cells, r.cells);
        inside = (tt, put_lines-InScreen rows l lines r.size h r.inside);
      },
    )

-- The calls, in order, on what `vsnprintf` makes for each.
abbrev pub print_all : List (Option (List ℕ)) → Lcd → Outcome Lcd
print_all [] l = done l
print_all (o ∷ os) l = continue (lcd_printf o l) (print_all os)

print_all-IsReady :
    (os : List (Option (List ℕ))) (l : Lcd) (lines : ℕ)
    → 0 < lines
    → IsReady lines l
    → (l' : Lcd) × (print_all os l ≡ done l') × IsReady lines l'
print_all-IsReady [] l lines h r = (l, refl, r)
print_all-IsReady (o ∷ os) l lines h r =
    let (l₁, returns, r₁) = lcd_printf-IsReady o l lines h r in
    let (l₂, returns', r₂) = print_all-IsReady os l₁ lines h r₁ in
    (l₂, ap (λ x. continue x (print_all os)) returns ∙ returns', r₂)

abbrev pub line_height : Glib → FontSize → ℕ
line_height glib size = glib.font_height size + glib.line_spacing size

lcd_init-IsReady :
    (glib : Glib) (size : FontSize)
    → 0 < glib.font_width size
    → 2 * glib.font_width size ≤ glib.y_max
    → IsReady (glib.x_max / line_height glib size) (lcd_init glib size at_start)
unfolding lcd_init
lcd_init-IsReady glib size pos two =
    let chars : 2 ≤ glib.y_max / glib.font_width size = (le-div_iff_mul-le pos).1 two in
    record { size = refl; cells = omega (arith, chars); inside = (tt, tt) }

-- Once the display is set up with a font of which a line and two characters fit, any calls of
-- `lcd_printf` end without an access outside an array, whatever `vsnprintf` gives, and all text is
-- drawn on one of the NUM_OF_LINES lines.
pub print_all-InScreen :
    (glib : Glib) (size : FontSize) (os : List (Option (List ℕ)))
    → 0 < glib.font_width size
    → 2 * glib.font_width size ≤ glib.y_max
    → 0 < line_height glib size
    → line_height glib size ≤ glib.x_max
    → (l : Lcd) × (print_all os (lcd_init glib size at_start) ≡ done l)
      × All (InScreen (glib.x_max / line_height glib size)) l.drawn
print_all-InScreen glib size os pos two height one =
    let lines : 0 < glib.x_max / line_height glib size =
      (le-div_iff_mul-le height).1 (omega (arith, one)) in
    let (l, returns, r) =
      print_all-IsReady os (lcd_init glib size at_start) _ lines
        (lcd_init-IsReady glib size pos two) in
    (l, returns, r.inside)
