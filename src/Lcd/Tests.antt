-- ===== src/Lcd/Tests.antt =====
-- The display on small texts.
use smart_door_lock.Base.{
  ◌≡◌, ◌≢◌, ℕ, arith, All, refl, List, [], ◌∷◌, some, none, ◌/◌, true, length,
}
use smart_door_lock.Base.Bytes.{codes, c_string}
use smart_door_lock.Strtok.{strtok_in}
use smart_door_lock.Lcd.{
  Lcd, clear, draw_on_line, update, at_start, done, endless, lcd_printf, remove_char, wrap,
  update_display, FontSize, small, medium, big, Glib, lcd_init,
}
use smart_door_lock.Lcd.Remove.{remove_char-without}
use smart_door_lock.Lcd.Rows.{InScreen}
use smart_door_lock.Lcd.Wrap.{wrap-endless}
use smart_door_lock.Lcd.Print.{put_lines, IsText, lcd_printf-shows}
use smart_door_lock.Lcd.Screen.{print_all, print_all-InScreen}

-- Three lines of six characters.
abbrev three_lines : Lcd
three_lines = record at_start { is_init = true; num_of_lines = 3; line_cells = 7 }

wraps_at_spaces :
    lcd_printf (some (codes "one two\r\nthreefour\n")) three_lines
    ≡ done (record three_lines {
      cur_line = 1;
      drawn =
          update
          ∷ draw_on_line (codes "our") 0
          ∷ clear
          ∷ draw_on_line (codes "threef") 2
          ∷ draw_on_line (codes "two") 1
          ∷ draw_on_line (codes "one ") 0
          ∷ [];
    })
unfolding lcd_printf remove_char strtok_in
wraps_at_spaces = refl

zero_not_cr : ◌≢◌ {A = ℕ} 0 13
zero_not_cr e = absurd (omega (arith, e))

remove_char-without_example :
    (out : List ℕ) × (remove_char (65 ∷ 13 ∷ 13 ∷ 66 ∷ 0 ∷ 7 ∷ []) 13 ≡ some (out, 2))
    × (c_string out ≡ 65 ∷ 66 ∷ [])
    × (length out ≡ 6)
remove_char-without_example =
    remove_char-without 13 (65 ∷ 13 ∷ 13 ∷ 66 ∷ []) (7 ∷ []) zero_not_cr
      (omega arith, (omega arith, (omega arith, (omega arith, tt))))

abbrev two_words : List ℕ
two_words = codes "ne two\r\nthreefour\n"

lcd_printf-shows_example :
    (rows : List (List (List ℕ))) × (lcd_printf (some (b'o' ∷ two_words)) three_lines
      ≡ done (update_display (put_lines rows three_lines)))
    × IsText 6 (codes "one two" ∷ codes "threefour" ∷ []) rows
lcd_printf-shows_example = lcd_printf-shows b'o' two_words three_lines (omega arith) (omega arith)

abbrev font_width_of : FontSize → ℕ
font_width_of small = 6
font_width_of medium = 8
font_width_of big = 16

abbrev font_height_of : FontSize → ℕ
font_height_of small = 8
font_height_of medium = 8
font_height_of big = 20

-- The display of the board, with the fonts of the SDK.
abbrev square : Glib
square = record {
  x_max = 127;
  y_max = 127;
  font_width = font_width_of;
  font_height = font_height_of;
  line_spacing = λ f. 1;
}

print_all-InScreen_example :
    (l : Lcd) × (print_all (some two_words ∷ none ∷ some [] ∷ []) (lcd_init square small at_start)
      ≡ done l)
    × All (InScreen (127 / 9)) l.drawn
print_all-InScreen_example =
    print_all-InScreen square small (some two_words ∷ none ∷ some [] ∷ []) (omega arith)
      (omega arith) (omega arith) (omega arith)

wrap-endless_example : wrap 1000 0 (codes "hello") 0 at_start ≡ endless
wrap-endless_example = wrap-endless 1000 0 b'h' (codes "ello") 0 at_start refl (omega arith)
