-- ===== src/Lcd.antt =====
-- smartDoor/EFR32Print/print.c: text on the LCD, on which the debug prints appear. The display is the
-- list of the calls that draw on it, the last one first.
pub mod Remove
pub mod Rows
pub mod Taken
pub mod Wrap
pub mod Print
pub mod Screen
mod Tests
use smart_door_lock.Base.{
  ℕ, zero, suc, ◌+◌, ◌-◌, ◌/◌, ◌%◌, List, [], ◌∷◌, Bool, true, false, Option, none, some, length,
  set, take, drop, ltb, leb, ◌==◌, if◌then◌else◌,
}
use smart_door_lock.Base.Bytes.{c_string, buffer}
use smart_door_lock.Strtok.{Tok, strtok_in}

-- `medume` in the source.
pub data FontSize : Type 0 where
  small medium big : FontSize

-- What `GLIB_contextInit` and the fonts give.
pub record Glib : Type 0 where
  pub x_max : ℕ
  pub y_max : ℕ
  pub font_width : FontSize → ℕ
  pub font_height : FontSize → ℕ
  pub line_spacing : FontSize → ℕ

-- `GLIB_clear`, `GLIB_drawStringOnLine` with its line, and `DMD_updateDisplay`.
pub data Draw : Type 0 where
  clear : Draw
  draw_on_line : List ℕ → ℕ → Draw
  update : Draw

-- The file's globals. `line_cells` is `LINE_SIZE + 1`, the size of `line_buf`; `LINE_SIZE` may be -1.
pub record Lcd : Type 0 where
  pub cur_line : ℕ
  pub is_init : Bool
  pub num_of_lines : ℕ
  pub line_cells : ℕ
  pub drawn : List Draw

abbrev pub at_start : Lcd
at_start = record { cur_line = 0; is_init = false; num_of_lines = 0; line_cells = 1; drawn = [] }

abbrev pub line_size : Lcd → ℕ
line_size l = l.line_cells - 1

abbrev extra_cell : FontSize → ℕ
extra_cell big = 1
extra_cell medium = 0
extra_cell small = 0

unfoldable pub lcd_init : Glib → FontSize → Lcd → Lcd
lcd_init glib size l = if l.is_init then l else record l {
  is_init = true;
  num_of_lines = glib.x_max / (glib.font_height size + glib.line_spacing size);
  line_cells = glib.y_max / glib.font_width size + extra_cell size;
  drawn = clear ∷ l.drawn;
}

unfoldable pub clean_screen : Lcd → Lcd
clean_screen l = record l { cur_line = 0; drawn = clear ∷ l.drawn }

-- `_curLine` is an `unsigned char`. The `EFM_ASSERT` on GLIB's status is left out.
unfoldable pub lcd_puts : List ℕ → Lcd → Lcd
lcd_puts string l = record l {
  cur_line = (l.cur_line + 1) % 256;
  drawn = draw_on_line string l.cur_line ∷ l.drawn;
}

infixl 10 ◌>>=◌
abbrev pub ◌>>=◌ : {A B : Type 0} → Option A → (A → Option B) → Option B
none >>= f = none
some a >>= f = f a

-- `while (string[j] == rm)` on the array from `j` on: `j` and `size` behind it, and `string[j]`. `none`
-- is a read past the array.
unfoldable pub skip_char : ℕ → List ℕ → (j size : ℕ) → Option (ℕ × ℕ × ℕ)
skip_char rm [] j size = none
skip_char rm (c ∷ cs) j size =
    if c == rm then skip_char rm cs (j + 1) (size - 1) else some (j, size, c)

-- The loop of `remove_char`, on fuel.
unfoldable pub remove_loop : ℕ → ℕ → List ℕ → (i j size : ℕ) → Option (List ℕ × ℕ)
unfolding skip_char
remove_loop zero rm string i j size = none
remove_loop (suc f) rm string i j size =
    let next = skip_char rm (drop j string) j size >>= λ p.
    remove_loop f rm (set string i p.2) (i + 1) (p.0 + 1) p.1 in
    if ltb i size then next else some (string, size)

-- `string[size] = '\0'; return size;`
abbrev pub ended : List ℕ × ℕ → Option (List ℕ × ℕ)
ended p = some (set p.0 p.1 0, p.1)

-- The string is edited in its array; the new length is returned.
unfoldable pub remove_char : List ℕ → ℕ → Option (List ℕ × ℕ)
unfolding remove_loop
remove_char string rm =
    let size = length (c_string string) in remove_loop (size + 1) rm string 0 0 size >>= ended

-- How a call ends: `fault` is an access outside an array, `endless` a loop that has not ended when its
-- fuel has.
pub data Outcome (A : Type 0) : Type 0 where
  done : A → Outcome A
  fault endless : Outcome A

abbrev pub min : ℕ → ℕ → ℕ
min x y = if ltb x y then x else y

-- The loop over `j`, on the rest of the line: `here` is the place of its first byte in the buffer.
unfoldable pub find_break : ℕ → List ℕ → (here last_space : ℕ) → ℕ
find_break zero rest here last_space = last_space
find_break (suc n) [] here last_space = last_space
find_break (suc n) (c ∷ rest) here last_space =
    find_break n rest (here + 1)
      (if (if c == 32 then true else length rest == 0) then here + 1 else last_space)

-- `if (_curLine >= NUM_OF_LINES) cleanScreen();`
unfoldable pub make_room : Lcd → Lcd
unfolding clean_screen
make_room l = if leb l.num_of_lines l.cur_line then clean_screen l else l

-- The bytes that a row takes; `last_space - (line + i)` counts only where it is positive.
abbrev pub row_width : ℕ → ℕ → ℕ
row_width size space_idx = if ltb 0 space_idx then space_idx else size

-- The loop over `i`, on fuel, on the rest of the line, which is at `here`. `line_buf` holds a NUL
-- behind the row.
unfoldable pub wrap : ℕ → (here : ℕ) → List ℕ → ℕ → Lcd → Outcome (ℕ × Lcd)
unfolding find_break make_room lcd_puts
wrap f here [] last_space l = done (last_space, l)
wrap zero here (c ∷ rest) last_space l = endless
wrap (suc f) here (c ∷ rest) last_space l =
    let size = line_size l in
    let line = c ∷ rest in
    let last_space' = find_break (min size (length line)) line here last_space in
    let width = row_width size (last_space' - here) in
    let next =
      wrap f (here + width) (drop width line) last_space'
        (lcd_puts (take width line) (make_room l)) in
    if leb l.line_cells width then fault else next

-- The body of the loop over the lines.
unfoldable pub print_line : (here : ℕ) → List ℕ → ℕ → Lcd → Outcome (ℕ × Lcd)
unfolding wrap make_room lcd_puts
print_line here line last_space l =
    let l' = make_room l in
    if ltb (line_size l') (length line)
    then wrap (length line) here line last_space l'
    else done (last_space, lcd_puts line l')

abbrev pub is_newline : ℕ → Bool
is_newline c = c == 10

abbrev pub continue : {A B : Type 0} → Outcome A → (A → Outcome B) → Outcome B
continue (done a) f = f a
continue fault f = fault
continue endless f = endless

-- The place of a token in the buffer, of which `passed` bytes lie before the call.
abbrev pub token_at : (passed end_at : ℕ) → List ℕ → ℕ
token_at passed end_at line = passed + end_at - length line

-- `last_space = line` before the loop; 0 for NULL.
abbrev pub first_at : ℕ → Tok → ℕ
first_at passed t = elim t.token [ none ↦ 0 | some line ↦ token_at passed t.end_at line ]

-- The loop over what `strtok` gives, on fuel, on the buffer from `here` on.
unfoldable pub print_lines : ℕ → (here : ℕ) → List ℕ → ℕ → Lcd → Outcome Lcd
unfolding print_line strtok_in
print_lines zero here buf last_space l = endless
print_lines (suc f) here buf last_space l =
    let t = strtok_in is_newline buf in
    elim t.token [
      | none ↦ done l
      | some line ↦
          continue (print_line (token_at here t.end_at line) line last_space l)
            λ p. print_lines f (here + length t.passed) t.rest p.0 p.1
    ]

abbrev pub max_string_size : ℕ
max_string_size = 1024

abbrev pub update_display : Lcd → Lcd
update_display l = record l { drawn = update ∷ l.drawn }

abbrev pub print_buffer : Option (List ℕ × ℕ) → Lcd → Outcome Lcd
print_buffer none l = fault
print_buffer (some (buf, size)) l =
    if l.line_cells == 0
    then fault
    else continue (print_lines (length buf + 1) 0 buf (first_at 0 (strtok_in is_newline buf)) l)
        λ l'. done (update_display l')

-- On what `vsnprintf` makes of the format and the arguments; `none` is a negative result. The array
-- takes 1023 bytes of it.
unfoldable pub lcd_printf : Option (List ℕ) → Lcd → Outcome Lcd
unfolding remove_char print_lines
lcd_printf none l = done l
lcd_printf (some []) l = done l
lcd_printf (some (c ∷ text)) l =
    let output = take (max_string_size - 1) (c ∷ text) in
    print_buffer (remove_char (buffer max_string_size output) 13) l
