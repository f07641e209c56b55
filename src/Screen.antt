-- ===== src/Screen.antt =====
-- The text screen of io.c and devices.c, and the two system calls of sys.c that set its state.
--
-- The video memory at 0xb8000 is a function from the index of a cell to its word. A `Byte` wraps at
-- 256 and a `Word` at 65536. The copy of each character that goes to the debug port is not modelled.
pub mod Cursor
pub mod Colour
use Prim.Native.Nat.{bit_or}
use so2_joan_erik.Common.{
  ℕ, zero, suc, ◌+◌, ◌*◌, ◌%◌, List, [], ◌∷◌, Bool, ◌||◌, ltb, leb, ◌==◌, if◌then◌else◌, length, ℤ,
  pos, negsuc, is_neg, leb_ℤ, ltb_ℤ, pos_part, ◌+ℤ◌,
}

pub record Screen : Type 0 where
  pub x : ℕ
  pub y : ℕ
  pub foreground : ℕ
  pub background : ℕ
  pub cells : ℕ → ℕ

abbrev pub num_columns : ℕ
num_columns = 80

abbrev pub num_rows : ℕ
num_rows = 25

-- `foreground << 8 | background << 12`
unfoldable pub attribute : ℕ → ℕ → ℕ
attribute fg bg = bit_or (fg * 256) (bg * 4096)

-- `(Word) (c & 0x00FF) | foreground << 8 | background << 12`, as stored in a Word.
unfoldable pub cell_word : ℕ → ℕ → ℕ → ℕ
unfolding attribute
cell_word fg bg c = bit_or (c % 256) (attribute fg bg) % 65536

unfoldable pub new_line : Screen → Screen
new_line s = record s { x = 0; y = (s.y + 1) % num_rows }

unfoldable pub put_cell : Screen → ℕ → Screen
put_cell s c = record s {
  cells = λ i.
      if i == s.y * num_columns + s.x then cell_word s.foreground s.background c else s.cells i;
  x = (s.x + 1) % 256;
}

unfoldable pub printc : Screen → ℕ → Screen
unfolding new_line put_cell
printc s c =
    if c == b'\n'
    then new_line s
    else let s' = put_cell s c in if leb num_columns s'.x then new_line s' else s'

unfoldable pub printc_xy : Screen → ℕ → ℕ → ℕ → Screen
unfolding printc
printc_xy s mx my c =
    let s' = printc (record s { x = mx; y = my }) c in record s' { x = s.x; y = s.y }

-- The bytes of a string: the NUL ends it.
unfoldable pub printk : Screen → List ℕ → Screen
printk s [] = s
printk s (c ∷ cs) = let rest = printk (printc s c) cs in if c == 0 then s else rest

-- The rest of the loop of sys_write_console: `n` characters from index `i` on.
unfoldable pub write_loop : ℕ → (ℕ → ℕ) → ℕ → Screen → Screen
write_loop zero buffer i s = s
write_loop (suc n) buffer i s = write_loop n buffer (i + 1) (printc s (buffer i))

unfoldable pub sys_write_console : Screen → (ℕ → ℕ) → ℕ → ℕ × Screen
unfolding write_loop
sys_write_console s buffer size = (size, write_loop size buffer 0 s)

abbrev pub einval : ℤ
einval = negsuc 21

unfoldable pub sys_gotoxy : Screen → ℤ → ℤ → ℤ × Screen
sys_gotoxy s nova_x nova_y =
    if is_neg nova_y || leb_ℤ (pos 25) nova_y || is_neg nova_x || leb_ℤ (pos 80) nova_x
    then (einval, s)
    else (nova_x +ℤ nova_y, record s { x = pos_part nova_x % 256; y = pos_part nova_y % 256 })

unfoldable pub sys_set_color : Screen → ℤ → ℤ → ℤ × Screen
sys_set_color s fg bg =
    if is_neg fg || is_neg bg || ltb_ℤ (pos 16) fg || ltb_ℤ (pos 16) bg
    then (einval, s)
    else (pos 0, record s { foreground = pos_part fg % 256; background = pos_part bg % 256 })
