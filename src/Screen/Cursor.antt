-- ===== src/Screen/Cursor.antt =====
-- Where characters go: the cursor stays on the screen and walks it row by row.
use so2_joan_erik.Common.{
  ℕ, zero, suc, ◌+◌, ◌*◌, ◌%◌, ◌<◌, ◌≤◌, ◌≡◌, refl, ◌≢◌, ◌∙◌, ap, arith, ◌==◌, if◌then◌else◌, ℤ,
  pos, ◌<ℤ◌, ◌⊎◌,
}
use so2_joan_erik.Screen.{
  Screen, num_columns, num_rows, cell_word, new_line, put_cell, printc, printc_xy, write_loop,
  sys_write_console, sys_gotoxy, einval,
}

-- The cursor is on the screen.
pub record InScreen (s : Screen) : Type 0 where
  pub column : s.x < num_columns
  pub row : s.y < num_rows

-- The index of the cell under the cursor.
abbrev pub cursor : Screen → ℕ
cursor s = s.y * num_columns + s.x

-- printc keeps the cursor on the screen, whatever it prints.
pub printc-InScreen : {s : Screen} (c : ℕ) → InScreen s → InScreen (printc s c)
unfolding printc
printc-InScreen c v = ground arith

-- A character that is no newline goes to the cell under the cursor, and the cursor goes on by one,
-- from the last cell of the screen to the first.
pub cursor-printc :
    {s : Screen} (c : ℕ) → InScreen s → c ≢ b'\n' → cursor (printc s c) ≡ (cursor s + 1) % 2000
unfolding printc
cursor-printc c v h = ground arith

pub cells-printc :
    (s : Screen) (c i : ℕ)
    → c ≢ b'\n'
    → (printc s c).cells i
      ≡ (if i == cursor s then cell_word s.foreground s.background c else s.cells i)
unfolding printc new_line put_cell
cells-printc s c i h = ground arith

printc-colours :
    (s : Screen) (c : ℕ)
    → ((printc s c).foreground ≡ s.foreground) × ((printc s c).background ≡ s.background)
unfolding printc new_line put_cell
printc-colours s c = ground arith

-- printc_xy leaves the cursor where it was.
pub cursor-printc_xy : (s : Screen) (mx my c : ℕ) → cursor (printc_xy s mx my c) ≡ cursor s
unfolding printc_xy
cursor-printc_xy s mx my c = refl

-- The characters of a buffer from index `i`, `n` of them, hold no newline.
abbrev pub OneLine : (ℕ → ℕ) → ℕ → ℕ → Type 0
OneLine buffer i n = (j : ℕ) → i ≤ j → j < i + n → buffer j ≢ b'\n'

OneLine-next : (buffer : ℕ → ℕ) (i n : ℕ) → OneLine buffer i (suc n) → OneLine buffer (i + 1) n
OneLine-next buffer i n h j lo hi = h j (omega arith) (omega arith)

cursor-write_loop :
    (n : ℕ) (buffer : ℕ → ℕ) (i : ℕ) {s : Screen}
    → InScreen s
    → OneLine buffer i n
    → InScreen (write_loop n buffer i s)
      × (cursor (write_loop n buffer i s) ≡ (cursor s + n) % 2000)
unfolding write_loop
cursor-write_loop zero buffer i v h = (v, omega arith)
cursor-write_loop (suc n) buffer i v h =
    let rest =
      cursor-write_loop n buffer (i + 1) (printc-InScreen (buffer i) v)
        (OneLine-next buffer i n h) in
    let one = cursor-printc (buffer i) v (h i (omega arith) (omega arith)) in
    (rest.0, rest.1 ∙ omega (arith, one))

-- The loop writes no cell but those that the cursor passes.
cells-write_loop_ne :
    (n : ℕ) (buffer : ℕ → ℕ) (i k : ℕ) {s : Screen}
    → InScreen s
    → OneLine buffer i n
    → ((j : ℕ) → j < n → k ≢ (cursor s + j) % 2000)
    → (write_loop n buffer i s).cells k ≡ s.cells k
unfolding write_loop
cells-write_loop_ne zero buffer i k v h ne = refl
cells-write_loop_ne (suc n) buffer i k {s} v h ne =
    let line = h i (omega arith) (omega arith) in
    let one = cursor-printc (buffer i) v line in
    cells-write_loop_ne n buffer (i + 1) k (printc-InScreen (buffer i) v)
      (OneLine-next buffer i n h) (λ j lt e. ne (suc j) (omega arith) (omega arith))
    ∙ cells-printc s (buffer i) k line
    ∙ ground (arith, ne 0)

cells-write_loop :
    (n : ℕ) (buffer : ℕ → ℕ) (i j : ℕ) {s : Screen}
    → InScreen s
    → OneLine buffer i n
    → n ≤ 2000
    → j < n
    → (write_loop n buffer i s).cells ((cursor s + j) % 2000)
      ≡ cell_word s.foreground s.background (buffer (i + j))
unfolding write_loop
cells-write_loop zero buffer i j v h small lt = absurd (omega arith)
cells-write_loop (suc n) buffer i zero {s} v h small lt =
    let line = h i (omega arith) (omega arith) in
    let one = cursor-printc (buffer i) v line in
    let same_index : i ≡ i + 0 = omega arith in
    cells-write_loop_ne n buffer (i + 1) ((cursor s + 0) % 2000) (printc-InScreen (buffer i) v)
      (OneLine-next buffer i n h) (λ k kn e. omega (arith, one))
    ∙ cells-printc s (buffer i) ((cursor s + 0) % 2000) line
    ∙ ground (arith, ap (λ (t : ℕ). cell_word s.foreground s.background (buffer t)) same_index)
cells-write_loop (suc n) buffer i (suc j) {s} v h small lt =
    let line = h i (omega arith) (omega arith) in
    let one = cursor-printc (buffer i) v line in
    let here : (cursor s + suc j) % 2000 ≡ (cursor (printc s (buffer i)) + j) % 2000 =
      omega (arith, one) in
    let same_index : i + 1 + j ≡ i + suc j = omega arith in
    rw here (
      cells-write_loop n buffer (i + 1) j (printc-InScreen (buffer i) v) (OneLine-next buffer i n h)
        (omega arith) (omega arith)
      ∙ rw ((printc-colours s (buffer i)).0, (printc-colours s (buffer i)).1, same_index) refl)

-- What sys_write_console leaves: the size is returned, the characters stand one after the other from
-- the cursor on in the current colours, no other cell changes, and the cursor stands behind them, on
-- the screen.
pub record Written (s : Screen) (buffer : ℕ → ℕ) (size : ℕ) : Type 0 where
  pub count : (sys_write_console s buffer size).0 ≡ size
  pub shown :
      (j : ℕ)
      → j < size
      → (sys_write_console s buffer size).1.cells ((cursor s + j) % 2000)
        ≡ cell_word s.foreground s.background (buffer j)
  pub spared :
      (k : ℕ)
      → ((j : ℕ) → j < size → k ≢ (cursor s + j) % 2000)
      → (sys_write_console s buffer size).1.cells k ≡ s.cells k
  pub moved : cursor (sys_write_console s buffer size).1 ≡ (cursor s + size) % 2000
  pub on_screen : InScreen (sys_write_console s buffer size).1

-- With the cursor on the screen, sys_write_console prints a buffer without newlines of at most a
-- screenful as `Written` says.
pub sys_write_console-Written :
    {s : Screen} (buffer : ℕ → ℕ) (size : ℕ)
    → InScreen s
    → OneLine buffer 0 size
    → size ≤ 2000
    → Written s buffer size
unfolding sys_write_console
sys_write_console-Written buffer size v h small = record {
  count = refl;
  shown = λ j lt.
      let same_index : 0 + j ≡ j = omega arith in
      rw (cells-write_loop size buffer 0 j v h small lt, same_index) refl;
  spared = λ k ne. cells-write_loop_ne size buffer 0 k v h ne;
  moved = (cursor-write_loop size buffer 0 v h).1;
  on_screen = (cursor-write_loop size buffer 0 v h).0;
}

-- gotoxy to a cell of the screen moves the cursor there and returns the sum of the coordinates; the
-- cursor is then on the screen, whatever it was.
pub sys_gotoxy_on :
    (s : Screen) (x y : ℕ)
    → x < num_columns
    → y < num_rows
    → (sys_gotoxy s (pos x) (pos y) ≡ (pos (x + y), record s { x = x; y = y }))
      × InScreen (sys_gotoxy s (pos x) (pos y)).1
unfolding sys_gotoxy
sys_gotoxy_on s x y hx hy = ground arith

-- gotoxy with a coordinate off the screen returns -EINVAL and changes nothing.
pub sys_gotoxy_off :
    (s : Screen) (nx ny : ℤ)
    → (nx <ℤ pos 0) ⊎ (ny <ℤ pos 0) ⊎ (pos 79 <ℤ nx) ⊎ (pos 24 <ℤ ny)
    → sys_gotoxy s nx ny ≡ (einval, s)
unfolding sys_gotoxy
sys_gotoxy_off s nx ny off = ground arith
