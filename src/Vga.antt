-- ===== src/Vga.antt =====
-- drivers/vga.c: the text screen of 80 columns and 25 rows.
-- `cells i` is the 16-bit cell i of VGA_MEM, and `cursor` the position that was last sent to the
-- CRT controller. A `char` is a byte, which C extends by its sign.
pub mod Screen
mod Tests
use osdev.Prelude.{
  ℕ, zero, suc, ◌+◌, ◌-◌, ◌*◌, ◌/◌, ◌%◌, ◌^◌, Bool, true, false, Option, none, some, List, [], ◌∷◌,
  ◌==◌, ltb, leb, if◌then◌else◌, ◌||◌,
}

abbrev pub vga_width : ℕ
vga_width = 80

abbrev pub vga_height : ℕ
vga_height = 25

pub record Vga : Type 0 where
  pub cells : ℕ → ℕ
  pub row : ℕ
  pub col : ℕ
  pub color : ℕ
  pub cursor : ℕ

unfoldable pub put_cell : (ℕ → ℕ) → ℕ → ℕ → ℕ → ℕ
put_cell cells at v i = if i == at then v else cells i

-- ' ' | ((FG_GRAY | BG_BLACK) << 8)
abbrev pub blank_cell : ℕ
blank_cell = 0x0720

-- `vga_clear` of `len` cells, the last one first.
unfoldable pub vga_clear : ℕ → (ℕ → ℕ) → ℕ → ℕ → ℕ → ℕ
unfolding put_cell
vga_clear zero cells x y = cells
vga_clear (suc len) cells x y =
    vga_clear len (put_cell cells (y * vga_width + len + x) blank_cell) x y

unfoldable pub vga_scroll : (ℕ → ℕ) → ℕ → ℕ
vga_scroll cells i =
    if ltb i ((vga_height - 1) * vga_width)
    then cells (i + vga_width)
    else if ltb i (vga_height * vga_width)
    then 0
    else cells i

-- `if(++vga_row >= VGA_HEIGHT) { ... }`
unfoldable pub next_row : Vga → Vga
unfolding vga_scroll
next_row v =
    let row = (v.row + 1) % 256 in
    if leb vga_height row
    then record v { row = vga_height - 1; cells = vga_scroll v.cells }
    else record v { row = row }

-- c | (vga_color << 8), in 16 bits.
unfoldable pub cell_of : ℕ → ℕ → ℕ
cell_of c color = if ltb c 128 then c + 256 * color else 0xFF00 + c

-- `vga_putc` before it sends the cursor.
unfoldable pub put_char : Vga → ℕ → Vga
unfolding vga_clear next_row cell_of put_cell
put_char v c =
    if c == 10
    then next_row (record v { col = 0 })
    else if c == 13
    then record v { col = 0 }
    else if c == 9
    then (let col = (v.col + 4) % 256 in
        record v {
          cells = vga_clear 4 v.cells v.col v.row;
          col = if leb vga_width col then vga_width - 1 else col;
        })
    else if c == 0
    then v
    else (let col = (v.col + 1) % 256 in
        let put = record v {
          cells = put_cell v.cells (v.row * vga_width + v.col) (cell_of c v.color);
        } in
        if leb vga_width col then next_row (record put { col = 0 }) else record put { col = col })

-- `vga_set_cursor` of the position itself.
unfoldable pub vga_set_cursor : Vga → Vga
vga_set_cursor v = record v { cursor = (v.row * vga_width + v.col) % 2 ^ 16 }

unfoldable pub vga_putc : Vga → ℕ → Vga
unfolding put_char vga_set_cursor
vga_putc v c = vga_set_cursor (put_char v c)

-- `none`: the string does not end in its array.
unfoldable pub vga_puts : Vga → List ℕ → Option Vga
vga_puts v [] = none
vga_puts v (c ∷ s) = elim (c == 0) [ true ↦ some v | false ↦ vga_puts (vga_putc v c) s ]

-- `a | b` on the `n` low bits.
unfoldable pub bit_or : ℕ → ℕ → ℕ → ℕ
bit_or zero a b = 0
bit_or (suc n) a b = (if (a % 2 == 1) || (b % 2 == 1) then 1 else 0) + 2 * bit_or n (a / 2) (b / 2)

unfoldable pub vga_setcolor : Vga → ℕ → ℕ → Vga
unfolding bit_or
vga_setcolor v fg bg = record v { color = bit_or 8 fg (bg * 16) }
