-- ===== src/Vga/Screen.antt =====
-- The cursor stays on the screen, and what lies behind the screen is left alone.
use osdev.Prelude.{
  ℕ, zero, suc, ◌+◌, ◌*◌, ◌%◌, ◌≤◌, ◌<◌, ◌≡◌, ◌≢◌, ◌⊎◌, inl, inr, refl, ◌∙◌, Bool, true, false,
  some, List, [], ◌∷◌, ◌++◌, ◌==◌, leb, if◌then◌else◌, arith, Bool-cases,
}
use osdev.CString.Text.{IsText, c_string}
use osdev.Vga.{
  Vga, put_cell, vga_clear, vga_scroll, next_row, cell_of, put_char, vga_set_cursor, vga_putc,
  vga_puts,
}

-- The position is one of the screen.
pub record OnScreen (v : Vga) : Type 0 where
  pub row_in : v.row < 25
  pub col_in : v.col < 80

-- From cell 2003 on, nothing has changed. A tabulator in the last columns of the last row clears
-- up to three cells behind the screen.
abbrev pub Beyond : Vga → Vga → Type 0
Beyond v v' = (i : ℕ) → 2003 ≤ i → v'.cells i ≡ v.cells i

next_row-OnScreen : (v : Vga) → v.row < 25 → v.col < 80 → OnScreen (next_row v)
unfolding next_row
next_row-OnScreen v r c = elim (Bool-cases (leb 25 ((v.row + 1) % 256))) [
  | inl p ↦ rw p (record { row_in = omega arith; col_in = c })
  | inr p ↦ rw p (record { row_in = ground arith; col_in = c })
]

next_row-Beyond : (v : Vga) → Beyond v (next_row v)
unfolding next_row vga_scroll
next_row-Beyond v i far = elim (Bool-cases (leb 25 ((v.row + 1) % 256))) [
  | inl p ↦ rw p (ground (arith, far))
  | inr p ↦ rw p refl
]

vga_clear-other :
    (len : ℕ) (cells : ℕ → ℕ) (x y i : ℕ)
    → y * 80 + len + x ≤ i
    → vga_clear len cells x y i ≡ cells i
unfolding vga_clear put_cell
vga_clear-other zero cells x y i far = refl
vga_clear-other (suc len) cells x y i far =
    vga_clear-other len (put_cell cells (y * 80 + len + x) 0x0720) x y i (omega arith)
    ∙ ground (arith, far)

-- What one character leaves.
abbrev Kept : Vga → Vga → Type 0
Kept v v' = OnScreen v' × Beyond v v'

Kept-if : (v : Vga) (b : Bool) {a a' : Vga} → Kept v a → Kept v a' → Kept v (if b then a else a')
Kept-if v true h k = h
Kept-if v false h k = k

put_cell-other :
    (v : Vga) (x i : ℕ)
    → OnScreen v
    → 2003 ≤ i
    → put_cell v.cells (v.row * 80 + v.col) x i ≡ v.cells i
unfolding put_cell
put_cell-other v x i on far = ground (arith, on.row_in, on.col_in, far)

-- A character of one cell, and the step to the next row after the last column.
put_plain :
    (v : Vga) (x : ℕ)
    → OnScreen v
    → (let put = record v { cells = put_cell v.cells (v.row * 80 + v.col) x } in
        let col = (v.col + 1) % 256 in
        Kept v (if leb 80 col then next_row (record put { col = 0 }) else record put { col = col }))
put_plain v x on = elim (Bool-cases (leb 80 ((v.col + 1) % 256))) [
  | inl p ↦ rw p (
    next_row-OnScreen (record put { col = 0 }) on.row_in (omega arith),
    λ i far. next_row-Beyond (record put { col = 0 }) i far ∙ put_cell-other v x i on far,
  )
  | inr p ↦
      rw p
        (record { row_in = on.row_in; col_in = ground arith }, λ i far. put_cell-other v x i on far)
]
  where
    put : Vga
    put = record v { cells = put_cell v.cells (v.row * 80 + v.col) x }

put_tab :
    (v : Vga)
    → OnScreen v
    → (let col = (v.col + 4) % 256 in
        Kept v (record v {
          cells = vga_clear 4 v.cells v.col v.row;
          col = if leb 80 col then 79 else col;
        }))
put_tab v on = (
  record { row_in = on.row_in; col_in = ground arith },
  λ i far. vga_clear-other 4 v.cells v.col v.row i (omega (arith, far, on.row_in, on.col_in)),
)

put_char-Kept : (v : Vga) (c : ℕ) → OnScreen v → Kept v (put_char v c)
unfolding put_char
put_char-Kept v c on =
    Kept-if v (c == 10)
      (
        next_row-OnScreen (record v { col = 0 }) on.row_in (omega arith),
        next_row-Beyond (record v { col = 0 }),
      )
      (Kept-if v (c == 13) (record { row_in = on.row_in; col_in = omega arith }, λ i far. refl)
        (Kept-if v (c == 9) (put_tab v on)
          (Kept-if v (c == 0) (on, λ i far. refl) (put_plain v (cell_of c v.color) on))))

-- The cursor is sent where the position is.
vga_putc-Kept :
    (v : Vga) (c : ℕ)
    → OnScreen v
    → Kept v (vga_putc v c) × ((vga_putc v c).cursor ≡ (vga_putc v c).row * 80 + (vga_putc v c).col)
unfolding vga_putc vga_set_cursor
vga_putc-Kept v c on =
    let (here, far) = put_char-Kept v c on in
    (
      (record { row_in = here.row_in; col_in = here.col_in }, far),
      omega (arith, here.row_in, here.col_in),
    )

vga_puts-next :
    (v : Vga) (c : ℕ) (s : List ℕ) → c ≢ 0 → vga_puts v (c ∷ s) ≡ vga_puts (vga_putc v c) s
unfolding vga_puts
vga_puts-next v c s ne = rw (vga_puts, not_end) refl
  where
    not_end : (c == 0) ≡ false
    not_end = ground (arith, ne)

vga_puts-end : (v : Vga) (s : List ℕ) → vga_puts v (0 ∷ s) ≡ some v
unfolding vga_puts
vga_puts-end v s = refl

-- Any text that is put on the screen leaves the cursor on it, sent to the controller as the
-- position of its row and column if the text is not empty, and no cell from 2003 on changed (a
-- tabulator in the last row may clear three cells behind the 2000 of the screen).
pub vga_puts-OnScreen :
    (v : Vga) (t rest : List ℕ)
    → OnScreen v
    → IsText t
    → (v' : Vga) × (vga_puts v (c_string t rest) ≡ some v')
      × OnScreen v'
      × Beyond v v'
      × ((t ≡ []) ⊎ (v'.cursor ≡ v'.row * 80 + v'.col))
vga_puts-OnScreen v [] rest on text = (v, vga_puts-end v rest, on, (λ i far. refl), inl refl)
vga_puts-OnScreen v (c ∷ []) rest on text =
    let ((here, far), sent) = vga_putc-Kept v c on in
    (
      vga_putc v c,
      vga_puts-next v c (0 ∷ rest) text.0 ∙ vga_puts-end (vga_putc v c) rest,
      here,
      far,
      inr sent,
    )
vga_puts-OnScreen v (c ∷ d ∷ t) rest on text =
    let ((here, far), sent) = vga_putc-Kept v c on in
    let (v', put, on', far', cursor) = vga_puts-OnScreen (vga_putc v c) (d ∷ t) rest here text.1 in
    (
      v',
      vga_puts-next v c (d ∷ t ++ (0 ∷ rest)) text.0 ∙ put,
      on',
      (λ i h. far' i h ∙ far i h),
      elim cursor [ inl e ↦ absurd (nonempty e) | inr q ↦ inr q ],
    )
  where
    nonempty : d ∷ t ≢ []
    nonempty e = absurd (cc)
