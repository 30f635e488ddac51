-- ===== src/Vga/Tests.antt =====
-- A screen with the cursor in its last row.
use osdev.Prelude.{ℕ, ◌+◌, ◌*◌, ◌≡◌, ◌⊎◌, some, List, [], ◌∷◌, arith}
use osdev.CString.Text.{c_string}
use osdev.Vga.{Vga, vga_puts}
use osdev.Vga.Screen.{OnScreen, Beyond, vga_puts-OnScreen}

abbrev typed : List ℕ
typed = 97 ∷ 98 ∷ 9 ∷ []

abbrev last_row : Vga
last_row = record { cells = λ i. i; row = 24; col = 78; color = 7; cursor = 1998 }

last_row-OnScreen : OnScreen last_row
last_row-OnScreen = record { row_in = omega arith; col_in = omega arith }

vga_puts-OnScreen_example :
    (v' : Vga) × (vga_puts last_row (c_string typed []) ≡ some v')
    × OnScreen v'
    × Beyond last_row v'
    × ((typed ≡ []) ⊎ (v'.cursor ≡ v'.row * 80 + v'.col))
vga_puts-OnScreen_example =
    vga_puts-OnScreen last_row typed [] last_row-OnScreen
      (ground arith, (ground arith, (ground arith, tt)))
